-- ===== src/Examples/Engine.antt =====
-- Runs of the storage engine, and its theorems at concrete engines.
use titan_distributed_kv.Common.{
  ◌≡◌, ◌≢◌, refl, [], ◌∷◌, ◌++◌, Bytes, codes, false, none, some, bytes_key, arith,
}
use titan_distributed_kv.Common.Maps
use titan_distributed_kv.Common.Maps.{IsVisit, lookup-cons, lookup-nil}
use titan_distributed_kv.Storage.Codec.{encode, le32, read_u32, read_full}
use titan_distributed_kv.Storage.Names.{data_name, scan_name, name_lt}
use titan_distributed_kv.Storage.Names.Laws.{scan_name-data_name}
use titan_distributed_kv.Storage.Disk.{
  file, Error, new, wrap, stuck, ok, err, content, sort_entries, append, sync, open_append,
  stat_size, grow, create, remove, read_dir, mkdir_all, open_read,
}
use titan_distributed_kv.Storage.Exec.{RecordLocation, KeyDir, Store}
use titan_distributed_kv.Storage.Bitcask.{put, get, delete}
use titan_distributed_kv.Storage.Bitcask.Healthy.{healthy}
use titan_distributed_kv.Storage.Bitcask.Invariant.{Sound}
use titan_distributed_kv.Storage.Bitcask.Steps.{
  IsValid, healthy-IsValid, Refines, set_value, drop_value,
}
use titan_distributed_kv.Storage.Bitcask.Refinement.{put-Refines, delete-Refines}
use titan_distributed_kv.Storage.Bitcask.Faults.{put_failed, delete_failed, IsReadable}
use titan_distributed_kv.Storage.Compaction.{compact, max_file_id, read_record}
use titan_distributed_kv.Storage.Compaction.Refinement.{
  merged_id, compact-Refines, compact_reclaims,
}
use titan_distributed_kv.Storage.Recovery.{new_bitcask, read_data_file}
use titan_distributed_kv.Storage.Recovery.Log.{encode_all}
use titan_distributed_kv.Storage.Recovery.Termination.{read_data_file-Ends}
use titan_distributed_kv.Storage.Recovery.Tombstones.{Fails, restart-delete}

abbrev pub a : Bytes
a = codes "a"

abbrev pub b : Bytes
b = codes "b"

abbrev pub one : Bytes
one = codes "1"

-- What a run of the engine computes with.
unfoldable pub engine : Unit {0}
unfolding put get delete compact new_bitcask bytes_key Maps.lookup Maps.insert Maps.erase append
    sync content grow le32 encode open_append stat_size create remove read_dir mkdir_all open_read
    read_u32 read_full data_name scan_name name_lt sort_entries max_file_id read_record encode_all
    read_data_file
engine = tt

names : data_name 120 ≡ codes "data-120.log"
unfolding data_name
names = refl

scans :
    (scan_name (codes "data-7.log.bak") ≡ some 7)
    × (scan_name (codes "data-.log") ≡ none)
    × (scan_name (codes "data-4294967296.log") ≡ none)
unfolding scan_name
scans = (refl, refl, refl)

-- An engine on an empty first file, which rotates files that are longer than three bytes.
abbrev pub start : Store
start = healthy [] 0 ((data_name 0, file []) ∷ []) 0 3

start-Sound : Sound [] 0 ((data_name 0, file []) ∷ []) 0
unfolding content Maps.lookup
start-Sound = record {
  distinct = tt;
  located = λ key loc found. absurd (cc);
  current = ([], ground arith, refl);
  id_fits = omega arith;
  plain = λ i e. ground arith;
}

pub start-IsValid : IsValid start
start-IsValid = healthy-IsValid [] 0 ((data_name 0, file []) ∷ []) 0 3 start-Sound

put-Refines_example : Refines (put a one start) (set_value a one (λ j. get j start))
put-Refines_example = put-Refines start a one start-IsValid (omega arith) (omega arith)

abbrev pub loaded : Store
loaded = (put a one start).1

pub loaded-IsValid : IsValid loaded
loaded-IsValid = (put-Refines start a one start-IsValid (omega arith) (omega arith)).valid

pub get-loaded : get a loaded ≡ ok one
unfolding engine
get-loaded = refl

delete-Refines_example : Refines (delete a loaded) (drop_value a (λ j. get j loaded))
delete-Refines_example = delete-Refines loaded a one loaded-IsValid get-loaded

-- The second `Put` rotates the file.
abbrev pub rotated : Store
rotated = (put b one loaded).1

rotated_id : rotated.bitcask.current_file_id ≡ 1
unfolding engine
rotated_id = refl

pub rotated-IsValid : IsValid rotated
rotated-IsValid = (put-Refines loaded b one loaded-IsValid (omega arith) (omega arith)).valid

abbrev pub in_order : KeyDir → KeyDir
in_order kd = kd

pub in_order-IsVisit : IsVisit in_order
in_order-IsVisit = record { lookup-range = λ kd j. refl; range-NodupKeys = λ kd h. h }

pub rotated_max : max_file_id (sort_entries rotated.disk.entries) 0 ≡ 1
unfolding engine
rotated_max = refl

compact-Refines_example :
    Refines
      ((compact in_order false rotated).0, (compact in_order false rotated).1.1)
      (λ j. get j rotated)
    × ((compact in_order false rotated).1.0 ≡ false)
compact-Refines_example =
    compact-Refines in_order rotated in_order-IsVisit rotated-IsValid (omega (arith, rotated_max))

compacted_file :
    Maps.lookup (data_name 2) (compact in_order false rotated).1.1.disk.entries
    ≡ some (file (encode a one ++ encode b one))
unfolding engine
compacted_file = refl

merged_files : max_file_id (sort_entries (compact in_order false rotated).1.1.disk.entries) 0 ≡ 2
unfolding engine
merged_files = refl

compact_reclaims_example : data_name 2 ≡ data_name (merged_id rotated)
compact_reclaims_example =
    compact_reclaims in_order rotated (data_name 2) (encode a one ++ encode b one) 2
      in_order-IsVisit rotated-IsValid (omega (arith, rotated_max)) (omega (arith, rotated_max))
      compacted_file (scan_name-data_name 2 (omega arith))

-- A disk that is full after two bytes of the next write.
abbrev full_disk : Store
full_disk = record loaded {
  disk = record loaded.disk {
    faults = some (record { landed = 2; cause = "no space left on device" }) ∷ [];
  };
}

abbrev write_error : Error
write_error = wrap "failed to write key size" (new "no space left on device")

-- The same with a file that is not rotated.
abbrev full_start : Store
full_start = record start {
  disk = record start.disk {
    faults = some (record { landed = 2; cause = "no space left on device" }) ∷ [];
  };
}

put_full : (put a one full_start).0 ≡ err write_error
unfolding engine
put_full = refl

full_start-IsReadable : IsReadable full_start
full_start-IsReadable key loc found = absurd (ground (arith, lookup-nil {V = RecordLocation} key))

put_failed_example :
    IsReadable (put a one full_start).1
    × ((j : Bytes) → get j (put a one full_start).1 ≡ get j full_start)
put_failed_example = put_failed full_start a one write_error full_start-IsReadable put_full

delete_full : (delete a full_disk).0 ≡ err write_error
unfolding engine
delete_full = refl

full_disk-IsReadable : IsReadable full_disk
full_disk-IsReadable = loaded-IsValid.sound.located

delete_failed_example :
    IsReadable (delete a full_disk).1
    × ((j : Bytes) → get j (delete a full_disk).1 ≡ get j full_disk)
delete_failed_example = delete_failed full_disk a write_error full_disk-IsReadable delete_full

read_data_file-Ends_example : read_data_file 0 (codes "ten bytes?") [] ≢ err stuck
read_data_file-Ends_example = read_data_file-Ends 0 (codes "ten bytes?") []

loaded_log :
    content (data_name loaded.bitcask.current_file_id) loaded.disk.entries
    ≡ some (encode_all ((a, one) ∷ []))
unfolding engine
loaded_log = refl

restart-delete_example :
    ((delete a loaded).0 ≡ ok tt) × Fails (new_bitcask (delete a loaded).1.disk).0
restart-delete_example =
    restart-delete loaded ((a, one) ∷ []) a one loaded-IsValid get-loaded loaded_log (omega arith)
