-- ===== src/Examples/Restart.antt =====
-- The restarts after `Put`s with a rotation and after a `Compact`, and on damaged or unordered
-- files, at concrete engines.
use titan_distributed_kv.Common.{
  ℕ, ◌≡◌, refl, ap, true, false, some, take, ◌++◌, [], ◌∷◌, bytes_key, arith,
}
use titan_distributed_kv.Common.Maps
use titan_distributed_kv.Common.Maps.{NodupKeys, lookup-cons, lookup-nil}
use titan_distributed_kv.Storage.Codec.{encode, length-encode}
use titan_distributed_kv.Storage.Names.{data_name, name_lt}
use titan_distributed_kv.Storage.Disk.{Entries, Result, file, ok, content}
use titan_distributed_kv.Storage.Exec.{RecordLocation, Store}
use titan_distributed_kv.Storage.Bitcask.{get, default_max_file_size}
use titan_distributed_kv.Storage.Bitcask.Steps.{IsValid}
use titan_distributed_kv.Storage.Recovery.{new_bitcask}
use titan_distributed_kv.Storage.Recovery.Log.{Records, encode_all}
use titan_distributed_kv.Storage.Recovery.Order.{last_value, two_files, restart_out_of_order}
use titan_distributed_kv.Storage.Recovery.Tombstones.{Fails}
use titan_distributed_kv.Storage.Recovery.Torn.{restart_torn}
use titan_distributed_kv.Storage.Recovery.Restart.{puts, empty_directory}
use titan_distributed_kv.Storage.Recovery.Rotated.{with_limit, restart-rotated}
use titan_distributed_kv.Storage.Compaction.{compact}
use titan_distributed_kv.Storage.Compaction.Restart.{AllSizesFit, restart-compact}
use titan_distributed_kv.Examples.Engine.{
  a, b, one, engine, in_order, in_order-IsVisit, rotated, rotated-IsValid, rotated_max,
}

-- The engine after a rotation, with the limit of `NewBitcask`.
abbrev two_data_files : Store
two_data_files = record rotated {
  bitcask = record rotated.bitcask { max_file_size = default_max_file_size };
}

two_data_files-IsValid : IsValid two_data_files
two_data_files-IsValid = record {
  file_open = rotated-IsValid.file_open;
  no_faults = rotated-IsValid.no_faults;
  sound = rotated-IsValid.sound;
}

-- The location of a ten byte record at the start of a file.
abbrev located_in : ℕ → RecordLocation
located_in id = record { file_id = id; offset = 0; size = 10 }

rotated_dir : rotated.bitcask.key_dir ≡ (a, located_in 0) ∷ (b, located_in 1) ∷ []
unfolding engine
rotated_dir = refl

rotated-AllSizesFit : AllSizesFit rotated.bitcask.key_dir
rotated-AllSizesFit j loc found = ground (
  arith,
  ap (Maps.lookup j) rotated_dir,
  lookup-cons j a (located_in 0) ((b, located_in 1) ∷ []),
  lookup-cons j b (located_in 1) [],
  lookup-nil {V = RecordLocation} j,
)

rotated-NodupKeys : NodupKeys rotated.disk.entries
unfolding engine
rotated-NodupKeys = (refl, (refl, tt))

restart-compact_example :
    let t = (compact in_order false two_data_files).1.1 in new_bitcask t.disk ≡ (ok tt, t)
restart-compact_example =
    restart-compact in_order two_data_files in_order-IsVisit two_data_files-IsValid
      rotated-NodupKeys (omega (arith, rotated_max)) (omega (arith, rotated_max))
      rotated-AllSizesFit refl

-- Two records, with a rotation between them
abbrev two_records : Records
two_records = (a, one) ∷ (b, one) ∷ []

two_records_id :
    (puts two_records (with_limit 3 (new_bitcask empty_directory).1)).1.bitcask.current_file_id ≡ 1
unfolding engine puts
two_records_id = refl

restart-rotated_example :
    let s = (puts two_records (with_limit 3 (new_bitcask empty_directory).1)).1 in
    new_bitcask s.disk ≡ (ok tt, with_limit default_max_file_size s)
restart-rotated_example =
    restart-rotated 3 two_records (omega arith, (omega arith, tt)) (omega arith)
      (omega (arith, two_records_id))

-- A file with one record, and three bytes of another
abbrev torn_entries : Entries
torn_entries = (data_name 0, file (encode_all ((a, one) ∷ []) ++ take 3 (encode b one))) ∷ []

torn_content :
    content (data_name 0) torn_entries ≡ some (encode_all ((a, one) ∷ []) ++ take 3 (encode b one))
unfolding engine
torn_content = refl

restart_torn_example : Fails (new_bitcask (record { entries = torn_entries; faults = [] })).0
restart_torn_example =
    restart_torn torn_entries 0 3 ((a, one) ∷ []) b one (omega arith) torn_content (omega arith, tt)
      (omega arith) (omega arith) (omega arith) (omega (arith, length-encode b one))

ten_before_nine : name_lt (data_name 10) (data_name 9) ≡ true
unfolding engine
ten_before_nine = refl

abbrev old_log : Records
old_log = (a, b) ∷ (b, b) ∷ (a, one) ∷ []

abbrev new_log : Records
new_log = (a, b) ∷ []

abbrev out_of_order : Result (Unit {0}) × Store
out_of_order = new_bitcask (record { entries = two_files 9 10 old_log new_log; faults = [] })

old_log-last : last_value a old_log ≡ some one
unfolding last_value bytes_key
old_log-last = refl

restart_out_of_order_example :
    (out_of_order.0 ≡ ok tt)
    × (out_of_order.1.bitcask.current_file_id ≡ 10)
    × (get a out_of_order.1 ≡ ok one)
restart_out_of_order_example =
    restart_out_of_order 9 10 old_log new_log (omega arith) (omega arith) ten_before_nine
      (omega arith, (omega arith, (omega arith, tt))) (omega arith, tt) a one old_log-last
