-- ===== src/Storage/Recovery.antt =====
-- Opening an engine on a directory: `NewBitcask`, `recover` and `readDataFile` of storage/bitcask.go.
pub mod Log
pub mod Restart
pub mod Single
pub mod Files
pub mod Layout
pub mod Rotated
pub mod Tombstones
pub mod Torn
pub mod Order
pub mod Termination
use titan_distributed_kv.Common.{
  ℕ, zero, suc, ◌+◌, ◌%◌, ◌≡◌, List, [], ◌∷◌, Bytes, Bool, true, false, Option, none, some, length,
  if◌then◌else◌, ltb, bytes_key,
}
use titan_distributed_kv.Common.Maps
use titan_distributed_kv.Storage.Codec.{Read, got, at_eof, cut_short, read_full, read_u32, word}
use titan_distributed_kv.Storage.Names.{scan_name}
use titan_distributed_kv.Storage.Disk.{
  Disk, Node, file, directory, Entries, Error, new, wrap, stuck, Result, ok, err, read_dir,
  mkdir_all,
}
use titan_distributed_kv.Storage.Exec.{
  RecordLocation, KeyDir, Bitcask, Store, M, ◌>>=◌, ◌>>◌, continue, modify, on_disk, wrapping,
}
use titan_distributed_kv.Storage.Bitcask.{default_max_file_size, unexpected_eof, open_current_file}

abbrev eof : Error
eof = new "EOF"

-- A read behind the first of a record: the end of the file is an error there.
pub require : {A : Type 0} → Read A → (A → Bytes → Result KeyDir) → Result KeyDir
require (got a rest) next = next a rest
require at_eof next = err eof
require cut_short next = err unexpected_eof

-- The read of the key size, where the end of the file ends the loop.
first_read : Read ℕ → KeyDir → (ℕ → Bytes → Result KeyDir) → Result KeyDir
first_read (got size rest) kd next = next size rest
first_read at_eof kd next = ok kd
first_read cut_short kd next = err unexpected_eof

-- The loop of `readDataFile` from `offset` on, with `bytes` not read yet. A round takes eight bytes at
-- least, so more fuel than there are bytes is enough. The record's size is a sum of uint32 numbers,
-- which wraps around.
unfoldable pub read_records : ℕ → ℕ → ℕ → Bytes → KeyDir → Result KeyDir
unfolding require first_read
read_records zero file_id offset bytes kd = err stuck
read_records (suc fuel) file_id offset bytes kd =
    first_read (read_u32 bytes) kd λ key_size after_key_size.
      require (read_u32 after_key_size) λ value_size after_sizes.
        require (read_full key_size after_sizes) λ key after_key.
          require (read_full value_size after_key) λ value rest.
            let size = (8 + key_size + value_size) % word in
            read_records fuel file_id (offset + size) rest
              (Maps.insert key (record { file_id = file_id; offset = offset; size = size }) kd)

-- readDataFile
unfoldable pub read_data_file : ℕ → Bytes → KeyDir → Result KeyDir
unfolding read_records
read_data_file file_id bytes kd = read_records (suc (length bytes)) file_id 0 bytes kd

abbrev pub Recovered : Type 0
Recovered = Result (KeyDir × ℕ)

-- The rest of the loop of `recover`, after the file of one entry has been read.
after_file : Result KeyDir → (KeyDir → Recovered) → Recovered
after_file (ok kd) next = next kd
after_file (err e) next = err (wrap "failed to read data file" e)

recover_file : Option ℕ → Bytes → ℕ → KeyDir → (ℕ → KeyDir → Recovered) → Recovered
unfolding after_file read_data_file
recover_file none bytes highest kd next = next highest kd
recover_file (some id) bytes highest kd next =
    after_file (read_data_file id bytes kd) (next (if ltb highest id then id else highest))

-- The loop of `recover` over the listed entries.
unfoldable pub recover_entries : Entries → ℕ → KeyDir → Recovered
unfolding recover_file
recover_entries [] highest kd = ok (kd, highest)
recover_entries ((name, directory) ∷ rest) highest kd = recover_entries rest highest kd
recover_entries ((name, file bytes) ∷ rest) highest kd =
    recover_file (scan_name name) bytes highest kd (recover_entries rest)

-- recover
unfoldable pub recover : M (Unit {0})
unfolding recover_entries
recover = do
  entries ← on_disk read_dir
  (kd, highest) ← (λ s. (recover_entries entries 0 [], s))
  modify (λ b. record b { key_dir = kd; current_file_id = highest })

-- The engine that `NewBitcask` starts from, over a directory.
abbrev pub blank : Disk → Store
blank d = record {
  bitcask = record {
    key_dir = [];
    current_file_id = 0;
    current_file = none;
    current_offset = 0;
    max_file_size = default_max_file_size;
  };
  disk = d;
}

-- NewBitcask; its engine is the one of the resulting state, unless it returns an error.
unfoldable pub new_bitcask : Disk → Result (Unit {0}) × Store
unfolding recover
new_bitcask d =
    (do
      wrapping "failed to create data directory" (on_disk mkdir_all)
      wrapping "failed to recover" recover
      wrapping "failed to open current file" open_current_file)
      (blank d)
