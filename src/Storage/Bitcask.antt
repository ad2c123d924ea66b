-- ===== src/Storage/Bitcask.antt =====
-- The methods of storage/bitcask.go on an open engine. Opening one is in `Storage/Recovery`.
pub mod Invariant
pub mod Healthy
pub mod Writes
pub mod Steps
pub mod Rotation
pub mod Refinement
pub mod Answers
pub mod Bounds
pub mod Faults
use titan_distributed_kv.Common.{
  ℕ, ◌+◌, ◌%◌, ◌≡◌, List, [], ◌∷◌, ◌++◌, Bytes, Bool, true, false, Option, none, some, String,
  length, drop, if◌then◌else◌, ltb, bytes_key,
}
use titan_distributed_kv.Common.Maps
use titan_distributed_kv.Storage.Codec.{
  Read, got, at_eof, cut_short, read_full, read_u32, le32, word,
}
use titan_distributed_kv.Storage.Names.{data_name}
use titan_distributed_kv.Storage.Disk.{
  Disk, Handle, bytes_of, Error, new, wrap, Result, ok, err, append, sync, open_append, stat_size,
  open_read,
}
use titan_distributed_kv.Storage.Exec.{
  RecordLocation, Bitcask, Store, M, ◌>>=◌, ◌>>◌, pure, fail, gets, modify, on_disk, wrapping, when,
  ignoring,
}

abbrev pub key_not_found : Error
key_not_found = new "key not found"

abbrev pub unexpected_eof : Error
unexpected_eof = new "unexpected EOF"

-- 100 * 1024 * 1024
abbrev pub default_max_file_size : ℕ
default_max_file_size = 104857600

-- A method of `*os.File` on a nil file is an error.
on_handle : {A : Type 0} → Option Handle → (Handle → Disk → Result A × Disk) → M A
on_handle none f = fail (new "invalid argument")
on_handle (some h) f = on_disk (f h)

on_current : {A : Type 0} → (Handle → Disk → Result A × Disk) → M A
unfolding on_handle
on_current f s = on_handle s.bitcask.current_file f s

-- `bc.currentFile.Write(bytes)`
write_current : Bytes → M (Unit {0})
unfolding on_current
write_current bytes = on_current (λ h. append h bytes)

sync_current : M (Unit {0})
unfolding on_current
sync_current = on_current sync

close_handle : Option Handle → Option Handle
close_handle none = none
close_handle (some h) = some (record h { is_open = false })

-- `if bc.currentFile != nil { bc.currentFile.Close() }`
unfoldable pub close_current : M (Unit {0})
unfolding close_handle
close_current = modify (λ b. record b { current_file = close_handle b.current_file })

-- openCurrentFile
unfoldable pub open_current_file : M (Unit {0})
open_current_file = do
  id ← gets (λ b. b.current_file_id)
  file ← on_disk (open_append (data_name id))
  size ← on_disk (stat_size file)
  modify (λ b. record b { current_file = some file; current_offset = size })

-- rotateFile
unfoldable pub rotate_file : M (Unit {0})
unfolding close_current open_current_file
rotate_file = do
  close_current
  modify (λ b. record b { current_file_id = (b.current_file_id + 1) % word })
  open_current_file

-- The part of `Put` behind the rotation.
unfoldable pub write_record : Bytes → Bytes → M (Unit {0})
unfolding write_current sync_current
write_record key value = do
  offset ← gets (λ b. b.current_offset)
  wrapping "failed to write key size" (write_current (le32 (length key)))
  wrapping "failed to write value size" (write_current (le32 (length value)))
  wrapping "failed to write key" (write_current key)
  wrapping "failed to write value" (write_current value)
  wrapping "failed to sync file" sync_current
  let record_size = 8 + length key + length value
  modify (λ b. record b {
    key_dir =
        Maps.insert key
          (record { file_id = b.current_file_id; offset = offset; size = record_size }) b.key_dir;
    current_offset = b.current_offset + record_size;
  })

-- Put
unfoldable pub put : Bytes → Bytes → M (Unit {0})
unfolding rotate_file write_record
put key value = do
  full ← gets (λ b. ltb b.max_file_size b.current_offset)
  when full rotate_file
  write_record key value

-- 0xFFFFFFFF
abbrev pub tombstone : ℕ
tombstone = 4294967295

-- The part of `Delete` behind the test that the key is there.
unfoldable pub write_tombstone : Bytes → M (Unit {0})
unfolding write_current sync_current
write_tombstone key = do
  wrapping "failed to write key size" (write_current (le32 (length key)))
  wrapping "failed to write tombstone" (write_current (le32 tombstone))
  wrapping "failed to write key" (write_current key)
  wrapping "failed to sync file" sync_current
  modify (λ b. record b {
    key_dir = Maps.erase key b.key_dir;
    current_offset = b.current_offset + (8 + length key);
  })

-- Delete
unfoldable pub delete : Bytes → M (Unit {0})
unfolding write_tombstone
delete key = do
  found ← gets (λ b. Maps.lookup key b.key_dir)
  elim found [ none ↦ fail key_not_found | some _ ↦ write_tombstone key ]

-- `binary.Read` and `io.ReadFull` as an error, with the rest of the file for the next read.
read_step : {A : Type 0} → String → Read A → (A → Bytes → Result Bytes) → Result Bytes
read_step text (got a rest) next = next a rest
read_step text at_eof next = err (wrap text (new "EOF"))
read_step text cut_short next = err (wrap text unexpected_eof)

-- The reads of `Get` from the record's position on.
unfoldable pub read_value : Bytes → Result Bytes
unfolding read_step
read_value bytes = read_step "failed to read key size" (read_u32 bytes) λ key_size after_key_size.
    read_step "failed to read value size" (read_u32 after_key_size) λ value_size after_sizes.
      read_step "failed to read value" (read_full value_size (drop key_size after_sizes))
        λ value _. ok value

pub read_location : RecordLocation → Disk → Result Bytes
unfolding read_value
read_location location d = elim (open_read (data_name location.file_id) d) [
  | ok node ↦ (elim (bytes_of node) [
    | ok bytes ↦ read_value (drop location.offset bytes)
    | err e ↦ err (wrap "failed to read key size" e)
  ])
  | err e ↦ err (wrap "failed to open data file" e)
]

-- Get, which changes nothing
unfoldable pub get : Bytes → Store → Result Bytes
unfolding read_location
get key s = elim (Maps.lookup key s.bitcask.key_dir) [
  | none ↦ err key_not_found
  | some location ↦ read_location location s.disk
]

close_result : Option Handle → Result (Unit {0})
close_result none = ok tt
close_result (some h) = if h.is_open then ok tt else err (new "file already closed")

-- Close
unfoldable pub close : M (Unit {0})
unfolding close_result close_current
close s = (close_result s.bitcask.current_file, (close_current s).1)
