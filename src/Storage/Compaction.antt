-- ===== src/Storage/Compaction.antt =====
-- The compactor of storage/compaction.go.
pub mod Reading
pub mod Copy
pub mod Remove
pub mod Merging
pub mod Refinement
pub mod Restart
use titan_distributed_kv.Common.{
  ℕ, ◌+◌, ◌-◌, ◌%◌, ◌≡◌, List, [], ◌∷◌, ◌++◌, Bytes, Bool, true, false, Option, none, some, String,
  length, take, drop, zero, suc, if◌then◌else◌, ltb, leb, ◌==◌, bytes_key, not,
}
use titan_distributed_kv.Common.Maps
use titan_distributed_kv.Storage.Codec.{word}
use titan_distributed_kv.Storage.Names.{data_name, scan_name}
use titan_distributed_kv.Storage.Disk.{
  Disk, Node, file, directory, Entries, Handle, Error, new, wrap, Result, ok, err, append, sync,
  create, remove, read_dir, open_read, content,
}
use titan_distributed_kv.Storage.Exec.{
  RecordLocation, KeyDir, Bitcask, Store, M, ◌>>=◌, ◌>>◌, pure, fail, gets, modify, on_disk,
  wrapping, when, ignoring,
}
use titan_distributed_kv.Storage.Bitcask.{close_current, open_current_file}

-- An entry that is a data file, with its id: `!entry.IsDir()` and a name that `Sscanf` reads.
unfoldable pub data_id : Bytes × Node → Option ℕ
data_id (name, directory) = none
data_id (name, file _) = scan_name name

max_of : Option ℕ → ℕ → ℕ
max_of none highest = highest
max_of (some id) highest = if ltb highest id then id else highest

-- The highest file ID of the entries, from `highest` on.
unfoldable pub max_file_id : Entries → ℕ → ℕ
unfolding max_of data_id
max_file_id [] highest = highest
max_file_id (entry ∷ entries) highest = max_file_id entries (max_of (data_id entry) highest)

zeros : ℕ → Bytes
zeros zero = []
zeros (suc n) = 0 ∷ zeros n

-- `oldFile.Read(record)` with `len(record) == size`: at the end of the file it fails, and a file that
-- ends early leaves zeros in the rest of the buffer.
unfoldable pub read_some : ℕ → Bytes → Option Bytes
unfolding zeros
read_some zero bytes = some []
read_some (suc n) [] = none
read_some (suc n) (b ∷ bytes) =
    some (take (suc n) (b ∷ bytes) ++ zeros (suc n - length (b ∷ bytes)))

record_at : ℕ → ℕ → Result Node → Option Bytes
unfolding read_some
record_at offset size (err e) = none
record_at offset size (ok (file bytes)) = read_some size (drop offset bytes)
record_at offset zero (ok directory) = some []
record_at offset (suc size) (ok directory) = none

-- The bytes of the record at a location; `none` where the loop of `Compact` skips the key.
unfoldable pub read_record : RecordLocation → Disk → Option Bytes
unfolding record_at
read_record location d =
    record_at location.offset location.size (open_read (data_name location.file_id) d)

-- What the copying loop changes: `newKeyDir` and `newOffset`.
pub record Merge : Type 0 where
  pub new_key_dir : KeyDir
  pub new_offset : ℕ

module _ (merged_id : ℕ) where
  -- The loop that deletes the old data files; a failing `os.Remove` is only reported.
  remove_if_old : Bytes → Option ℕ → M (Unit {0})
  remove_if_old name none = pure tt
  remove_if_old name (some id) =
      if leb merged_id id then pure tt else ignoring (on_disk (remove name))

  unfoldable pub remove_old : Entries → M (Unit {0})
  unfolding remove_if_old data_id
  remove_old [] = pure tt
  remove_old ((name, node) ∷ rest) = remove_if_old name (data_id (name, node)) >> remove_old rest

module _ (merged_id : ℕ) (merged_file : Handle) where
  -- One round of the loop, for a key whose record was read.
  unfoldable pub copy_record : Bytes → RecordLocation → Merge → Option Bytes → M Merge
  copy_record key location st none = pure st
  copy_record key location st (some record_bytes) = do
    wrapping "failed to write to merged file" (on_disk (append merged_file record_bytes))
    pure (record {
      new_key_dir =
          Maps.insert key
            (record { file_id = merged_id; offset = st.new_offset; size = location.size })
            st.new_key_dir;
      new_offset = st.new_offset + location.size;
    })

  unfoldable pub copy_records : KeyDir → Merge → M Merge
  unfolding copy_record
  copy_records [] st = pure st
  copy_records ((key, location) ∷ rest) st =
      (λ s. copy_record key location st (read_record location s.disk) s) >>= copy_records rest

  -- What `Compact` does once the merged file is there.
  unfoldable pub merge_into : KeyDir → Entries → M (Unit {0})
  unfolding copy_records remove_old close_current open_current_file
  merge_into keys entries = do
    st ← copy_records keys (record { new_key_dir = []; new_offset = 0 })
    wrapping "failed to sync merged file" (on_disk (sync merged_file))
    id ← gets (λ b. b.current_file_id)
    when (not (id == merged_id)) close_current
    remove_old merged_id entries
    modify (λ b. record b {
      key_dir = st.new_key_dir;
      current_file_id = merged_id;
      current_offset = st.new_offset;
    })
    wrapping "failed to reopen merged file" open_current_file

-- `for key, location := range m` visits the entries of a map in some order: a parameter.
module _ (range : KeyDir → KeyDir) where
  unfoldable pub compact_files : M (Unit {0})
  unfolding merge_into max_file_id
  compact_files = do
    entries ← wrapping "failed to read data directory" (on_disk read_dir)
    let max = max_file_id entries 0
    if max == 0 then pure tt else do
      let merged_id = (max + 1) % word
      merged_file ← wrapping "failed to create merged file" (on_disk (create (data_name merged_id)))
      keys ← gets (λ b. b.key_dir)
      merge_into merged_id merged_file (range keys) entries

  -- Compact. `active` is the compactor's own flag, which the deferred function resets.
  unfoldable pub compact : Bool → Store → Result (Unit {0}) × (Bool × Store)
  unfolding compact_files
  compact true s = (err (new "compaction already in progress"), (true, s))
  compact false s = let (r, s') = compact_files s in (r, (false, s'))
