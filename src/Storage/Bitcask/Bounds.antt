-- ===== src/Storage/Bitcask/Bounds.antt =====
-- How large the current file of storage/bitcask.go grows.
use titan_distributed_kv.Common.{
  ℕ, ◌+◌, ◌%◌, ◌≤◌, ◌≡◌, subst, inl, inr, Bytes, bytes_key, none, length, ltb, arith, Bool-cases,
}
use titan_distributed_kv.Common.Maps
use titan_distributed_kv.Storage.Codec.{word}
use titan_distributed_kv.Storage.Names.{data_name}
use titan_distributed_kv.Storage.Disk.{Entries}
use titan_distributed_kv.Storage.Exec.{KeyDir, Store}
use titan_distributed_kv.Storage.Bitcask.{put}
use titan_distributed_kv.Storage.Bitcask.Healthy.{
  healthy, rotate_file-healthy, write_record-healthy, opened_entries,
}
use titan_distributed_kv.Storage.Bitcask.Steps.{IsValid, IsValid-as_healthy}

put_bounds_healthy :
    (kd : KeyDir) (id : ℕ) (m : Entries) (offset limit : ℕ) (key value : Bytes)
    → Maps.lookup (data_name ((id + 1) % word)) m ≡ none
    → (put key value (healthy kd id m offset limit)).1.bitcask.current_offset
      ≤ limit + (8 + length key + length value)
unfolding put
put_bounds_healthy kd id m offset limit key value free = elim (Bool-cases (ltb limit offset)) [
  | inl full ↦
      rw
        (
          full,
          rotate_file-healthy kd id m offset limit none free (λ e. cc),
          write_record-healthy kd ((id + 1) % word)
              (opened_entries (data_name ((id + 1) % word)) m none) 0 limit key value,
        )
        (omega arith)
  | inr room ↦ rw (room, write_record-healthy kd id m offset limit key value) (ground arith)
]

-- After a `Put` on a valid engine with no faults ahead and no file of the next id in its directory, the
-- current file is at most the record longer than `maxFileSize`, whether the file was rotated or not.
pub put_bounds :
    (s : Store) (key value : Bytes)
    → IsValid s
    → Maps.lookup (data_name ((s.bitcask.current_file_id + 1) % word)) s.disk.entries ≡ none
    → (put key value s).1.bitcask.current_offset
      ≤ s.bitcask.max_file_size + (8 + length key + length value)
put_bounds s key value v free =
    subst
      (λ (t : Store).
        (put key value t).1.bitcask.current_offset
        ≤ s.bitcask.max_file_size + (8 + length key + length value))
      (IsValid-as_healthy s v)
      (put_bounds_healthy s.bitcask.key_dir s.bitcask.current_file_id s.disk.entries
        s.bitcask.current_offset s.bitcask.max_file_size key value free)
