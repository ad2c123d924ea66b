-- ===== src/Storage/Recovery/Restart.antt =====
-- An engine that is opened again after `Put`s into its first file is the engine that was closed.
use titan_distributed_kv.Common.{
  ℕ, ◌+◌, ◌≤◌, ◌≡◌, ap, ap₂, suc, ◌∙◌, sym, [], ◌∷◌, ◌++◌, append_assoc, append-nil, Bytes, none,
  some, length, bytes_key, same_refl, arith, length-append, le→ltb,
}
use titan_distributed_kv.Common.Maps
use titan_distributed_kv.Common.Maps.{lookup-cons, lookup-nil}
use titan_distributed_kv.Storage.Codec.{encode, le32, length-encode}
use titan_distributed_kv.Storage.Names.{data_name}
use titan_distributed_kv.Storage.Names.Laws.{scan_name-data_name}
use titan_distributed_kv.Storage.Disk.{Disk, Entries, file, ok, content, grow, read_dir, mkdir_all}
use titan_distributed_kv.Storage.Exec.{KeyDir, Bitcask, M, ◌>>◌, pure}
use titan_distributed_kv.Storage.Bitcask.{put, default_max_file_size}
use titan_distributed_kv.Storage.Bitcask.Healthy.{
  healthy, written, placed, write_record-healthy, open_current_file-healthy,
}
use titan_distributed_kv.Storage.Recovery.{new_bitcask, recover_entries, read_data_file}
use titan_distributed_kv.Storage.Recovery.Log.{
  Records, encode_all, replay, AllFit, read_records-encode_all,
}

-- `Put` of each record in turn.
unfoldable pub puts : Records → M (Unit {0})
puts [] = pure tt
puts ((key, value) ∷ rs) = put key value >> puts rs

abbrev pub first_file : Bytes → Entries
first_file bytes = (data_name 0, file bytes) ∷ []

grow-first_file :
    (bytes more : Bytes) → grow (data_name 0) more (first_file bytes) ≡ first_file (bytes ++ more)
unfolding grow content Maps.lookup Maps.insert
grow-first_file bytes more = ground (arith, same_refl (data_name 0))

written-first_file :
    (key value bytes : Bytes)
    → written 0 key value (first_file bytes) ≡ first_file (bytes ++ encode key value)
unfolding written encode
written-first_file key value bytes = rw (grow-first_file bytes (le32 (length key))) (
    rw (grow-first_file (bytes ++ le32 (length key)) (le32 (length value))) (
      rw (grow-first_file ((bytes ++ le32 (length key)) ++ le32 (length value)) key) (
        grow-first_file (((bytes ++ le32 (length key)) ++ le32 (length value)) ++ key) value
        ∙ ap first_file (simp append_assoc))))

put-first_file :
    (kd : KeyDir) (offset limit : ℕ) (key value bytes : Bytes)
    → offset ≤ limit
    → put key value (healthy kd 0 (first_file bytes) offset limit) ≡ (
      ok tt,
      healthy
          (placed 0 key value offset kd)
          0
          (first_file (bytes ++ encode key value))
          (offset + (8 + length key + length value))
          limit,
    )
unfolding put
put-first_file kd offset limit key value bytes room = rw (
  le→ltb limit offset room,
  write_record-healthy kd 0 (first_file bytes) offset limit key value,
  written-first_file key value bytes,
)

puts-first_file :
    (rs : Records) (kd : KeyDir) (offset limit : ℕ) (bytes : Bytes)
    → offset + length (encode_all rs) ≤ limit
    → puts rs (healthy kd 0 (first_file bytes) offset limit) ≡ (
      ok tt,
      healthy
          (replay 0 offset rs kd)
          0
          (first_file (bytes ++ encode_all rs))
          (offset + length (encode_all rs))
          limit,
    )
unfolding puts encode_all replay
puts-first_file [] kd offset limit bytes room =
    ap (λ t. (ok tt, healthy kd 0 (first_file t) offset limit)) (sym (append-nil bytes))
    ∙ ap (λ (o : ℕ). (ok tt, healthy kd 0 (first_file (bytes ++ [])) o limit)) (omega arith)
puts-first_file ((key, value) ∷ rs) kd offset limit bytes room =
    let len : length (encode key value ++ encode_all rs)
        ≡ 8 + length key + length value + length (encode_all rs) =
      omega (arith, length-append (encode key value) (encode_all rs), length-encode key value) in
    let next : ℕ = offset + (8 + length key + length value) in
    let kd' : KeyDir = placed 0 key value offset kd in
    rw (put-first_file kd offset limit key value bytes (omega arith)) (
      puts-first_file rs kd' next limit (bytes ++ encode key value) (omega arith)
      ∙ ap₂ (λ t (o : ℕ). (ok tt, healthy (replay 0 next rs kd') 0 (first_file t) o limit))
          (append_assoc bytes (encode key value) (encode_all rs)) (omega arith))

recover_first_file :
    (rs : Records)
    → AllFit rs
    → recover_entries (first_file (encode_all rs)) 0 [] ≡ ok (replay 0 0 rs [], 0)
unfolding recover_entries read_data_file
recover_first_file rs fits = rw (
  scan_name-data_name 0 (omega arith),
  read_records-encode_all rs (suc (length (encode_all rs))) 0 0 [] fits (omega arith),
)

-- What `recover` leaves for `openCurrentFile`.
abbrev recovered : KeyDir → Bitcask
recovered kd = record {
  key_dir = kd;
  current_file_id = 0;
  current_file = none;
  current_offset = 0;
  max_file_size = default_max_file_size;
}

-- Opening the engine on a first file that holds a log.
new_bitcask-first_file :
    (rs : Records)
    → AllFit rs
    → new_bitcask (record { entries = first_file (encode_all rs); faults = [] }) ≡ (
      ok tt,
      healthy
          (replay 0 0 rs [])
          0
          (first_file (encode_all rs))
          (length (encode_all rs))
          default_max_file_size,
    )
unfolding new_bitcask read_dir mkdir_all
new_bitcask-first_file rs fits =
    let name = data_name 0 in
    rw (
      new_bitcask,
      recover_first_file rs fits,
      open_current_file-healthy (recovered (replay 0 0 rs [])) (first_file (encode_all rs))
          (some (file (encode_all rs))) (rw (lookup-cons, same_refl name)) (λ e. cc),
    )

abbrev pub empty_directory : Disk
empty_directory = record { entries = []; faults = [] }

pub new_bitcask-empty :
    new_bitcask empty_directory ≡ (ok tt, healthy [] 0 (first_file []) 0 default_max_file_size)
unfolding new_bitcask read_dir mkdir_all Maps.insert
new_bitcask-empty = rw (
  new_bitcask,
  open_current_file-healthy (recovered []) [] none (lookup-nil (data_name 0)) (λ e. cc),
)

-- Open an engine on an empty directory, `Put` records that fit the first file, with sizes that fit a
-- uint32, and open an engine on the directory again: this succeeds, and gives the same engine, with
-- the same directory of keys, over the same directory.
pub restart-puts :
    (rs : Records)
    → AllFit rs
    → length (encode_all rs) ≤ default_max_file_size
    → let s = (puts rs (new_bitcask empty_directory).1).1 in new_bitcask s.disk ≡ (ok tt, s)
restart-puts rs fits room =
    rw (new_bitcask-empty, puts-first_file rs [] 0 default_max_file_size [] (omega arith))
      (new_bitcask-first_file rs fits
        ∙ ap
            (λ (o : ℕ). (
              ok tt,
              healthy (replay 0 0 rs []) 0 (first_file (encode_all rs)) o default_max_file_size,
            ))
            (omega arith))
