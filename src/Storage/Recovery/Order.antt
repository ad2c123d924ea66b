-- ===== src/Storage/Recovery/Order.antt =====
-- `recover` reads the files in the order of their names, which is not that of their ids.
use titan_distributed_kv.Common.{
  ℕ, suc, ◌+◌, ◌<◌, ◌≡◌, ◌≢◌, refl, ap, ap₂, ◌∙◌, sym, inl, inr, [], ◌∷◌, ◌++◌, append_assoc, Bytes,
  true, false, Option, none, some, length, length-append, bytes_key, arith, same, same_refl,
  same_ne, if◌then◌else◌, Option-cases,
}
use titan_distributed_kv.Common.Maps
use titan_distributed_kv.Common.Maps.{lookup-cons, lookup-nil, lookup-insert}
use titan_distributed_kv.Storage.Codec.{word, encode, length-encode}
use titan_distributed_kv.Storage.Names.{data_name, name_lt}
use titan_distributed_kv.Storage.Names.Laws.{scan_name-data_name, data_name_inj}
use titan_distributed_kv.Storage.Disk.{
  Entries, file, ok, sort_entries, read_dir, mkdir_all, content,
}
use titan_distributed_kv.Storage.Exec.{KeyDir, RecordLocation, Store}
use titan_distributed_kv.Storage.Bitcask.{get, default_max_file_size}
use titan_distributed_kv.Storage.Bitcask.Healthy.{healthy, placed, open_current_file-healthy}
use titan_distributed_kv.Storage.Bitcask.Invariant.{Located}
use titan_distributed_kv.Storage.Bitcask.Writes.{get-Located}
use titan_distributed_kv.Storage.Recovery.{new_bitcask, recover_entries, read_data_file}
use titan_distributed_kv.Storage.Recovery.Log.{
  Records, AllFit, encode_all, replay, read_records-encode_all,
}

-- The value of the last record of a key
unfoldable pub last_value : Bytes → Records → Option Bytes
last_value key [] = none
last_value key ((k, value) ∷ rs) = elim (last_value key rs) [
  | some later ↦ some later
  | none ↦ if same k key then some value else none
]

-- Two data files, each with a log
abbrev pub two_files : ℕ → ℕ → Records → Records → Entries
two_files i j olds news =
    (data_name i, file (encode_all olds)) ∷ (data_name j, file (encode_all news)) ∷ []

-- A log leaves alone the location of a key that it has no record of.
replay-other :
    (id offset : ℕ) (key : Bytes) (rs : Records) (kd : KeyDir)
    → last_value key rs ≡ none
    → Maps.lookup key (replay id offset rs kd) ≡ Maps.lookup key kd
unfolding replay last_value
replay-other id offset key [] kd e = refl
replay-other id offset key ((k, v) ∷ rs) kd e = elim (Option-cases (last_value key rs)) [
  | inl q ↦
      replay-other id (offset + (8 + length k + length v)) key rs (placed id k v offset kd) q
      ∙ (let apart : same k key ≡ false = ground arith in rw (lookup-insert, apart) refl)
  | inr (later, q) ↦ absurd (ground arith)
]

-- The place of the last record of a key in a file.
record Placed (id : ℕ) (m : Entries) (kd : KeyDir) (key value : Bytes) : Type 0 where
  loc : RecordLocation
  found : Maps.lookup key kd ≡ some loc
  located : Located m loc key value

replay-Placed :
    (id offset : ℕ) (m : Entries) (before : Bytes) (key value : Bytes) (rs : Records) (kd : KeyDir)
    → id < word
    → AllFit rs
    → content (data_name id) m ≡ some (before ++ encode_all rs)
    → length before ≡ offset
    → last_value key rs ≡ some value
    → Placed id m (replay id offset rs kd) key value
unfolding replay last_value encode_all
replay-Placed id offset m before key value [] kd fits all bytes at e = absurd (cc e)
replay-Placed id offset m before key value ((k, v) ∷ rs) kd fits (one, all) bytes at e =
    elim (Option-cases (last_value key rs)) [
      | inr (later, q) ↦
          replay-Placed id (offset + (8 + length k + length v)) m (before ++ encode k v) key value
            rs (placed id k v offset kd) fits all
            (bytes ∙ ap some (sym (append_assoc before (encode k v) (encode_all rs))))
            (omega (arith, at, length-append before (encode k v), length-encode k v)) (ground arith)
      | inl q ↦
          let is : k ≡ key = ground (arith, same_ne k key) in
          let here : v ≡ value = ground arith in
          record {
            loc = record { file_id = id; offset = offset; size = 8 + length k + length v };
            found =
                replay-other id (offset + (8 + length k + length v)) key rs
                  (placed id k v offset kd) q
                ∙ (rw (lookup-insert, is, same_refl key) refl);
            located = record {
              before = before;
              after = encode_all rs;
              bytes = bytes ∙ ap₂ (λ a b. some (before ++ (encode a b ++ encode_all rs))) is here;
              offset = at;
              size = ap₂ (λ (a b : Bytes). 8 + length a + length b) is here;
              key_fits = omega (arith, ap (λ (x : Bytes). length x) is);
              value_fits = omega (arith, ap (λ (x : Bytes). length x) here);
              id_fits = fits;
            };
          }
    ]

module _ (i j : ℕ) (olds news : Records) (before : i < j) (j_fits : j < word)
    (names : name_lt (data_name j) (data_name i) ≡ true) (olds_fit : AllFit olds)
    (news_fit : AllFit news) where
  sorted_files :
      sort_entries (two_files i j olds news)
      ≡ (data_name j, file (encode_all news)) ∷ (data_name i, file (encode_all olds)) ∷ []
  unfolding sort_entries
  sorted_files = rw names

  read_log :
      (id : ℕ) (rs : Records) (kd : KeyDir)
      → AllFit rs
      → read_data_file id (encode_all rs) kd ≡ ok (replay id 0 rs kd)
  unfolding read_data_file
  read_log id rs kd fit =
      read_records-encode_all rs (suc (length (encode_all rs))) id 0 kd fit (omega arith)

  abbrev stale : KeyDir
  stale = replay i 0 olds (replay j 0 news [])

  recovered_files : recover_entries (sort_entries (two_files i j olds news)) 0 [] ≡ ok (stale, j)
  unfolding recover_entries
  recovered_files =
      rw
        (
          sorted_files,
          recover_entries,
          scan_name-data_name j j_fits,
          read_log j news [] news_fit,
          scan_name-data_name i (omega arith),
          read_log i olds (replay j 0 news []) olds_fit,
        )
        (ground arith)

  names-ne : data_name i ≢ data_name j
  names-ne e = omega (arith, data_name_inj i j (omega arith) j_fits e)

  lookup-new : Maps.lookup (data_name j) (two_files i j olds news) ≡ some (file (encode_all news))
  lookup-new = ground (
    arith,
    lookup-cons (data_name j) (data_name i) (file (encode_all olds))
        ((data_name j, file (encode_all news)) ∷ []),
    lookup-cons (data_name j) (data_name j) (file (encode_all news)) [],
    names-ne,
  )

  abbrev reopened : Store
  reopened =
      healthy stale j (two_files i j olds news) (length (encode_all news)) default_max_file_size

  new_bitcask-two_files :
      new_bitcask (record { entries = two_files i j olds news; faults = [] }) ≡ (ok tt, reopened)
  unfolding new_bitcask read_dir mkdir_all
  new_bitcask-two_files = rw (
    new_bitcask,
    recovered_files,
    open_current_file-healthy
        (record {
          key_dir = stale;
          current_file_id = j;
          current_file = none;
          current_offset = 0;
          max_file_size = default_max_file_size;
        })
        (two_files i j olds news) (some (file (encode_all news))) lookup-new (λ e. cc),
  )

  old_bytes : content (data_name i) (two_files i j olds news) ≡ some (encode_all olds)
  unfolding content
  old_bytes = rw (lookup-cons, same_refl (data_name i)) refl

  -- A directory without faults ahead has exactly two data files and nothing else. Each holds the
  -- records of any Puts, without tombstones, with sizes that fit a uint32; the name of the one of the
  -- higher id, a uint32, sorts first, as data-10.log does before data-9.log. Opening an engine on it
  -- succeeds and makes the file of the higher id current; and `Get` of every key with a record in the
  -- file of the lower id gives its last value there, whatever the newer file holds for the key.
  pub restart_out_of_order :
      (key old : Bytes)
      → last_value key olds ≡ some old
      → let r = new_bitcask (record { entries = two_files i j olds news; faults = [] }) in
        (r.0 ≡ ok tt) × (r.1.bitcask.current_file_id ≡ j) × (get key r.1 ≡ ok old)
  restart_out_of_order key old last =
      let p =
        replay-Placed i 0 (two_files i j olds news) [] key old olds (replay j 0 news [])
          (omega arith) olds_fit old_bytes refl last in
      rw new_bitcask-two_files (
        refl,
        refl,
        get-Located stale j (two_files i j olds news) (length (encode_all news))
            default_max_file_size key old p.loc p.found p.located,
      )
