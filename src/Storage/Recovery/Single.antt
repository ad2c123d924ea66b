-- ===== src/Storage/Recovery/Single.antt =====
-- Opening an engine on a directory with one data file, which holds a log, whatever else is in it.
use titan_distributed_kv.Common.{
  ℕ, suc, ◌<◌, ◌≡◌, ◌≢◌, refl, sym, ap, ap₂, ◌∙◌, inl, inr, [], ◌∷◌, Bytes, none, some, length,
  bytes_key, same_refl, arith, Option-cases, lt→ltb,
}
use titan_distributed_kv.Common.Maps
use titan_distributed_kv.Common.Maps.{NodupKeys, lookup-nil, lookup-cons}
use titan_distributed_kv.Storage.Codec.{word}
use titan_distributed_kv.Storage.Names.{data_name, scan_name}
use titan_distributed_kv.Storage.Names.Laws.{scan_name-data_name}
use titan_distributed_kv.Storage.Disk.{
  Node, file, directory, Entries, ok, sort_entries, read_dir, mkdir_all,
}
use titan_distributed_kv.Storage.Disk.Laws.{lookup-sort_entries}
use titan_distributed_kv.Storage.Disk.Distinct.{sort_entries-NodupKeys}
use titan_distributed_kv.Storage.Exec.{KeyDir, Bitcask}
use titan_distributed_kv.Storage.Bitcask.{default_max_file_size}
use titan_distributed_kv.Storage.Bitcask.Healthy.{healthy, open_current_file-healthy}
use titan_distributed_kv.Storage.Recovery.{new_bitcask, recover_entries, read_data_file}
use titan_distributed_kv.Storage.Recovery.Log.{
  Records, encode_all, replay, AllFit, read_records-encode_all,
}

-- A name with a file that `Sscanf` reads as a data file is one of those that `Q` names.
abbrev Scanned : (Bytes → Type 0) → Entries → Type 0
Scanned Q es =
    (name bytes : Bytes) (i : ℕ)
    → Maps.lookup name es ≡ some (file bytes)
    → scan_name name ≡ some i
    → Q name

Scanned-tail :
    (Q : Bytes → Type 0) (n : Bytes) (v : Node) (es : Entries)
    → Maps.lookup n es ≡ none
    → Scanned Q ((n, v) ∷ es)
    → Scanned Q es
Scanned-tail Q n v es fresh h name bytes i found scanned =
    h name bytes i (ground (arith, lookup-cons name n v es)) scanned

recover_other :
    (n bytes : Bytes) (es : Entries) (highest : ℕ) (kd : KeyDir)
    → scan_name n ≡ none
    → recover_entries ((n, file bytes) ∷ es) highest kd ≡ recover_entries es highest kd
unfolding recover_entries
recover_other n bytes es highest kd e = rw e refl

recover_directory :
    (n : Bytes) (es : Entries) (highest : ℕ) (kd : KeyDir)
    → recover_entries ((n, directory) ∷ es) highest kd ≡ recover_entries es highest kd
unfolding recover_entries
recover_directory n es highest kd = refl

recover_entries-none :
    (es : Entries) (highest : ℕ) (kd : KeyDir)
    → NodupKeys es
    → Scanned (λ n. ⊥) es
    → recover_entries es highest kd ≡ ok (kd, highest)
recover_entries-none [] highest kd u h = unfold recover_entries in refl
recover_entries-none ((n, directory) ∷ es) highest kd (fresh, u) h =
    recover_directory n es highest kd
    ∙ recover_entries-none es highest kd u (Scanned-tail (λ n. ⊥) n directory es fresh h)
recover_entries-none ((n, file bytes) ∷ es) highest kd (fresh, u) h =
    elim (Option-cases (scan_name n)) [
      | inl e ↦
          recover_other n bytes es highest kd e
          ∙ recover_entries-none es highest kd u (Scanned-tail (λ n. ⊥) n (file bytes) es fresh h)
      | inr (i, e) ↦ absurd (h n bytes i (rw (lookup-cons, same_refl n) refl) e)
    ]

module _ (id : ℕ) (fits : id < word) (above : 0 < id) (rs : Records) (small : AllFit rs) where
  -- The data files are the one of the id, if it is there.
  abbrev pub Only : Entries → Type 0
  Only es =
      (name bytes : Bytes) (i : ℕ)
      → Maps.lookup name es ≡ some (file bytes)
      → scan_name name ≡ some i
      → name ≡ data_name id

  recover_data_file :
      (es : Entries)
      → recover_entries ((data_name id, file (encode_all rs)) ∷ es) 0 []
        ≡ recover_entries es id (replay id 0 rs [])
  unfolding recover_entries read_data_file
  recover_data_file es =
      rw
        (
          scan_name-data_name id fits,
          read_records-encode_all rs (suc (length (encode_all rs))) id 0 [] small (omega arith),
          lt→ltb 0 id above,
        )
        refl

  -- An entry in front whose name is another one.
  later :
      (n : Bytes) (v : Node) (es : Entries)
      → Maps.lookup (data_name id) ((n, v) ∷ es) ≡ some (file (encode_all rs))
      → n ≢ data_name id
      → Maps.lookup (data_name id) es ≡ some (file (encode_all rs))
  later n v es e q = ground (arith, lookup-cons (data_name id) n v es)

  recover_single :
      (es : Entries) (n bytes : Bytes)
      → n ≡ data_name id
      → NodupKeys ((n, file bytes) ∷ es)
      → Only ((n, file bytes) ∷ es)
      → Maps.lookup (data_name id) ((n, file bytes) ∷ es) ≡ some (file (encode_all rs))
      → recover_entries ((n, file bytes) ∷ es) 0 [] ≡ ok (replay id 0 rs [], id)
  recover_single es n bytes is (fresh, u) h e =
      let same_bytes : bytes ≡ encode_all rs =
        ground (arith, lookup-cons (data_name id) n (file bytes) es) in
      ap₂ (λ k t. recover_entries ((k, file t) ∷ es) 0 []) is same_bytes
      ∙ recover_data_file es
      ∙ recover_entries-none es id (replay id 0 rs []) u (λ name b i found scanned.
        let p =
          Scanned-tail (λ j. j ≡ data_name id) n (file bytes) es fresh h name b i found scanned in
        ground (arith, ap (λ j. Maps.lookup j es) p, ap (λ j. Maps.lookup j es) is))

  recover_entries-Only :
      (es : Entries)
      → NodupKeys es
      → Only es
      → Maps.lookup (data_name id) es ≡ some (file (encode_all rs))
      → recover_entries es 0 [] ≡ ok (replay id 0 rs [], id)
  recover_entries-Only [] u h e = absurd (ground (arith, lookup-nil {V = Node} (data_name id)))
  recover_entries-Only ((n, directory) ∷ es) (fresh, u) h e =
      recover_directory n es 0 []
      ∙ recover_entries-Only es u (Scanned-tail (λ j. j ≡ data_name id) n directory es fresh h)
          (ground (arith, lookup-cons (data_name id) n directory es))
  recover_entries-Only ((n, file bytes) ∷ es) (fresh, u) h e = elim (Option-cases (scan_name n)) [
    | inl q ↦
        recover_other n bytes es 0 [] q
        ∙ recover_entries-Only es u (Scanned-tail (λ j. j ≡ data_name id) n (file bytes) es fresh h)
            (later n (file bytes) es e
              (λ p. ground (arith, ap scan_name p, scan_name-data_name id fits)))
    | inr (i, q) ↦
        let is : n ≡ data_name id = h n bytes i (rw (lookup-cons, same_refl n) refl) q in
        recover_single es n bytes is (fresh, u) h e
  ]

  -- What `recover` leaves for `openCurrentFile`.
  abbrev recovered : Bitcask
  recovered = record {
    key_dir = replay id 0 rs [];
    current_file_id = id;
    current_file = none;
    current_offset = 0;
    max_file_size = default_max_file_size;
  }

  -- Opening the engine on a directory whose only data file holds a log.
  pub new_bitcask-Only :
      (m : Entries)
      → NodupKeys m
      → Only m
      → Maps.lookup (data_name id) m ≡ some (file (encode_all rs))
      → new_bitcask (record { entries = m; faults = [] })
        ≡ (ok tt, healthy (replay id 0 rs []) id m (length (encode_all rs)) default_max_file_size)
  unfolding new_bitcask read_dir mkdir_all
  new_bitcask-Only m u h e =
      rw
        (
          new_bitcask,
          recover_entries-Only (sort_entries m) (sort_entries-NodupKeys m u)
              (λ name bytes i found scanned.
                h name bytes i (sym (lookup-sort_entries name m) ∙ found) scanned)
              (lookup-sort_entries (data_name id) m ∙ e),
          open_current_file-healthy recovered m (some (file (encode_all rs))) e (λ q. cc),
        )
        refl
