-- ===== src/Storage/Compaction/Remove.antt =====
-- The ids of the listed files, and the loop of `Compact` that deletes the old ones.
use titan_distributed_kv.Common.{
  ℕ, ◌<◌, ◌≤◌, ◌≡◌, ◌≢◌, ◌⊎◌, inl, inr, refl, sym, subst, ap, ◌∙◌, [], ◌∷◌, Bytes, Option, none,
  some, if◌then◌else◌, leb, bytes_key, same, same_refl, arith, Option-cases, Bool-cases,
}
use titan_distributed_kv.Common.Maps
use titan_distributed_kv.Common.Maps.{
  NodupKeys, lookup-nil, lookup-cons, lookup-erase, erase-NodupKeys,
}
use titan_distributed_kv.Storage.Codec.{word}
use titan_distributed_kv.Storage.Names.{data_name, scan_name}
use titan_distributed_kv.Storage.Names.Laws.{scan_name-data_name}
use titan_distributed_kv.Storage.Disk.{Entries, Node, file, directory, ok, remove}
use titan_distributed_kv.Storage.Exec.{Bitcask}
use titan_distributed_kv.Storage.Compaction.{
  data_id, max_of, max_file_id, remove_if_old, remove_old,
}
use titan_distributed_kv.Storage.Compaction.Copy.{with_entries}

le-max_of : (o : Option ℕ) (h : ℕ) → h ≤ max_of o h
unfolding max_of
le-max_of none h = omega arith
le-max_of (some id) h = ground arith

le-max_file_id_start : (es : Entries) (h : ℕ) → h ≤ max_file_id es h
unfolding max_file_id
le-max_file_id_start [] h = omega arith
le-max_file_id_start (e ∷ es) h =
    omega (arith, le-max_file_id_start es (max_of (data_id e) h), le-max_of (data_id e) h)

max_of-some : (id h : ℕ) → id ≤ max_of (some id) h
unfolding max_of
max_of-some id h = ground arith

-- No listed data file has an id above the maximum.
pub le-max_file_id :
    (es : Entries) (h : ℕ) (name : Bytes) (node : Node) (id : ℕ)
    → Maps.lookup name es ≡ some node
    → data_id (name, node) ≡ some id
    → id ≤ max_file_id es h
unfolding max_file_id
le-max_file_id [] h name node id found scanned = absurd (ground (arith, lookup-nil {V = Node} name))
le-max_file_id ((n, w) ∷ es) h name node id found scanned = elim (bytes_key.dec n name) [
  | yes p ↦
      let head : data_id (n, w) ≡ some id = ground (arith, lookup-cons name n w es) in
      rw head (omega (arith, le-max_file_id_start es (max_of (some id) h), max_of-some id h))
  | no q ↦ le-max_file_id es _ name node id (ground (arith, lookup-cons name n w es)) scanned
]

module _ (merged_id : ℕ) where
  -- What a run of the loop over `es` has done to the entries.
  pub record Removed (es m m' : Entries) : Type 0 where
    pub kept : Maps.lookup (data_name merged_id) m' ≡ Maps.lookup (data_name merged_id) m
    pub subset : (j : Bytes) → (Maps.lookup j m' ≡ Maps.lookup j m) ⊎ (Maps.lookup j m' ≡ none)
    pub gone :
        (j : Bytes) (node : Node) (id : ℕ)
        → Maps.lookup j es ≡ some node
        → data_id (j, node) ≡ some id
        → id < merged_id
        → Maps.lookup j m' ≡ none
    pub nodup : NodupKeys m → NodupKeys m'

  module _ (id_fits : merged_id < word) (b : Bitcask) where
    -- One name: `m'` is what `os.Remove` leaves of `m`.
    erased : (name : Bytes) (m : Entries) → Entries
    erased name m = elim (Maps.lookup name m) [ none ↦ m | some _ ↦ Maps.erase name m ]

    lookup-erased :
        (j name : Bytes) (m : Entries)
        → Maps.lookup j (erased name m) ≡ (if same name j then none else Maps.lookup j m)
    unfolding erased
    lookup-erased j name m = ground (arith, lookup-erase j name m)

    erased-NodupKeys : (name : Bytes) (m : Entries) → NodupKeys m → NodupKeys (erased name m)
    unfolding erased
    erased-NodupKeys name m h = elim (Option-cases (Maps.lookup name m)) [
      | inl e ↦
          let same_entries : erased name m ≡ m = ground arith in
          subst NodupKeys (sym same_entries) h
      | inr (node, e) ↦
          let one_less : erased name m ≡ Maps.erase name m = ground arith in
          subst NodupKeys (sym one_less) (erase-NodupKeys name m h)
    ]

    remove_if_old-new :
        (name : Bytes) (id : ℕ) (m : Entries)
        → merged_id ≤ id
        → remove_if_old merged_id name (some id) (with_entries b m) ≡ (ok tt, with_entries b m)
    unfolding remove_if_old
    remove_if_old-new name id m h = ground arith

    remove_if_old-old :
        (name : Bytes) (id : ℕ) (m : Entries)
        → id < merged_id
        → remove_if_old merged_id name (some id) (with_entries b m)
          ≡ (ok tt, with_entries b (erased name m))
    unfolding remove_if_old remove erased
    remove_if_old-old name id m h = ground arith

    data_id-scan_name :
        (name : Bytes) (node : Node) (id : ℕ)
        → data_id (name, node) ≡ some id
        → scan_name name ≡ some id
    unfolding data_id
    data_id-scan_name name (file _) id h = h
    data_id-scan_name name directory id h = absurd (cc)

    -- What one round over `name` has done.
    record Step (name : Bytes) (node : Node) (m m' : Entries) : Type 0 where
      run :
          remove_if_old merged_id name (data_id (name, node)) (with_entries b m)
          ≡ (ok tt, with_entries b m')
      kept : Maps.lookup (data_name merged_id) m' ≡ Maps.lookup (data_name merged_id) m
      subset : (j : Bytes) → (Maps.lookup j m' ≡ Maps.lookup j m) ⊎ (Maps.lookup j m' ≡ none)
      gone : (id : ℕ) → data_id (name, node) ≡ some id → id < merged_id → Maps.lookup name m' ≡ none
      nodup : NodupKeys m → NodupKeys m'

    Step-none :
        (name : Bytes) (node : Node) (m : Entries)
        → data_id (name, node) ≡ none
        → Step name node m m
    Step-none name node m e = record {
      run = rw e (unfold remove_if_old in refl);
      kept = refl;
      subset = λ j. inl refl;
      gone = λ id e' h. absurd (cc);
      nodup = λ h. h;
    }

    Step-new :
        (name : Bytes) (node : Node) (m : Entries) (id : ℕ)
        → data_id (name, node) ≡ some id
        → merged_id ≤ id
        → Step name node m m
    Step-new name node m id e le = record {
      run = rw e (remove_if_old-new name id m le);
      kept = refl;
      subset = λ j. inl refl;
      gone = λ id' e' h. absurd (ground arith);
      nodup = λ h. h;
    }

    old_name-ne :
        (name : Bytes) (node : Node) (id : ℕ)
        → data_id (name, node) ≡ some id
        → id < merged_id
        → name ≢ data_name merged_id
    old_name-ne name node id e h p = ground (
      arith,
      data_id-scan_name name node id e,
      ap scan_name p,
      scan_name-data_name merged_id id_fits,
    )

    Step-old :
        (name : Bytes) (node : Node) (m : Entries) (id : ℕ)
        → data_id (name, node) ≡ some id
        → id < merged_id
        → Step name node m (erased name m)
    Step-old name node m id e lt = record {
      run = rw e (remove_if_old-old name id m lt);
      kept =
          ground (arith, lookup-erased (data_name merged_id) name m, old_name-ne name node id e lt);
      subset = λ j. ground (arith, lookup-erased j name m);
      gone = λ id' e' h. rw (lookup-erased name name m, same_refl name);
      nodup = erased-NodupKeys name m;
    }

    step : (name : Bytes) (node : Node) (m : Entries) → (m' : Entries) × Step name node m m'
    step name node m = elim (Option-cases (data_id (name, node))) [
      | inl e ↦ (m, Step-none name node m e)
      | inr (id, e) ↦ (elim (Bool-cases (leb merged_id id)) [
        | inl new ↦ (m, Step-new name node m id e (ground arith))
        | inr old ↦ (erased name m, Step-old name node m id e (ground arith))
      ])
    ]

    Removed-cons :
        (name : Bytes) (node : Node) (es m m' m'' : Entries)
        → Step name node m m'
        → Removed es m' m''
        → Removed ((name, node) ∷ es) m m''
    Removed-cons name node es m m' m'' s r = record {
      kept = r.kept ∙ s.kept;
      subset = λ j. ground (arith, s.subset j, r.subset j);
      gone = λ j node' id found e lt. elim (bytes_key.dec name j) [
        | yes p ↦ ground (arith, lookup-cons j name node es, s.gone id, r.subset j)
        | no q ↦ r.gone j node' id (ground (arith, lookup-cons j name node es)) e lt
      ];
      nodup = λ h. r.nodup (s.nodup h);
    }

    pub remove_old-lem :
        (es m : Entries)
        → (m' : Entries) × (remove_old merged_id es (with_entries b m) ≡ (ok tt, with_entries b m'))
          × Removed es m m'
    unfolding remove_old
    remove_old-lem [] m = (
      m,
      refl,
      record {
        kept = refl;
        subset = λ j. inl refl;
        gone = λ j node id found. absurd (ground (arith, lookup-nil {V = Node} j));
        nodup = λ h. h;
      },
    )
    remove_old-lem ((name, node) ∷ es) m =
        let (m', s) = step name node m in
        let (m'', run, r) = remove_old-lem es m' in
        (m'', rw s.run run, Removed-cons name node es m m' m'' s r)
