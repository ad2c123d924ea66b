-- ===== src/Storage/Compaction/Merging.antt =====
-- What the loops of `Compact` leave: the merged file with every key, and the new directory of keys.
use mathlib.Core.Path.{subst}
use mathlib.Core.Option.{some-injective}
use titan_distributed_kv.Common.{
  ℕ, ◌<◌, ◌≡◌, ◌≢◌, refl, ap, ◌∙◌, sym, inl, inr, [], Bytes, false, none, some, ◌==◌, bytes_key,
  same_refl, arith, Option-cases, Bool-cases,
}
use titan_distributed_kv.Common.Maps
use titan_distributed_kv.Common.Maps.{NodupKeys, lookup-nil, lookup-insert}
use titan_distributed_kv.Storage.Codec.{word}
use titan_distributed_kv.Storage.Names.{data_name, scan_name}
use titan_distributed_kv.Storage.Names.Laws.{scan_name-data_name}
use titan_distributed_kv.Storage.Disk.{
  Entries, Node, file, directory, ok, content, sort_entries, sync,
}
use titan_distributed_kv.Storage.Disk.Laws.{lookup-sort_entries, content-insert, lookup-content}
use titan_distributed_kv.Storage.Disk.Extends.{insert_new-Extends}
use titan_distributed_kv.Storage.Exec.{RecordLocation, KeyDir, Bitcask}
use titan_distributed_kv.Storage.Bitcask.{get, open_current_file}
use titan_distributed_kv.Storage.Bitcask.Healthy.{healthy, open_current_file-healthy}
use titan_distributed_kv.Storage.Bitcask.Invariant.{Located, Sound, Extends, Located-Extends}
use titan_distributed_kv.Storage.Bitcask.Writes.{get-Located}
use titan_distributed_kv.Storage.Compaction.{Merge, data_id, max_file_id, merge_into}
use titan_distributed_kv.Storage.Compaction.Copy.{
  with_entries, merged_handle, EndsAt, Copied, copy_records-lem,
}
use titan_distributed_kv.Storage.Compaction.Remove.{le-max_file_id, Removed, remove_old-lem}

-- A file that the listing does not have: its id is above every listed one.
pub fresh_name :
    (m : Entries)
    → ((i : ℕ) → Maps.lookup (data_name i) m ≢ some directory)
    → (id : ℕ) → id < word
    → max_file_id (sort_entries m) 0 < id
    → Maps.lookup (data_name id) m ≡ none
fresh_name m plain id fits above = elim (Option-cases (Maps.lookup (data_name id) m)) [
  | inl e ↦ e
  | inr (node, e) ↦ absurd (listed node e)
]
  where
    listed : (node : Node) → Maps.lookup (data_name id) m ≡ some node → ⊥
    listed directory e = plain id e
    listed (file bytes) e = omega (
      arith,
      le-max_file_id (sort_entries m) 0 (data_name id) (file bytes) id
          (lookup-sort_entries (data_name id) m ∙ e)
          (unfold data_id in scan_name-data_name id fits),
    )

module _ (kd keys : KeyDir) (id : ℕ) (m : Entries) (offset limit : ℕ) (sound : Sound kd id m offset)
    (distinct : NodupKeys keys) (visits : (j : Bytes) → Maps.lookup j keys ≡ Maps.lookup j kd)
    (merged_id : ℕ) (fits : merged_id < word)
    (above : max_file_id (sort_entries m) 0 < merged_id) where
  abbrev pub merged_entries : Entries
  merged_entries = Maps.insert (data_name merged_id) (file []) m

  created-Extends : Extends m merged_entries
  created-Extends =
      insert_new-Extends (data_name merged_id) m (fresh_name m sound.plain merged_id fits above)

  abbrev pub old_bitcask : Bitcask
  old_bitcask = (healthy kd id m offset limit).bitcask

  created-EndsAt : EndsAt merged_id merged_entries 0
  created-EndsAt = ([], rw (content-insert, same_refl (data_name merged_id)), refl)

  -- The state when the loops have run.
  pub record Merged (st : Merge) (m' m'' : Entries) : Type 0 where
    pub copied :
        Copied merged_id keys (record { new_key_dir = []; new_offset = 0 }) merged_entries st m'
    pub removed : Removed merged_id (sort_entries m) m' m''

  module _ {st : Merge} {m' m'' : Entries} (h : Merged st m' m'') where
    pub content-kept : content (data_name merged_id) m'' ≡ content (data_name merged_id) m'
    unfolding content
    content-kept = ground (arith, h.removed.kept)

    Located-kept :
        (loc : RecordLocation) (j v : Bytes)
        → loc.file_id ≡ merged_id
        → Located m' loc j v
        → Located m'' loc j v
    Located-kept loc j v e l = record {
      before = l.before;
      after = l.after;
      bytes =
          ap (λ (i : ℕ). content (data_name i) m'') e
          ∙ content-kept
          ∙ ap (λ (i : ℕ). content (data_name i) m') (sym e)
          ∙ l.bytes;
      offset = l.offset;
      size = l.size;
      key_fits = l.key_fits;
      value_fits = l.value_fits;
      id_fits = l.id_fits;
    }

    -- A key that the old directory has is in the new one, with its value.
    found-merged :
        (j v : Bytes) (loc : RecordLocation)
        → Maps.lookup j kd ≡ some loc
        → Located m loc j v
        → (loc' : RecordLocation) × (Maps.lookup j st.new_key_dir ≡ some loc')
          × Located m'' loc' j v
    found-merged j v loc found l =
        let (loc', e, i, l') =
          h.copied.present j loc v (visits j ∙ found)
            (Located-Extends m merged_entries created-Extends l) in
        (loc', e, Located-kept loc' j v i l')

    absent-merged : (j : Bytes) → Maps.lookup j kd ≡ none → Maps.lookup j st.new_key_dir ≡ none
    absent-merged j gone = h.copied.absent j (visits j ∙ gone) ∙ lookup-nil j

    Located-merged :
        (j : Bytes) (loc : RecordLocation)
        → Maps.lookup j st.new_key_dir ≡ some loc
        → (v : Bytes) × Located m'' loc j v
    Located-merged j loc found = elim (Option-cases (Maps.lookup j kd)) [
      | inl gone ↦ absurd (ground (arith, absent-merged j gone))
      | inr (old, e) ↦
          let (v, l) = sound.located j old e in
          let (loc', e', l') = found-merged j v old e l in
          (v, subst (λ t. Located m'' t j v) (some-injective _ _ (sym e' ∙ found)) l')
    ]

    merged_name_plain : Maps.lookup (data_name merged_id) m'' ≢ some directory
    unfolding content
    merged_name_plain e = ground (arith, content-kept, h.copied.ends.1)

    plain-merged : (i : ℕ) → Maps.lookup (data_name i) m'' ≢ some directory
    plain-merged i e = elim (bytes_key.dec (data_name merged_id) (data_name i)) [
      | yes p ↦ merged_name_plain (ap (λ n. Maps.lookup n m'') p ∙ e)
      | no q ↦ ground (
        arith,
        h.removed.subset (data_name i),
        h.copied.others (data_name i) q,
        lookup-insert (data_name i) (data_name merged_id) (file []) m,
        sound.plain i,
      )
    ]

    pub merged-Sound : Sound st.new_key_dir merged_id m'' st.new_offset
    merged-Sound = record {
      distinct = h.copied.distinct;
      located = Located-merged;
      current = (h.copied.ends.0, content-kept ∙ h.copied.ends.1, h.copied.ends.2);
      id_fits = fits;
      plain = plain-merged;
    }

    pub merged-view :
        (j : Bytes)
        → get j (healthy st.new_key_dir merged_id m'' st.new_offset limit)
          ≡ get j (healthy kd id m offset limit)
    merged-view j = elim (Option-cases (Maps.lookup j kd)) [
      | inl gone ↦ unfold get in rw (get, absent-merged j gone, gone)
      | inr (loc, e) ↦
          let (v, l) = sound.located j loc e in
          let (loc', e', l') = found-merged j v loc e l in
          get-Located st.new_key_dir merged_id m'' st.new_offset limit j v loc' e' l'
          ∙ sym (get-Located kd id m offset limit j v loc e l)
    ]

    -- What is left of the data files is the merged one.
    pub only-merged :
        (j bytes : Bytes) (i : ℕ)
        → Maps.lookup j m'' ≡ some (file bytes)
        → scan_name j ≡ some i
        → j ≡ data_name merged_id
    only-merged j bytes i found scanned = elim (bytes_key.dec (data_name merged_id) j) [
      | yes p ↦ sym p
      | no q ↦
          let before : Maps.lookup j m ≡ some (file bytes) = ground (
            arith,
            h.removed.subset j,
            h.copied.others j q,
            lookup-insert j (data_name merged_id) (file []) m,
          ) in
          let listed : Maps.lookup j (sort_entries m) ≡ some (file bytes) =
            lookup-sort_entries j m ∙ before in
          let id_of : data_id (j, file bytes) ≡ some i = unfold data_id in scanned in
          let old : i < merged_id =
            omega (arith, le-max_file_id (sort_entries m) 0 j (file bytes) i listed id_of) in
          absurd (ground (arith, h.removed.gone j (file bytes) i listed id_of old))
    ]

  abbrev closed_bitcask : Bitcask
  closed_bitcask = record old_bitcask {
    current_file = some (record { name = data_name id; is_open = false });
  }

  not_merged : (id == merged_id) ≡ false
  unfolding content
  not_merged = elim (Bool-cases (id == merged_id)) [
    | inr e ↦ e
    | inl e ↦
        let p : id ≡ merged_id = ground arith in
        absurd (
          ground (
            arith,
            sound.current.1,
            ap (λ (i : ℕ). Maps.lookup (data_name i) m) p,
            fresh_name m sound.plain merged_id fits above,
          ))
  ]

  -- Reopening the merged file.
  reopen-healthy :
      (st : Merge) (m'' : Entries) (b : Bitcask)
      → EndsAt merged_id m'' st.new_offset
      → open_current_file (
          with_entries
            (record b {
              key_dir = st.new_key_dir;
              current_file_id = merged_id;
              current_offset = st.new_offset;
            })
            m'')
        ≡ (ok tt, healthy st.new_key_dir merged_id m'' st.new_offset b.max_file_size)
  reopen-healthy st m'' b (bytes, e, len) =
      open_current_file-healthy _ m'' (some (file bytes))
        (lookup-content (data_name merged_id) bytes m'' e) (λ q. cc)
      ∙ ap (λ (n : ℕ). (ok tt, healthy st.new_key_dir merged_id m'' n b.max_file_size)) len

  -- The part of `Compact` behind the creation of the merged file.
  pub merge_into-healthy :
      (st : Merge) × (m' : Entries) × (m'' : Entries) × Merged st m' m''
      × (merge_into merged_id
            (merged_handle merged_id)
            keys
            (sort_entries m)
            (with_entries old_bitcask merged_entries)
          ≡ (ok tt, healthy st.new_key_dir merged_id m'' st.new_offset limit))
  unfolding merge_into sync
  merge_into-healthy =
      let (st, m', run, copied) =
        copy_records-lem merged_id fits old_bitcask keys
          (record { new_key_dir = []; new_offset = 0 }) merged_entries distinct tt created-EndsAt
          (λ j loc found.
            let (v, l) = sound.located j loc (sym (visits j) ∙ found) in
            (v, Located-Extends m merged_entries created-Extends l)) in
      let (m'', run', removed) = remove_old-lem merged_id fits closed_bitcask (sort_entries m) m' in
      let h : Merged st m' m'' = record { copied = copied; removed = removed } in
      (
        st,
        m',
        m'',
        h,
        rw (
          merge_into,
          run,
          not_merged,
          run',
          reopen-healthy st m'' closed_bitcask
              (copied.ends.0, content-kept h ∙ copied.ends.1, copied.ends.2),
        ),
      )
