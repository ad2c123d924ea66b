-- ===== src/Storage/Compaction/Refinement.antt =====
-- `Compact` keeps every key and every value, and deletes the files that it has merged.
use mathlib.Core.Path.{subst}
use titan_distributed_kv.Common.{
  ℕ, ◌+◌, ◌%◌, ◌<◌, ◌≡◌, refl, inl, inr, Bytes, true, false, some, ◌==◌, bytes_key, arith,
  Bool-cases,
}
use titan_distributed_kv.Common.Maps
use titan_distributed_kv.Common.Maps.{IsVisit, NodupKeys, lookup-nil, lookup-insert}
use titan_distributed_kv.Storage.Codec.{word}
use titan_distributed_kv.Storage.Names.{data_name, scan_name}
use titan_distributed_kv.Storage.Disk.{Entries, file, ok, read_dir, sort_entries, create}
use titan_distributed_kv.Storage.Exec.{KeyDir, Store}
use titan_distributed_kv.Storage.Bitcask.{get}
use titan_distributed_kv.Storage.Bitcask.Healthy.{healthy}
use titan_distributed_kv.Storage.Bitcask.Invariant.{Sound}
use titan_distributed_kv.Storage.Bitcask.Steps.{
  IsValid, IsValid-as_healthy, healthy-IsValid, Refines,
}
use titan_distributed_kv.Storage.Compaction.{Merge, max_file_id, compact_files, compact}
use titan_distributed_kv.Storage.Compaction.Merging.{
  fresh_name, Merged, merged-Sound, merged-view, merge_into-healthy, only-merged,
}

-- The id of the merged file.
abbrev pub merged_id : Store → ℕ
merged_id s = (max_file_id (sort_entries s.disk.entries) 0 + 1) % word

module _ (range : KeyDir → KeyDir) (visit : IsVisit range) (kd : KeyDir) (id : ℕ) (m : Entries)
    (offset limit : ℕ) (sound : Sound kd id m offset)
    (room : max_file_id (sort_entries m) 0 + 1 < word) where
  abbrev pub next_id : ℕ
  next_id = (max_file_id (sort_entries m) 0 + 1) % word

  pub next_fits : next_id < word
  next_fits = omega arith

  pub next_above : max_file_id (sort_entries m) 0 < next_id
  next_above = omega arith

  compact_files-none :
      (max_file_id (sort_entries m) 0 == 0) ≡ true
      → compact_files range (healthy kd id m offset limit) ≡ (ok tt, healthy kd id m offset limit)
  unfolding compact_files read_dir
  compact_files-none e = rw (compact_files, e)

  pub compact_files-healthy :
      (max_file_id (sort_entries m) 0 == 0) ≡ false
      → (st : Merge) × (m' : Entries) × (m'' : Entries) × Merged kd
          (range kd)
          id
          m
          offset
          limit
          sound
          (visit.range-NodupKeys kd sound.distinct)
          (visit.lookup-range kd)
          next_id
          next_fits
          next_above
          st
          m'
          m''
        × (compact_files range (healthy kd id m offset limit)
            ≡ (ok tt, healthy st.new_key_dir next_id m'' st.new_offset limit))
  unfolding compact_files read_dir create
  compact_files-healthy e =
      let (st, m', m'', h, run) =
        merge_into-healthy kd (range kd) id m offset limit sound
          (visit.range-NodupKeys kd sound.distinct) (visit.lookup-range kd) next_id next_fits
          next_above in
      (
        st,
        m',
        m'',
        h,
        rw (compact_files, e, fresh_name m sound.plain next_id next_fits next_above) run,
      )

  compact_files-Refines :
      Refines
        (compact_files range (healthy kd id m offset limit))
        (λ j. get j (healthy kd id m offset limit))
  compact_files-Refines = elim (Bool-cases (max_file_id (sort_entries m) 0 == 0)) [
    | inl e ↦ rw (compact_files-none e) (record {
      succeeds = refl;
      valid = healthy-IsValid kd id m offset limit sound;
      views = λ j. refl;
    })
    | inr e ↦
        let (st, m', m'', h, run) = compact_files-healthy e in
        rw run (record {
          succeeds = refl;
          valid = healthy-IsValid _ _ _ _ _ (merged-Sound _ _ _ _ _ _ _ _ _ _ _ _ h);
          views = merged-view _ _ _ _ _ _ _ _ _ _ _ _ h;
        })
  ]

  compact_files-reclaims :
      (max_file_id (sort_entries m) 0 == 0) ≡ false
      → (j bytes : Bytes) (i : ℕ)
      → Maps.lookup j (compact_files range (healthy kd id m offset limit)).1.disk.entries
        ≡ some (file bytes)
      → scan_name j ≡ some i
      → j ≡ data_name next_id
  compact_files-reclaims e =
      let (st, m', m'', h, run) = compact_files-healthy e in
      rw run (only-merged _ _ _ _ _ _ _ _ _ _ _ _ h)

pub compact-Refines :
    (range : KeyDir → KeyDir) (s : Store)
    → IsVisit range
    → IsValid s
    → max_file_id (sort_entries s.disk.entries) 0 + 1 < word
    → Refines ((compact range false s).0, (compact range false s).1.1) (λ j. get j s)
      × ((compact range false s).1.0 ≡ false)
unfolding compact
compact-Refines range s visit v room = (
  subst (λ t. Refines (compact_files range t) (λ j. get j t)) (IsValid-as_healthy s v)
      (compact_files-Refines range visit _ _ _ _ s.bitcask.max_file_size v.sound room),
  refl,
)

-- After a `Compact` on a valid engine with no faults ahead, a file id left, and a data file with an id
-- above 0 in its listing, the only file left whose name `Sscanf` reads as a data file is the merged one.
pub compact_reclaims :
    (range : KeyDir → KeyDir) (s : Store) (j bytes : Bytes) (i : ℕ)
    → IsVisit range
    → IsValid s
    → max_file_id (sort_entries s.disk.entries) 0 + 1 < word
    → 0 < max_file_id (sort_entries s.disk.entries) 0
    → Maps.lookup j (compact range false s).1.1.disk.entries ≡ some (file bytes)
    → scan_name j ≡ some i
    → j ≡ data_name (merged_id s)
unfolding compact
compact_reclaims range s j bytes i visit v room some_old =
    subst
      (λ t.
        0 < max_file_id (sort_entries t.disk.entries) 0
        → Maps.lookup j (compact_files range t).1.disk.entries ≡ some (file bytes)
        → scan_name j ≡ some i
        → j ≡ data_name (merged_id t))
      (IsValid-as_healthy s v)
      (λ h found scanned.
        compact_files-reclaims range visit _ _ _ _ s.bitcask.max_file_size v.sound room
          (ground arith) j bytes i found scanned)
      some_old
