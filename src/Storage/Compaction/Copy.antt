-- ===== src/Storage/Compaction/Copy.antt =====
-- The copying loop of `Compact` puts the record of every key into the merged file.
use mathlib.Core.Path.{subst}
use titan_distributed_kv.Common.{
  ℕ, ◌+◌, ◌<◌, ◌≡◌, ◌≢◌, refl, ap, ◌∙◌, sym, [], ◌∷◌, ◌++◌, append_assoc, append-nil, Bytes, true,
  none, some, length, bytes_key, same_refl, arith, length-append,
}
use titan_distributed_kv.Common.Maps
use titan_distributed_kv.Common.Maps.{
  NodupKeys, lookup-nil, lookup-cons, lookup-insert, insert-NodupKeys,
}
use titan_distributed_kv.Storage.Codec.{word, encode, length-encode}
use titan_distributed_kv.Storage.Names.{data_name}
use titan_distributed_kv.Storage.Disk.{Entries, Handle, ok, content, grow, append}
use titan_distributed_kv.Storage.Disk.Laws.{lookup-grow_ne}
use titan_distributed_kv.Storage.Disk.Distinct.{grow-NodupKeys}
use titan_distributed_kv.Storage.Exec.{RecordLocation, KeyDir, Bitcask, Store}
use titan_distributed_kv.Storage.Bitcask.Invariant.{
  Located, Extends, Extends-refl, Extends-trans, grow-Extends, Located-Extends,
}
use titan_distributed_kv.Storage.Bitcask.Writes.{grow-content}
use titan_distributed_kv.Storage.Recovery.Log.{Records, encode_all, replay, AllFit}
use titan_distributed_kv.Storage.Compaction.{Merge, copy_records}
use titan_distributed_kv.Storage.Compaction.Reading.{read_record-Located, Located-unique}

abbrev pub with_entries : Bitcask → Entries → Store
with_entries b m = record { bitcask = b; disk = record { entries = m; faults = [] } }

module _ (merged_id : ℕ) where
  abbrev merged_name : Bytes
  merged_name = data_name merged_id

  abbrev pub merged_handle : Handle
  merged_handle = record { name = data_name merged_id; is_open = true }

  -- The merged file ends at the new offset.
  abbrev pub EndsAt : Entries → ℕ → Type 0
  EndsAt m offset =
      (bytes : Bytes) × (content (data_name merged_id) m ≡ some bytes) × (length bytes ≡ offset)

  -- What the loop over `keys` from `st` and `m` has done when it ends with `st'` and `m'`.
  pub record Copied (keys : KeyDir) (st : Merge) (m : Entries) (st' : Merge) (m' : Entries)
      : Type 0 where
    pub grown : Extends m m'
    pub others : (j : Bytes) → data_name merged_id ≢ j → Maps.lookup j m' ≡ Maps.lookup j m
    pub ends : EndsAt m' st'.new_offset
    pub distinct : NodupKeys st'.new_key_dir
    pub absent :
        (j : Bytes)
        → Maps.lookup j keys ≡ none
        → Maps.lookup j st'.new_key_dir ≡ Maps.lookup j st.new_key_dir
    pub present :
        (j : Bytes) (loc : RecordLocation) (v : Bytes)
        → Maps.lookup j keys ≡ some loc
        → Located m loc j v
        → (loc' : RecordLocation) × (Maps.lookup j st'.new_key_dir ≡ some loc')
          × (loc'.file_id ≡ merged_id)
          × Located m' loc' j v
    pub nodup : NodupKeys m → NodupKeys m'
    pub logged :
        (bytes : Bytes)
        → content (data_name merged_id) m ≡ some bytes
        → ((j : Bytes) (loc : RecordLocation) → Maps.lookup j keys ≡ some loc → loc.size < word)
        → (rs : Records) × AllFit rs
          × (content (data_name merged_id) m' ≡ some (bytes ++ encode_all rs))
          × (st'.new_key_dir ≡ replay merged_id st.new_offset rs st.new_key_dir)

  module _ (id_fits : merged_id < word) where
    new_Located :
        (m : Entries) (offset : ℕ) (key value : Bytes) (loc : RecordLocation)
        → EndsAt m offset
        → Located m loc key value
        → Located
            (grow merged_name (encode key value) m)
            (record { file_id = merged_id; offset = offset; size = loc.size })
            key
            value
    new_Located m offset key value loc (bytes, e, len) h = record {
      before = bytes;
      after = [];
      bytes =
          grow-content merged_name (encode key value) bytes m e
          ∙ ap (λ t. some (bytes ++ t)) (sym (append-nil (encode key value)));
      offset = len;
      size = h.size;
      key_fits = h.key_fits;
      value_fits = h.value_fits;
      id_fits = id_fits;
    }

    new_EndsAt :
        (m : Entries) (offset : ℕ) (key value : Bytes) (loc : RecordLocation)
        → EndsAt m offset
        → Located m loc key value
        → EndsAt (grow merged_name (encode key value) m) (offset + loc.size)
    new_EndsAt m offset key value loc (bytes, e, len) h = (
      _,
      grow-content merged_name (encode key value) bytes m e,
      omega (arith, length-append bytes (encode key value), length-encode key value, h.size),
    )

    abbrev step_entries : Bytes → Bytes → Entries → Entries
    step_entries key value m = grow merged_name (encode key value) m

    abbrev step_merge : Bytes → RecordLocation → Merge → Merge
    step_merge key loc st = record {
      new_key_dir =
          Maps.insert key (record { file_id = merged_id; offset = st.new_offset; size = loc.size })
            st.new_key_dir;
      new_offset = st.new_offset + loc.size;
    }

    -- One round of the loop.
    copy_records-step :
        (b : Bitcask) (m : Entries) (key value : Bytes) (loc : RecordLocation) (rest : KeyDir)
        (st : Merge)
        → Located m loc key value
        → copy_records merged_id merged_handle ((key, loc) ∷ rest) st (with_entries b m)
          ≡ copy_records merged_id merged_handle rest
              (step_merge key loc st)
              (with_entries b (step_entries key value m))
    copy_records-step b m key value loc rest st h =
        unfold copy_records append in
        rw (read_record-Located (record { entries = m; faults = [] }) loc key value h)

    module _ (key value : Bytes) (loc : RecordLocation) (rest : KeyDir) (st st' : Merge)
        (m m' : Entries) (at : Located m loc key value) (starts : EndsAt m st.new_offset)
        (fresh : Maps.lookup key rest ≡ none)
        (later : Copied rest (step_merge key loc st) (step_entries key value m) st' m') where
      present-head :
          (v : Bytes)
          → Located m loc key v
          → (loc' : RecordLocation) × (Maps.lookup key st'.new_key_dir ≡ some loc')
            × (loc'.file_id ≡ merged_id)
            × Located m' loc' key v
      present-head v h = (
        record { file_id = merged_id; offset = st.new_offset; size = loc.size },
        later.absent key fresh ∙ rw (lookup-insert, same_refl key),
        refl,
        subst
            (λ t.
              Located m' (record { file_id = merged_id; offset = st.new_offset; size = loc.size })
                key t)
            (Located-unique m loc key value v at h)
            (Located-Extends _ m' later.grown
              (new_Located m st.new_offset key value loc starts at)),
      )

      present-cons :
          (j : Bytes) (l : RecordLocation) (v : Bytes)
          → Maps.lookup j ((key, loc) ∷ rest) ≡ some l
          → Located m l j v
          → (loc' : RecordLocation) × (Maps.lookup j st'.new_key_dir ≡ some loc')
            × (loc'.file_id ≡ merged_id)
            × Located m' loc' j v
      present-cons j l v found h = elim (bytes_key.dec key j) [
        | yes p ↦
            subst
              (λ k.
                Located m l k v
                → (loc' : RecordLocation) × (Maps.lookup k st'.new_key_dir ≡ some loc')
                  × (loc'.file_id ≡ merged_id)
                  × Located m' loc' k v)
              p
              (subst
                (λ t.
                  Located m t key v
                  → (loc' : RecordLocation) × (Maps.lookup key st'.new_key_dir ≡ some loc')
                    × (loc'.file_id ≡ merged_id)
                    × Located m' loc' key v)
                (ground (arith, lookup-cons j key loc rest)) (present-head v))
              h
        | no q ↦
            later.present j l v (ground (arith, lookup-cons j key loc rest))
              (Located-Extends m _ (grow-Extends merged_name (encode key value) m) h)
      ]

      absent-cons :
          (j : Bytes)
          → Maps.lookup j ((key, loc) ∷ rest) ≡ none
          → Maps.lookup j st'.new_key_dir ≡ Maps.lookup j st.new_key_dir
      absent-cons j gone = elim (bytes_key.dec key j) [
        | yes p ↦ absurd (ground (arith, lookup-cons j key loc rest))
        | no q ↦
            later.absent j (ground (arith, lookup-cons j key loc rest))
            ∙ ground (
              arith,
              lookup-insert j key
                  (record { file_id = merged_id; offset = st.new_offset; size = loc.size })
                  st.new_key_dir,
            )
      ]

      logged-cons :
          (bytes : Bytes)
          → content merged_name m ≡ some bytes
          → ((j : Bytes) (l : RecordLocation)
              → Maps.lookup j ((key, loc) ∷ rest) ≡ some l
              → l.size < word)
          → (rs : Records) × AllFit rs
            × (content merged_name m' ≡ some (bytes ++ encode_all rs))
            × (st'.new_key_dir ≡ replay merged_id st.new_offset rs st.new_key_dir)
      unfolding encode_all replay
      logged-cons bytes e small =
          let (rs, fit, e', replayed) =
            later.logged (bytes ++ encode key value)
              (grow-content merged_name (encode key value) bytes m e)
              (λ j l found. small j l (ground (arith, lookup-cons j key loc rest))) in
          let fits = small key loc (rw (lookup-cons, same_refl key)) in
          (
            (key, value) ∷ rs,
            (omega (arith, at.size), fit),
            e' ∙ ap some (append_assoc bytes (encode key value) (encode_all rs)),
            replayed
                ∙ ap
                    (λ (n : ℕ). replay merged_id (st.new_offset + n) rs (
                      Maps.insert key
                        (record { file_id = merged_id; offset = st.new_offset; size = n })
                        st.new_key_dir))
                    at.size,
          )

      Copied-cons : Copied ((key, loc) ∷ rest) st m st' m'
      Copied-cons = record {
        grown = Extends-trans m _ m' (grow-Extends merged_name (encode key value) m) later.grown;
        others = λ j ne. later.others j ne ∙ lookup-grow_ne j merged_name (encode key value) m ne;
        ends = later.ends;
        distinct = later.distinct;
        absent = absent-cons;
        present = present-cons;
        nodup = λ h. later.nodup (grow-NodupKeys merged_name (encode key value) m h);
        logged = logged-cons;
      }

    -- The whole loop, over keys that all stand where their locations say.
    pub copy_records-lem :
        (b : Bitcask) (keys : KeyDir) (st : Merge) (m : Entries)
        → NodupKeys keys
        → NodupKeys st.new_key_dir
        → EndsAt m st.new_offset
        → ((j : Bytes) (loc : RecordLocation)
            → Maps.lookup j keys ≡ some loc
            → (v : Bytes) × Located m loc j v)
        → (st' : Merge) × (m' : Entries) × (copy_records merged_id merged_handle keys st
              (with_entries b m)
            ≡ (ok st', with_entries b m'))
          × Copied keys st m st' m'
    unfolding copy_records
    copy_records-lem b [] st m u v ends located = (
      st,
      m,
      refl,
      record {
        grown = Extends-refl m;
        others = λ j ne. refl;
        ends = ends;
        distinct = v;
        absent = λ j gone. refl;
        present = λ j loc w found. absurd (ground (arith, lookup-nil {V = RecordLocation} j));
        nodup = λ h. h;
        logged = λ bytes e small.
            unfold encode_all replay in ([], tt, e ∙ ap some (sym (append-nil bytes)), refl);
      },
    )
    copy_records-lem b ((key, loc) ∷ rest) st m (fresh, u) v ends located =
        let (value, at) = located key loc (rw (lookup-cons, same_refl key)) in
        let (st', m', run, later) =
          copy_records-lem b rest (step_merge key loc st) (step_entries key value m) u
            (insert-NodupKeys key _ st.new_key_dir v)
            (new_EndsAt m st.new_offset key value loc ends at)
            (λ j l found.
              let (w, h) = located j l (ground (arith, lookup-cons j key loc rest)) in
              (w, Located-Extends m _ (grow-Extends merged_name (encode key value) m) h)) in
        (
          st',
          m',
          copy_records-step b m key value loc rest st at ∙ run,
          Copied-cons key value loc rest st st' m m' at ends fresh later,
        )
