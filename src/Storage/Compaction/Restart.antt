-- ===== src/Storage/Compaction/Restart.antt =====
-- An engine that is opened again after a `Compact` is the engine that was closed.
use mathlib.Core.Path.{subst}
use mathlib.Core.Option.{some-injective}
use titan_distributed_kv.Common.{
  ℕ, ◌+◌, ◌%◌, ◌<◌, ◌≡◌, refl, sym, ap, ap₂, ◌∙◌, [], Bytes, false, some, ◌==◌, length, bytes_key,
  arith, same_refl,
}
use titan_distributed_kv.Common.Maps
use titan_distributed_kv.Common.Maps.{IsVisit, NodupKeys, insert-NodupKeys}
use titan_distributed_kv.Storage.Codec.{word}
use titan_distributed_kv.Storage.Names.{data_name}
use titan_distributed_kv.Storage.Disk.{Entries, file, ok, content, sort_entries}
use titan_distributed_kv.Storage.Disk.Laws.{content-insert, lookup-content}
use titan_distributed_kv.Storage.Exec.{RecordLocation, KeyDir, Store}
use titan_distributed_kv.Storage.Bitcask.{default_max_file_size}
use titan_distributed_kv.Storage.Bitcask.Healthy.{healthy}
use titan_distributed_kv.Storage.Bitcask.Invariant.{Sound}
use titan_distributed_kv.Storage.Bitcask.Steps.{IsValid, IsValid-as_healthy}
use titan_distributed_kv.Storage.Recovery.{new_bitcask}
use titan_distributed_kv.Storage.Recovery.Log.{encode_all}
use titan_distributed_kv.Storage.Recovery.Single.{new_bitcask-Only}
use titan_distributed_kv.Storage.Compaction.{max_file_id, compact_files, compact}
use titan_distributed_kv.Storage.Compaction.Merging.{content-kept, only-merged}
use titan_distributed_kv.Storage.Compaction.Refinement.{compact_files-healthy}

-- A location whose size fits a uint32, as a record's size does when its key and its value are short.
abbrev pub AllSizesFit : KeyDir → Type 0
AllSizesFit kd = (j : Bytes) (loc : RecordLocation) → Maps.lookup j kd ≡ some loc → loc.size < word

module _ (range : KeyDir → KeyDir) (visit : IsVisit range) (kd : KeyDir) (id : ℕ) (m : Entries)
    (offset : ℕ) (sound : Sound kd id m offset) (room : max_file_id (sort_entries m) 0 + 1 < word)
    (sizes : AllSizesFit kd) (listed : NodupKeys m) where
  abbrev next_id : ℕ
  next_id = (max_file_id (sort_entries m) 0 + 1) % word

  next_fits : next_id < word
  next_fits = omega arith

  next_positive : 0 < next_id
  next_positive = omega arith

  compact_files-reopens :
      (max_file_id (sort_entries m) 0 == 0) ≡ false
      → let t = (compact_files range (healthy kd id m offset default_max_file_size)).1 in
        new_bitcask t.disk ≡ (ok tt, t)
  compact_files-reopens some_old =
      let (st, m', m'', h, run) =
        compact_files-healthy range visit kd id m offset default_max_file_size sound room
          some_old in
      let (rs, fit, logged, replayed) =
        h.copied.logged [] (rw (content-insert, same_refl (data_name next_id)) refl)
          (λ j loc found. sizes j loc (sym (visit.lookup-range kd j) ∙ found)) in
      let kept : content (data_name next_id) m'' ≡ some (encode_all rs) =
        content-kept _ _ _ _ _ _ _ _ _ _ _ _ h ∙ logged in
      let (bytes, at_end, size) = h.copied.ends in
      let ends : length (encode_all rs) ≡ st.new_offset =
        ap length (some-injective _ _ (sym logged ∙ at_end)) ∙ size in
      let unique : NodupKeys m'' =
        h.removed.nodup
          (h.copied.nodup (insert-NodupKeys (data_name next_id) (file []) m listed)) in
      rw run (
        new_bitcask-Only next_id next_fits next_positive rs fit m'' unique
          (only-merged _ _ _ _ _ _ _ _ _ _ _ _ h)
          (lookup-content (data_name next_id) (encode_all rs) m'' kept)
        ∙ ap₂ (λ d (n : ℕ). (ok tt, healthy d next_id m'' n default_max_file_size)) (sym replayed)
            ends)

pub restart-compact :
    (range : KeyDir → KeyDir) (s : Store)
    → IsVisit range
    → IsValid s
    → NodupKeys s.disk.entries
    → max_file_id (sort_entries s.disk.entries) 0 + 1 < word
    → 0 < max_file_id (sort_entries s.disk.entries) 0
    → AllSizesFit s.bitcask.key_dir
    → s.bitcask.max_file_size ≡ default_max_file_size
    → let t = (compact range false s).1.1 in new_bitcask t.disk ≡ (ok tt, t)
unfolding compact
restart-compact range s visit v listed room some_old sizes limit =
    subst (λ t. new_bitcask (compact_files range t).1.disk ≡ (ok tt, (compact_files range t).1))
      (ap
          (λ (l : ℕ).
            healthy s.bitcask.key_dir s.bitcask.current_file_id s.disk.entries
              s.bitcask.current_offset l)
          (sym limit)
        ∙ IsValid-as_healthy s v)
      (compact_files-reopens range visit _ _ _ _ v.sound room sizes listed (ground arith))
