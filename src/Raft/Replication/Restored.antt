-- ===== src/Raft/Replication/Restored.antt =====
-- What a node that was restored from a snapshot answers: `Restore` of raft/fsm.go reads nothing.
use titan_distributed_kv.Common.{◌≡◌, refl, sym, ap, ◌∙◌, List, [], ◌∷◌, Bytes, none, some}
use titan_distributed_kv.Common.Errors.{Result, ok, err}
use titan_distributed_kv.Storage.Bitcask
use titan_distributed_kv.Storage.Bitcask.Steps.{IsValid}
use titan_distributed_kv.Storage.History.{answer}
use titan_distributed_kv.Raft.{LogEntry, Fsm, Log, apply, restore}
use titan_distributed_kv.Raft.Agreement.{Fits, apply_all}
use titan_distributed_kv.Raft.Effects.{
  Becomes, Becomes-same, overlay, last_write, decoded_write, apply-Becomes, later-overlay,
}

-- The entries of a log, one after the other, do what the log says.
pub apply_all-Becomes :
    (decode : Bytes → Result LogEntry) (logs : List Log) (f : Fsm)
    → IsValid f.api
    → Fits decode logs
    → Becomes f.api (apply_all decode logs f).1.api (last_write decode logs)
apply_all-Becomes decode [] f v fits = Becomes-same f.api _ v (λ j. refl)
apply_all-Becomes decode (log ∷ logs) f v (fit, fits) =
    let first = apply-Becomes decode f log v fit in
    let rest = apply_all-Becomes decode logs (apply decode f log).1 first.valid fits in
    record {
      valid = rest.valid;
      answers = λ key o e.
          rest.answers key _ (first.answers key o e)
          ∙ ap answer (
              sym (
                later-overlay (last_write decode logs key) (decoded_write (decode log.log_data) key)
                  o));
    }

-- A leader has a value for a key, and a node does not have the key. The node is restored from any snapshot, and
-- both are given the same entries, none of which writes the key: the leader still answers with the
-- value, and the node that the key is not found.
pub restore_misses :
    (decode : Bytes → Result LogEntry) (f g : Fsm) (stream key value : Bytes) (logs : List Log)
    → IsValid f.api
    → IsValid g.api
    → Bitcask.get key f.api ≡ ok value
    → Bitcask.get key g.api ≡ err Bitcask.key_not_found
    → Fits decode logs
    → last_write decode logs key ≡ none
    → (Bitcask.get key (apply_all decode logs f).1.api ≡ ok value)
      × (Bitcask.get key (apply_all decode logs (restore stream g).1).1.api
          ≡ err Bitcask.key_not_found)
unfolding restore
restore_misses decode f g stream key value logs vf vg has lacks fits untouched = (
  (apply_all-Becomes decode logs f vf fits).answers key (some value) has
      ∙ ap (λ w. answer (overlay w (some value))) untouched,
  (apply_all-Becomes decode logs g vg fits).answers key none lacks
      ∙ ap (λ w. answer (overlay w none)) untouched,
)
