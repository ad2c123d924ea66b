-- ===== src/Server/Committed.antt =====
-- The state machine behind the handlers of server/raft_server.go and server/sharded_server.go, when the Raft
-- library commits an entry: whether `Apply` fails or not, its engine is the one of the API's method.
use titan_distributed_kv.Common.{◌≡◌, refl, ap, ◌∙◌, Bytes, bytes_key}
use titan_distributed_kv.Common.Errors.{Result, ok, err, wrap}
use titan_distributed_kv.Storage.Api
use titan_distributed_kv.Raft.{LogEntry, Fsm, Library, apply, apply_entry, apply_log_entry}
use titan_distributed_kv.Raft.Effects.{finish-api}
use titan_distributed_kv.Server.{applied, replicate}
use titan_distributed_kv.Server.Replicated.{put_entry, delete_entry, Commits}

applied-state : (r : Result (Unit {0}) × Fsm) → (applied r).1 ≡ r.1
unfolding applied
applied-state (ok _, f) = refl
applied-state (err e, f) = refl

-- The state behind an entry that the library commits, whatever `Apply` returns for it.
module _ (decode : Bytes → Result LogEntry) (encode : LogEntry → Result Bytes) (raft : Library)
    (f : Fsm) where
  replicate-state :
      (entry : LogEntry) (c : Commits decode encode raft entry f)
      → (replicate encode raft entry f).1 ≡ (apply_entry f c.index entry).1
  unfolding replicate apply_log_entry apply
  replicate-state entry c = rw (c.leads, applied-state, c.encoded, c.submitted, c.decoded) refl

  pub replicate_put-api :
      (key value : Bytes)
      → Commits decode encode raft (put_entry key value) f
      → (replicate encode raft (put_entry key value) f).1.api ≡ (Api.put key value f.api).1
  replicate_put-api key value c =
      ap (λ g. g.api) (replicate-state (put_entry key value) c)
      ∙ (unfold apply_entry bytes_key in
          finish-api f c.index (wrap "failed to apply PUT") (Api.put key value f.api))

  pub replicate_delete-api :
      (key : Bytes)
      → Commits decode encode raft (delete_entry key) f
      → (replicate encode raft (delete_entry key) f).1.api ≡ (Api.delete key f.api).1
  replicate_delete-api key c =
      ap (λ g. g.api) (replicate-state (delete_entry key) c)
      ∙ (unfold apply_entry bytes_key in
          finish-api f c.index (wrap "failed to apply DELETE") (Api.delete key f.api))
