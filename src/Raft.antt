-- ===== src/Raft.antt =====
-- The replicated state machine of raft/fsm.go, and raft/node.go on top of the library
-- hashicorp/raft, which is a parameter.
pub mod Agreement
pub mod Effects
pub mod Node
pub mod Replication
use titan_distributed_kv.Common.{
  ℕ, [], Bytes, codes, bytes_key, same, Bool, true, false, Option, none, some, if◌then◌else◌,
}
use titan_distributed_kv.Common.Errors.{Error, new, named, wrap, Result, ok, err}
use titan_distributed_kv.Storage.Exec.{Store}
use titan_distributed_kv.Storage.Api

-- LogEntry
pub record LogEntry : Type 0 where
  pub operation : Bytes
  pub key : Bytes
  pub value : Bytes

-- FSM, without its mutex: a method holds it throughout. `api` is the state of its storage engine.
pub record Fsm : Type 0 where
  pub api : Store
  pub index : ℕ

-- raft.Log: what `Apply` reads of it
pub record Log : Type 0 where
  pub log_data : Bytes
  pub log_index : ℕ

-- NewFSM
unfoldable pub new_fsm : Store → Fsm
new_fsm api = record { api = api; index = 0 }

-- The end of a case of `Apply`: the index moves only where the operation did not fail.
unfoldable pub finish : Fsm → ℕ → (Error → Error) → Result (Unit {0}) × Store → Option Error × Fsm
finish f index failure (ok _, api) = (none, record { api = api; index = index })
finish f index failure (err e, api) = (some (failure e), record f { api = api })

-- Apply, behind `json.Unmarshal`.
unfoldable pub apply_entry : Fsm → ℕ → LogEntry → Option Error × Fsm
unfolding finish
apply_entry f index entry =
    if same entry.operation (codes "PUT")
    then finish f index (wrap "failed to apply PUT") (Api.put entry.key entry.value f.api)
    else if same entry.operation (codes "DELETE")
    then finish f index (wrap "failed to apply DELETE") (Api.delete entry.key f.api)
    else (some (named "unknown operation: " entry.operation ""), f)

apply_decoded : Fsm → ℕ → Result LogEntry → Option Error × Fsm
unfolding apply_entry
apply_decoded f index (ok entry) = apply_entry f index entry
apply_decoded f index (err e) = (some (wrap "failed to unmarshal log entry" e), f)

-- Apply. `decode` is `json.Unmarshal` at a LogEntry.
unfoldable pub apply : (Bytes → Result LogEntry) → Fsm → Log → Option Error × Fsm
unfolding apply_decoded
apply decode f log = apply_decoded f log.log_index (decode log.log_data)

-- Snapshot and what `Snapshot` of the state machine returns: the index alone.
pub record Snapshot : Type 0 where
  pub snapshot_index : ℕ

unfoldable pub snapshot : Fsm → Snapshot
snapshot f = record { snapshot_index = f.index }

-- Restore: it closes the snapshot without reading it, and changes nothing.
unfoldable pub restore : Bytes → Fsm → Result (Unit {0}) × Fsm
restore stream f = (ok tt, f)

-- GetLastIndex
unfoldable pub get_last_index : Fsm → ℕ
get_last_index f = f.index

-- What the methods of a node use of a `*raft.Raft`: whether its state is Leader, the leader's address,
-- and `Apply`, which returns the future's error or else its response, after the state machine has
-- applied what the library gave it.
pub record Library : Type 0 where
  pub is_leader : Bool
  pub leader : Bytes
  pub submit : Bytes → Fsm → Result (Option Error) × Fsm

response : Result (Option Error) → Result (Unit {0})
response (err e) = err (wrap "failed to apply log entry" e)
response (ok (some e)) = err e
response (ok none) = ok tt

submit_encoded : Library → Result Bytes → Fsm → Result (Unit {0}) × Fsm
unfolding response
submit_encoded raft (err e) f = (err (wrap "failed to marshal entry" e), f)
submit_encoded raft (ok bytes) f = let (r, f') = raft.submit bytes f in (response r, f')

-- ApplyLogEntry. `encode` is `json.Marshal` of a LogEntry.
unfoldable pub apply_log_entry :
    (LogEntry → Result Bytes) → Library → LogEntry → Fsm → Result (Unit {0}) × Fsm
unfolding submit_encoded
apply_log_entry encode raft entry f =
    if raft.is_leader then submit_encoded raft (encode entry) f else (err (new "not the leader"), f)
