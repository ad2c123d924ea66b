-- ===== src/Server.antt =====
-- The gRPC handlers of server/server.go and server/raft_server.go, without the set-up of the servers, which is Server/Start.
pub mod Client
pub mod Connection
pub mod EndToEnd
pub mod Replicated
pub mod Committed
pub mod Sharded
pub mod Routing
pub mod Repair
pub mod Cluster
pub mod Start
use titan_distributed_kv.Common.{
  [], ◌++◌, Bytes, codes, bytes_key, same, Bool, true, false, if◌then◌else◌,
}
use titan_distributed_kv.Common.Errors.{Error, text, Result, ok, err}
use titan_distributed_kv.Storage.Exec.{Store}
use titan_distributed_kv.Storage.Api
use titan_distributed_kv.Raft.{LogEntry, Fsm, Library, apply_log_entry}

-- PutResponse, and DeleteResponse with the same fields
pub record PutResponse : Type 0 where
  pub success : Bool
  pub error : Bytes

-- GetResponse
pub record GetResponse : Type 0 where
  pub found : Bool
  pub value : Bytes
  pub error : Bytes

abbrev pub success : PutResponse
success = record { success = true; error = [] }

abbrev pub failure : Bytes → PutResponse
failure message = record { success = false; error = message }

abbrev pub not_found : Bytes → GetResponse
not_found message = record { found = false; value = []; error = message }

abbrev pub key_empty : Bytes
key_empty = codes "key cannot be empty"

put_response : Result (Unit {0}) × Store → PutResponse × Store
put_response (ok _, s) = (success, s)
put_response (err e, s) = (failure (text e), s)

-- KVServer.Put
unfoldable pub put : Bytes → Bytes → Store → PutResponse × Store
unfolding put_response
put key value s = if same key [] then (failure key_empty, s) else put_response (Api.put key value s)

get_response : Result Bytes → GetResponse
get_response (ok value) = record { found = true; value = value; error = [] }
get_response (err e) =
    if same (text e) (codes "get operation failed: key not found")
    then not_found []
    else not_found (text e)

-- KVServer.Get
unfoldable pub get : Bytes → Store → GetResponse
unfolding get_response
get key s = if same key [] then not_found key_empty else get_response (Api.get key s)

delete_response : Result (Unit {0}) × Store → PutResponse × Store
delete_response (ok _, s) = (success, s)
delete_response (err e, s) =
    if same (text e) (codes "delete operation failed: key not found")
    then (failure (codes "key not found"), s)
    else (failure (text e), s)

-- KVServer.Delete
unfoldable pub delete : Bytes → Store → PutResponse × Store
unfolding delete_response
delete key s = if same key [] then (failure key_empty, s) else delete_response (Api.delete key s)

applied : Result (Unit {0}) × Fsm → PutResponse × Fsm
applied (ok _, f) = (success, f)
applied (err e, f) = (failure (codes "failed to apply: " ++ text e), f)

-- The part of `RaftKVServer.Put` and `RaftKVServer.Delete` behind the test for an empty key. `encode` is
-- `json.Marshal` of a LogEntry.
unfoldable pub replicate : (LogEntry → Result Bytes) → Library → LogEntry → Fsm → PutResponse × Fsm
unfolding applied
replicate encode raft entry f =
    if raft.is_leader
    then applied (apply_log_entry encode raft entry f)
    else if same raft.leader []
    then (failure (codes "no leader available"), f)
    else (failure (codes "not the leader, redirect to: " ++ raft.leader), f)

-- RaftKVServer.Put
unfoldable pub raft_put :
    (LogEntry → Result Bytes) → Library → Bytes → Bytes → Fsm → PutResponse × Fsm
unfolding replicate
raft_put encode raft key value f =
    if same key []
    then (failure key_empty, f)
    else replicate encode raft (record { operation = codes "PUT"; key = key; value = value }) f

-- RaftKVServer.Get reads the node's own engine, as `KVServer.Get` does.
unfoldable pub raft_get : Bytes → Fsm → GetResponse
unfolding get_response
raft_get key f = if same key [] then not_found key_empty else get_response (Api.get key f.api)

-- RaftKVServer.Delete
unfoldable pub raft_delete : (LogEntry → Result Bytes) → Library → Bytes → Fsm → PutResponse × Fsm
unfolding replicate
raft_delete encode raft key f =
    if same key []
    then (failure key_empty, f)
    else replicate encode raft (record { operation = codes "DELETE"; key = key; value = [] }) f
