-- ===== src/Server/Sharded.antt =====
-- The handlers of server/sharded_server.go, but the read repair, which runs beside `Get` and reports
-- nothing to it.
use titan_distributed_kv.Common.{[], ◌++◌, Bytes, codes, bytes_key, same, true, if◌then◌else◌}
use titan_distributed_kv.Common.Errors.{Error, text, Result, ok, err}
use titan_distributed_kv.Storage.Api
use titan_distributed_kv.Raft.{LogEntry, Fsm, Library}
use titan_distributed_kv.Sharding.Ring.{NodeInfo, Nodes}
use titan_distributed_kv.Sharding.Membership.{
  Membership, is_local_node, get_client, get_target_node,
}
use titan_distributed_kv.Server.{
  PutResponse, GetResponse, success, failure, not_found, key_empty, get_response, replicate,
}
use titan_distributed_kv.Server.Client.{Reply, done, failed, put_reply, get_reply, delete_reply}

-- The RPCs of a client, by what they return: the store of the other node is not part of this one.
pub record Remote : Type 0 where
  pub put : Bytes → Bytes → Bytes → Result PutResponse
  pub get : Bytes → Bytes → Result GetResponse
  pub delete : Bytes → Bytes → Result PutResponse

no_client : Bytes → Error → Bytes
no_client node_id e = codes "failed to get client for node " ++ node_id ++ codes ": " ++ text e

no_target : Error → Bytes
no_target e = codes "failed to determine target shard: " ++ text e

unfoldable pub forwarded : Reply (Unit {0}) → PutResponse
forwarded (done _) = success
forwarded (failed message) = failure (codes "forwarded request failed: " ++ message)

unfoldable pub relayed : Reply Bytes → GetResponse
relayed (done value) = record { found = true; value = value; error = [] }
relayed (failed message) =
    if same message (codes "get RPC failed: key not found")
    then not_found []
    else not_found (codes "forwarded request failed: " ++ message)

module _ (remote : Remote) (m : Membership) where
  -- forwardPut
  unfoldable pub forward_put : NodeInfo → Bytes → Bytes → PutResponse
  unfolding forwarded no_client
  forward_put target key value = elim (get_client target.node_id m) [
    | err e ↦ failure (no_client target.node_id e)
    | ok client ↦ forwarded (put_reply (remote.put client key value))
  ]

  -- forwardGet
  unfoldable pub forward_get : NodeInfo → Bytes → GetResponse
  unfolding relayed no_client
  forward_get target key = elim (get_client target.node_id m) [
    | err e ↦ not_found (no_client target.node_id e)
    | ok client ↦ relayed (get_reply (remote.get client key))
  ]

  -- forwardDelete
  unfoldable pub forward_delete : NodeInfo → Bytes → PutResponse
  unfolding forwarded no_client
  forward_delete target key = elim (get_client target.node_id m) [
    | err e ↦ failure (no_client target.node_id e)
    | ok client ↦ forwarded (delete_reply (remote.delete client key))
  ]

  module _ (sum256 : Bytes → Bytes) (range : Nodes → Nodes) where
    -- Get
    unfoldable pub sharded_get : Bytes → Fsm → GetResponse
    unfolding forward_get no_target get_response
    sharded_get key f =
        if same key [] then not_found key_empty else elim (get_target_node sum256 range key m) [
          | err e ↦ not_found (no_target e)
          | ok target ↦
              if is_local_node target.node_id m
              then get_response (Api.get key f.api)
              else forward_get target key
        ]

    -- Put. `encode` is `json.Marshal` of a LogEntry.
    unfoldable pub sharded_put :
        (LogEntry → Result Bytes) → Library → Bytes → Bytes → Fsm → PutResponse × Fsm
    unfolding forward_put no_target
    sharded_put encode raft key value f =
        if same key [] then (failure key_empty, f) else elim (get_target_node sum256 range key m) [
          | err e ↦ (failure (no_target e), f)
          | ok target ↦
              if is_local_node target.node_id m
              then replicate encode raft
                  (record { operation = codes "PUT"; key = key; value = value }) f
              else (forward_put target key value, f)
        ]

    -- Delete
    unfoldable pub sharded_delete :
        (LogEntry → Result Bytes) → Library → Bytes → Fsm → PutResponse × Fsm
    unfolding forward_delete no_target
    sharded_delete encode raft key f =
        if same key [] then (failure key_empty, f) else elim (get_target_node sum256 range key m) [
          | err e ↦ (failure (no_target e), f)
          | ok target ↦
              if is_local_node target.node_id m
              then replicate encode raft
                  (record { operation = codes "DELETE"; key = key; value = [] }) f
              else (forward_delete target key, f)
        ]
