-- ===== src/Server/Routing.antt =====
-- What a client of server/sharded_server.go gets for a key of another node.
use titan_distributed_kv.Common.{◌≡◌, ◌≢◌, refl, [], Bytes, codes, bytes_key, same_ne, true, false}
use titan_distributed_kv.Common.Errors.{Result, ok, err}
use titan_distributed_kv.Storage.Exec.{Store}
use titan_distributed_kv.Storage.Bitcask
use titan_distributed_kv.Raft.{Fsm}
use titan_distributed_kv.Sharding.Ring.{NodeInfo, Nodes}
use titan_distributed_kv.Sharding.Membership.{
  Membership, is_local_node, get_client, get_target_node,
}
use titan_distributed_kv.Server.{GetResponse, not_found, get}
use titan_distributed_kv.Server.EndToEnd.{shown, get_reply-get}
use titan_distributed_kv.Server.Sharded.{Remote, relayed, forward_get, sharded_get}

-- The response that a forwarding server makes of the owner's answer.
abbrev pub relay : Result Bytes → GetResponse
relay (ok value) = record { found = true; value = value; error = [] }
relay (err _) = not_found (codes "forwarded request failed: key not found")

relayed-shown : (r : Result Bytes) → relayed (shown r) ≡ relay r
unfolding relayed bytes_key
relayed-shown (ok value) = refl
relayed-shown (err e) = refl

forward_get-answered :
    (remote : Remote) (m : Membership) (key : Bytes) (target : NodeInfo) (client : Bytes)
    (owner : Store)
    → key ≢ []
    → get_client target.node_id m ≡ ok client
    → remote.get client key ≡ ok (get key owner)
    → forward_get remote m target key ≡ relay (Bitcask.get key owner)
unfolding forward_get
forward_get-answered remote m key target client owner ne connected answer =
    rw (forward_get, connected, answer, get_reply-get owner key ne)
      (relayed-shown (Bitcask.get key owner))

-- A server forwards `Get` of a key that is not empty to the node that the ring gives for it, when that is
-- another node with a client whose RPC is answered by its own server: then the response has the value of
-- that node's engine or, where that has none, the error "forwarded request failed: key not found".
pub sharded_get-forwarded :
    (remote : Remote) (m : Membership) (sum256 : Bytes → Bytes) (range : Nodes → Nodes)
    (key : Bytes) (f : Fsm) (target : NodeInfo) (client : Bytes) (owner : Store)
    → key ≢ []
    → get_target_node sum256 range key m ≡ ok target
    → is_local_node target.node_id m ≡ false
    → get_client target.node_id m ≡ ok client
    → remote.get client key ≡ ok (get key owner)
    → sharded_get remote m sum256 range key f ≡ relay (Bitcask.get key owner)
unfolding sharded_get
sharded_get-forwarded remote m sum256 range key f target client owner ne at away connected answer =
    rw (same_ne key [] ne, at, away)
      (forward_get-answered remote m key target client owner ne connected answer)
