-- ===== src/Sharding/Membership.antt =====
-- The membership service of sharding/membership.go, but `RefreshClients`. A client stands for its
-- connection, by the address that it was made for; closing one has no effect here. The mutex is left
-- out: a method holds it throughout.
pub mod Connected
use titan_distributed_kv.Common.{
  ℕ, Bytes, bytes_key, same, Bool, Option, none, some, List, [], if◌then◌else◌,
}
use titan_distributed_kv.Common.Int.{ℤ, pos}
use titan_distributed_kv.Common.Errors.{Error, new, named, wrap_named, wrap, Result, ok, err}
use titan_distributed_kv.Common.Maps
use titan_distributed_kv.Common.Maps.{Map}
use titan_distributed_kv.Sharding.Ring
use titan_distributed_kv.Sharding.Ring.Replicas.{get_replicas}
use titan_distributed_kv.Sharding.Ring.{NodeInfo, Nodes, HashRing, new_hash_ring}

-- MembershipService
pub record Membership : Type 0 where
  pub ring : HashRing
  pub local_node_id : Bytes
  pub local_addr : Bytes
  pub clients : Map Bytes Bytes

-- NewMembershipService
unfoldable pub new_membership : Bytes → Bytes → Membership
new_membership local_node_id local_addr = record {
  ring = new_hash_ring (pos 150);
  local_node_id = local_node_id;
  local_addr = local_addr;
  clients = [];
}

-- IsLocalNode
unfoldable pub is_local_node : Bytes → Membership → Bool
is_local_node node_id m = same node_id m.local_node_id

-- UpdateLeader
unfoldable pub update_leader : Bytes → Bool → Membership → Membership
update_leader node_id is_leader m = record m {
  ring = Ring.update_node_leader node_id is_leader m.ring;
}

-- GetAllNodes
unfoldable pub membership_nodes : (Nodes → Nodes) → Membership → List NodeInfo
membership_nodes range m = Ring.get_all_nodes range m.ring

-- GetClient
unfoldable pub get_client : Bytes → Membership → Result Bytes
get_client node_id m =
    if same node_id m.local_node_id
    then err (new "cannot get client for local node")
    else elim (Maps.lookup node_id m.clients) [
      | none ↦ err (named "client for node " node_id " not found")
      | some client ↦ ok client
    ]

-- Close
unfoldable pub close : Membership → Membership
close m = record m { clients = [] }

-- GetTargetNode, with the ring's `sum256` and `range`
unfoldable pub get_target_node :
    (Bytes → Bytes) → (Nodes → Nodes) → Bytes → Membership → Result NodeInfo
get_target_node sum256 range key m = Ring.get_node sum256 range key m.ring

module _ (sum256 : Bytes → Bytes) (range : Nodes → Nodes) where
  -- RemoveNode
  unfoldable pub remove_node : Bytes → Membership → Membership
  remove_node node_id m = record m {
    ring = Ring.remove_node sum256 range node_id m.ring;
    clients = Maps.erase node_id m.clients;
  }

-- GetReplicas, with an order of visiting the nodes for each round
unfoldable pub replica_nodes :
    (Bytes → Bytes) → (ℕ → Nodes → Nodes) → Bytes → ℤ → Membership → Result (List NodeInfo)
replica_nodes sum256 range key n m = get_replicas sum256 range key n m.ring

-- `connect` is `grpc.NewClient`, by the error that it returns; `sum256` and `range` are the ring's.
module _ (sum256 : Bytes → Bytes) (range : Nodes → Nodes) (connect : Bytes → Option Error) where
  -- AddNode, behind the ring's: the client of a node that is not the local one.
  unfoldable pub add_client :
      Bytes → Bytes → Membership → Option Error → Result (Unit {0}) × Membership
  add_client node_id address m (some e) =
      (err (wrap_named "failed to create client for node " node_id (wrap "failed to connect" e)), m)
  add_client node_id address m none =
      (ok tt, record m { clients = Maps.insert node_id address m.clients })

  -- AddNode
  unfoldable pub add_node : Bytes → Bytes → Bytes → Membership → Result (Unit {0}) × Membership
  unfolding add_client
  add_node node_id address raft_addr m =
      let m' = record m { ring = Ring.add_node sum256 range node_id address raft_addr m.ring } in
      if same node_id m.local_node_id
      then (ok tt, m')
      else add_client node_id address m' (connect address)
