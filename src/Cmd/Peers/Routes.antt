-- ===== src/Cmd/Peers/Routes.antt =====
-- A node that cmd/server/main.go starts has a way to the owner of every key.
use titan_distributed_kv.Common.{
  ℕ, ◌≡◌, ◌≢◌, refl, ap, ◌∙◌, Bytes, bytes_key, same_refl, same_ne, true, false, Option, none, some,
}
use titan_distributed_kv.Common.Errors.{Error, ok}
use titan_distributed_kv.Common.Maps
use titan_distributed_kv.Common.Maps.{IsVisit}
use titan_distributed_kv.Sharding.Ring.{NodeInfo, Nodes}
use titan_distributed_kv.Sharding.Ring.Owner.{get_node-IsOwner}
use titan_distributed_kv.Sharding.Membership.{
  Membership, is_local_node, get_client, get_target_node,
}
use titan_distributed_kv.Cmd.Peers.{start_membership}
use titan_distributed_kv.Cmd.Peers.Joined.{IsJoined, start_membership-IsJoined}

-- A key goes to the node itself, or to another one by a client.
pub data Routed (m : Membership) (target : NodeInfo) : Type 0 where
  locally : is_local_node target.node_id m ≡ true → Routed m target
  by_client :
      (client : Bytes)
      → is_local_node target.node_id m ≡ false
      → get_client target.node_id m ≡ ok client
      → Routed m target

get_client_found :
    (id client : Bytes) (m : Membership)
    → id ≢ m.local_node_id
    → Maps.lookup id m.clients ≡ some client
    → get_client id m ≡ ok client
unfolding get_client
get_client_found id client m away found = rw (same_ne id m.local_node_id away, found) refl

module _ (sum256 : Bytes → Bytes) (range : ℕ → Nodes → Nodes) (connect : Bytes → Option Error)
    (visit : (i : ℕ) → IsVisit (range i))
    (reaches : (address : Bytes) → connect address ≡ none) where
  member-Routed :
      (m : Membership) (target : NodeInfo)
      → IsJoined sum256 range connect visit reaches m
      → Maps.lookup target.node_id m.ring.nodes ≡ some target
      → Routed m target
  unfolding is_local_node
  member-Routed m target j member = elim (bytes_key.dec target.node_id m.local_node_id) [
    | yes here ↦ locally (rw here (same_refl m.local_node_id))
    | no away ↦
        let (client, found) = j.connected target.node_id target member away in
        by_client client (same_ne target.node_id m.local_node_id away)
          (get_client_found target.node_id client m away found)
  ]

  pub IsJoined-Routed :
      (order : Nodes → Nodes) (key : Bytes) (m : Membership)
      → IsVisit order
      → IsJoined sum256 range connect visit reaches m
      → (target : NodeInfo) × (get_target_node sum256 order key m ≡ ok target) × Routed m target
  unfolding get_target_node
  IsJoined-Routed order key m in_order j =
      let (info, here) = j.here in
      let (target, at, owner) =
        get_node-IsOwner sum256 order key m.ring m.local_node_id info in_order j.ring here in
      let member = owner.point.member ∙ ap some owner.info_of_point in
      let named = j.named owner.point.owner target member in
      (target, at, member-Routed m target j (ap (λ id. Maps.lookup id m.ring.nodes) named ∙ member))

  -- Where every address has a client and every order visits the nodes of the ring: whatever its flags say, a node
  -- that `main` of cmd/server starts has a target for every key, which is the node itself or one that it
  -- has a client for; so none of its requests fails for lack of a target or of a client.
  pub start_membership-Routed :
      (node_id grpc_addr raft_addr peers : Bytes) (order : Nodes → Nodes) (key : Bytes)
      → IsVisit order
      → (m : Membership) × (start_membership sum256 range connect node_id grpc_addr raft_addr peers
          ≡ ok m)
        × ((target : NodeInfo) × (get_target_node sum256 order key m ≡ ok target) × Routed m target)
  start_membership-Routed node_id grpc_addr raft_addr peers order key in_order =
      let (m, started, j) =
        start_membership-IsJoined sum256 range connect visit reaches node_id grpc_addr raft_addr
          peers in
      (m, started, IsJoined-Routed order key m in_order j)
