-- ===== src/Cmd/Peers/Own.antt =====
-- The membership that cmd/server/main.go starts with when the flag `-peers` is empty: the node alone.
use titan_distributed_kv.Common.{
  ℕ, ◌≡◌, refl, ap, subst, [], Bytes, bytes_key, same_refl, Option, some, arith,
}
use titan_distributed_kv.Common.Errors.{Error, ok}
use titan_distributed_kv.Common.Int.{pos}
use titan_distributed_kv.Common.Maps
use titan_distributed_kv.Common.Maps.{lookup-insert, lookup-nil}
use titan_distributed_kv.Sharding.Ring
use titan_distributed_kv.Sharding.Ring.{NodeInfo, Nodes, joining, new_hash_ring}
use titan_distributed_kv.Sharding.Membership.{Membership, new_membership, add_node}
use titan_distributed_kv.Cmd.Peers.{start_membership, with_peers}

-- The local node is the only one of the ring.
abbrev pub IsAlone : Membership → Type 0
IsAlone m =
    (id : Bytes) (info : NodeInfo) → Maps.lookup id m.ring.nodes ≡ some info → id ≡ m.local_node_id

module _ (sum256 : Bytes → Bytes) (range : ℕ → Nodes → Nodes) (connect : Bytes → Option Error)
    (id address raft_addr : Bytes) where
  abbrev own_membership : Membership
  own_membership = record (new_membership id address) {
    ring = Ring.add_node sum256 (range 0) id address raft_addr (new_hash_ring (pos 150));
  }

  own_nodes : own_membership.ring.nodes ≡ Maps.insert id (joining id address raft_addr) []
  unfolding Ring.add_node Ring.add_if_absent Ring.rebuild_sorted_keys new_hash_ring Maps.lookup
  own_nodes = refl

  own_membership-IsAlone : IsAlone own_membership
  unfolding new_membership
  own_membership-IsAlone j info e = ground (
    arith,
    ap (Maps.lookup j) own_nodes,
    lookup-insert j id (joining id address raft_addr) [],
    lookup-nil {V = NodeInfo} j,
  )

  start_membership-own :
      start_membership sum256 range connect id address raft_addr [] ≡ ok own_membership
  unfolding start_membership with_peers add_node new_membership
  start_membership-own = rw (same_refl id, same_refl {A = Bytes} []) refl

  pub start_membership-IsAlone :
      (m : Membership)
      → start_membership sum256 range connect id address raft_addr [] ≡ ok m
      → IsAlone m
  start_membership-IsAlone m is =
      let same_one : own_membership ≡ m = cc (start_membership-own, is) in
      subst IsAlone same_one own_membership-IsAlone
