-- ===== src/Cmd/Peers/Joined.antt =====
-- Whatever the flag `-peers` says, the membership of cmd/server/main.go starts with a ring in order.
use titan_distributed_kv.Common.{
  ℕ, suc, ◌≡◌, refl, sym, ap, ◌∙◌, subst, arith, inl, inr, Bytes, bytes_key, same, same_refl,
  Bool-cases, Option, none, some, List, [], ◌∷◌,
}
use titan_distributed_kv.Common.Errors.{Error, Result, ok, err}
use titan_distributed_kv.Common.Int.{pos}
use titan_distributed_kv.Common.Maps
use titan_distributed_kv.Common.Maps.{IsVisit, lookup-insert}
use titan_distributed_kv.Sharding.Ring
use titan_distributed_kv.Sharding.Ring.{NodeInfo, Nodes, HashRing, joining, new_hash_ring}
use titan_distributed_kv.Sharding.Ring.Points.{IsRing, new_hash_ring-IsRing, add_node-IsRing}
use titan_distributed_kv.Sharding.Ring.Agreement.{IsNamed, new_hash_ring-IsNamed, add_node-IsNamed}
use titan_distributed_kv.Sharding.Membership.{Membership, new_membership, add_node, add_client}
use titan_distributed_kv.Sharding.Membership.Connected.{
  IsConnected, new_membership-IsConnected, add_node-IsConnected,
}
use titan_distributed_kv.Cmd.Text.{split, trim_space}
use titan_distributed_kv.Cmd.Peers.{add_parts, add_peer, add_peers, with_peers, start_membership}

add_if_absent_old :
    (sum256 : Bytes → Bytes) (range : Nodes → Nodes) (id address raft_addr j : Bytes) (r : HashRing)
    (info : NodeInfo) (o : Option NodeInfo)
    → Maps.lookup id r.nodes ≡ o
    → Maps.lookup j r.nodes ≡ some info
    → Maps.lookup j (Ring.add_if_absent sum256 range id address raft_addr r o).nodes ≡ some info
unfolding Ring.add_if_absent Ring.rebuild_sorted_keys
add_if_absent_old sum256 range id address raft_addr j r info (some _) at e = e
add_if_absent_old sum256 range id address raft_addr j r info none at e =
    ground (arith, lookup-insert j id (joining id address raft_addr) r.nodes)

-- A ring keeps the nodes that it has, when one is added.
add_node_old :
    (sum256 : Bytes → Bytes) (range : Nodes → Nodes) (id address raft_addr j : Bytes) (r : HashRing)
    (info : NodeInfo)
    → Maps.lookup j r.nodes ≡ some info
    → Maps.lookup j (Ring.add_node sum256 range id address raft_addr r).nodes ≡ some info
unfolding Ring.add_node
add_node_old sum256 range id address raft_addr j r info e =
    add_if_absent_old sum256 range id address raft_addr j r info (Maps.lookup id r.nodes) refl e

module _ (sum256 : Bytes → Bytes) (range : ℕ → Nodes → Nodes) (connect : Bytes → Option Error)
    (visit : (i : ℕ) → IsVisit (range i))
    (reaches : (address : Bytes) → connect address ≡ none) where
  -- A membership in order: its ring has the points of its nodes, each node under its own name and the local
  -- one among them, and there is a client for every node but the local one.
  pub record IsJoined (m : Membership) : Type 0 where
    pub ring : IsRing sum256 m.ring
    pub named : IsNamed m.ring
    pub connected : IsConnected m
    pub here : (info : NodeInfo) × (Maps.lookup m.local_node_id m.ring.nodes ≡ some info)

  add_node_succeeds :
      (i : ℕ) (id address raft_addr : Bytes) (m : Membership)
      → (add_node sum256 (range i) connect id address raft_addr m).0 ≡ ok tt
  unfolding add_node add_client
  add_node_succeeds i id address raft_addr m = elim (Bool-cases (same id m.local_node_id)) [
    | inl t ↦ rw t refl
    | inr t ↦ rw (t, reaches address) refl
  ]

  add_node_ring :
      (i : ℕ) (id address raft_addr : Bytes) (m : Membership)
      → (add_node sum256 (range i) connect id address raft_addr m).1.ring
        ≡ Ring.add_node sum256 (range i) id address raft_addr m.ring
  unfolding add_node add_client
  add_node_ring i id address raft_addr m = elim (Bool-cases (same id m.local_node_id)) [
    | inl t ↦ rw t refl
    | inr t ↦ rw (t, reaches address) refl
  ]

  add_node_local :
      (i : ℕ) (id address raft_addr : Bytes) (m : Membership)
      → (add_node sum256 (range i) connect id address raft_addr m).1.local_node_id ≡ m.local_node_id
  unfolding add_node add_client
  add_node_local i id address raft_addr m = elim (Bool-cases (same id m.local_node_id)) [
    | inl t ↦ rw t refl
    | inr t ↦ rw (t, reaches address) refl
  ]

  abbrev added : ℕ → Bytes → Bytes → Bytes → Membership → HashRing
  added i id address raft_addr m = Ring.add_node sum256 (range i) id address raft_addr m.ring

  -- A node that is added leaves the membership in order, when the ring has the local node then.
  added-IsJoined :
      (i : ℕ) (id address raft_addr : Bytes) (m : Membership) (info : NodeInfo)
      → IsRing sum256 m.ring
      → IsNamed m.ring
      → IsConnected m
      → Maps.lookup m.local_node_id (added i id address raft_addr m).nodes ≡ some info
      → IsJoined (add_node sum256 (range i) connect id address raft_addr m).1
  added-IsJoined i id address raft_addr m info ring named connected here = record {
    ring =
        subst (IsRing sum256) (sym (add_node_ring i id address raft_addr m))
          (add_node-IsRing sum256 (range i) id address raft_addr m.ring (visit i) ring);
    named =
        subst IsNamed (sym (add_node_ring i id address raft_addr m))
          (add_node-IsNamed sum256 (range i) id address raft_addr m.ring named);
    connected =
        add_node-IsConnected sum256 (range i) connect id address raft_addr m connected
          (add_node_succeeds i id address raft_addr m);
    here = (
      info,
      ap
            (λ j.
              Maps.lookup j (add_node sum256 (range i) connect id address raft_addr m).1.ring.nodes)
            (add_node_local i id address raft_addr m)
          ∙ ap (λ r. Maps.lookup m.local_node_id r.nodes) (add_node_ring i id address raft_addr m)
          ∙ here,
    );
  }

  add_node-IsJoined :
      (i : ℕ) (id address raft_addr : Bytes) (m : Membership)
      → IsJoined m
      → IsJoined (add_node sum256 (range i) connect id address raft_addr m).1
  add_node-IsJoined i id address raft_addr m j =
      let (info, here) = j.here in
      added-IsJoined i id address raft_addr m info j.ring j.named j.connected
        (add_node_old sum256 (range i) id address raft_addr m.local_node_id m.ring info here)

  local_found :
      (i : ℕ) (id address raft_addr : Bytes)
      → Maps.lookup id
          (Ring.add_node sum256 (range i) id address raft_addr (new_hash_ring (pos 150))).nodes
        ≡ some (joining id address raft_addr)
  unfolding Ring.add_node Ring.add_if_absent Ring.rebuild_sorted_keys new_hash_ring Maps.lookup
      Maps.insert
  local_found i id address raft_addr = rw (same_refl id) refl

  local-IsJoined :
      (i : ℕ) (id address raft_addr : Bytes)
      → IsJoined
          (add_node sum256 (range i) connect id address raft_addr (new_membership id address)).1
  local-IsJoined i id address raft_addr =
      added-IsJoined i id address raft_addr (new_membership id address)
        (joining id address raft_addr)
        (unfold new_membership in new_hash_ring-IsRing sum256 (pos 150))
        (unfold new_membership in new_hash_ring-IsNamed (pos 150))
        (new_membership-IsConnected sum256 (range i) id address)
        (unfold new_membership in local_found i id address raft_addr)

  add_parts-IsJoined :
      (i : ℕ) (parts : List Bytes) (m : Membership)
      → IsJoined m
      → IsJoined (add_parts sum256 range connect i parts m)
  unfolding add_parts
  add_parts-IsJoined i [] m j = j
  add_parts-IsJoined i (_ ∷ []) m j = j
  add_parts-IsJoined i (_ ∷ _ ∷ []) m j = j
  add_parts-IsJoined i (id ∷ address ∷ raft_addr ∷ []) m j =
      add_node-IsJoined i id address raft_addr m j
  add_parts-IsJoined i (_ ∷ _ ∷ _ ∷ _ ∷ _) m j = j

  add_peer-IsJoined :
      (i : ℕ) (peer : Bytes) (m : Membership)
      → IsJoined m
      → IsJoined (add_peer sum256 range connect i peer m)
  unfolding add_peer
  add_peer-IsJoined i peer m j = elim (Bool-cases (same (trim_space peer) [])) [
    | inl t ↦ rw t j
    | inr t ↦ rw t (add_parts-IsJoined i (split 124 (trim_space peer)) m j)
  ]

  add_peers-IsJoined :
      (i : ℕ) (peers : List Bytes) (m : Membership)
      → IsJoined m
      → IsJoined (add_peers sum256 range connect i peers m)
  unfolding add_peers
  add_peers-IsJoined i [] m j = j
  add_peers-IsJoined i (peer ∷ rest) m j =
      add_peers-IsJoined (suc i) rest (add_peer sum256 range connect i peer m)
        (add_peer-IsJoined i peer m j)

  with_peers-IsJoined :
      (peers : Bytes) (r : Result (Unit {0}) × Membership)
      → r.0 ≡ ok tt
      → IsJoined r.1
      → (m : Membership) × (with_peers sum256 range connect peers r ≡ ok m) × IsJoined m
  unfolding with_peers
  with_peers-IsJoined peers (ok _, m) e j = elim (Bool-cases (same peers [])) [
    | inl t ↦ (m, rw t refl, j)
    | inr t ↦ (
      add_peers sum256 range connect 1 (split 44 peers) m,
      rw t refl,
      add_peers-IsJoined 1 (split 44 peers) m j,
    )
  ]
  with_peers-IsJoined peers (err _, m) e j = absurd (cc e)

  -- Where every address has a client and every order visits the nodes of the ring: `main` of cmd/server makes
  -- a membership, whatever its flags say; its ring is in order, has each node under its own name and has the
  -- local node, and every other node of the ring has a client.
  pub start_membership-IsJoined :
      (node_id grpc_addr raft_addr peers : Bytes)
      → (m : Membership) × (start_membership sum256 range connect node_id grpc_addr raft_addr peers
          ≡ ok m)
        × IsJoined m
  unfolding start_membership
  start_membership-IsJoined node_id grpc_addr raft_addr peers =
      with_peers-IsJoined peers
        (add_node sum256 (range 0) connect node_id grpc_addr raft_addr
          (new_membership node_id grpc_addr))
        (add_node_succeeds 0 node_id grpc_addr raft_addr (new_membership node_id grpc_addr))
        (local-IsJoined 0 node_id grpc_addr raft_addr)
