-- ===== src/Sharding/Ring/Movement.antt =====
-- Consistent hashing: a node that joins or leaves the ring of sharding/ring.go moves no key between
-- the other nodes.
use titan_distributed_kv.Common.{
  ◌≡◌, ◌≢◌, ◌⊎◌, refl, sym, ap, ◌∙◌, inl, inr, Bytes, bytes_key, Option, none, some, arith,
}
use titan_distributed_kv.Common.Errors.{ok}
use titan_distributed_kv.Common.Maps
use titan_distributed_kv.Common.Maps.{
  IsVisit, lookup-erase, lookup-erase_cases, lookup-cons, lookup-insert, lookup-insert_cases,
}
use titan_distributed_kv.Sharding.Ring.{
  NodeInfo, joining, Nodes, HashRing, get_node, add_node, add_if_absent, remove_node,
  remove_if_present, rebuild_sorted_keys,
}
use titan_distributed_kv.Sharding.Ring.Points.{IsRing, add_node-IsRing, remove_node-IsRing}
use titan_distributed_kv.Sharding.Ring.Part.{
  NoCollision, IsPart-get_node, get_node-found_IsOwner, get_node_orders,
}

lookup_kept :
    (gone : Bytes) (nodes : Nodes) (b : Bytes) (old info : NodeInfo)
    → Maps.lookup gone nodes ≡ some old
    → some old ≢ some info
    → Maps.lookup b nodes ≡ some info
    → Maps.lookup b (Maps.erase gone nodes) ≡ some info
lookup_kept gone nodes b old info here other e = elim (bytes_key.dec b gone) [
  | yes eq ↦ absurd (other (cc (here, e, eq)))
  | no ne ↦ ground (arith, lookup-erase b gone nodes, e)
]

module _ (sum256 : Bytes → Bytes) where
  lookup_gone :
      (gone : Bytes) (r : HashRing) (id : Bytes) (info : NodeInfo)
      → Maps.lookup id (Maps.erase gone r.nodes) ≡ some info
      → Maps.lookup id r.nodes ≡ some info
  lookup_gone gone r id info e = (lookup-erase_cases id gone info r.nodes e).1

  remove_if_present-keeps :
      (range before after : Nodes → Nodes) (gone key : Bytes) (r : HashRing) (info : NodeInfo)
      (o : Option NodeInfo)
      → IsVisit before
      → IsVisit after
      → IsRing sum256 r
      → IsRing sum256 (remove_if_present sum256 range gone r o)
      → NoCollision sum256 r
      → Maps.lookup gone r.nodes ≡ o
      → o ≢ some info
      → get_node sum256 before key r ≡ ok info
      → get_node sum256 after key (remove_if_present sum256 range gone r o) ≡ ok info
  unfolding remove_if_present rebuild_sorted_keys
  remove_if_present-keeps range before after gone key r info none visit visit' v w distinct here
        other e =
      get_node_orders sum256 before after key r info visit visit' v distinct e
  remove_if_present-keeps range before after gone key r info (some old) visit visit' v w distinct
        here other e =
      let owned = get_node-found_IsOwner sum256 before key r info visit v e in
      IsPart-get_node sum256 after key
        (rebuild_sorted_keys sum256 range (record r { nodes = Maps.erase gone r.nodes })) r info
        visit' w v distinct (record { replicas = refl; members = lookup_gone gone r }) owned
        (lookup_kept gone r.nodes owned.point.owner old info here other
          (owned.point.member ∙ ap some owned.info_of_point))

  -- On a ring on which no two nodes have a point in common, a key that `GetNode` gives to a node is given
  -- to the same node after `RemoveNode` of another one, whether that one was there or not, in whatever
  -- orders the three calls visit the nodes.
  pub remove_node-keeps :
      (range before after : Nodes → Nodes) (gone key : Bytes) (r : HashRing) (info : NodeInfo)
      → IsVisit range
      → IsVisit before
      → IsVisit after
      → IsRing sum256 r
      → NoCollision sum256 r
      → Maps.lookup gone r.nodes ≢ some info
      → get_node sum256 before key r ≡ ok info
      → get_node sum256 after key (remove_node sum256 range gone r) ≡ ok info
  unfolding remove_node
  remove_node-keeps range before after gone key r info visit visit_before visit_after v distinct
        other e =
      remove_if_present-keeps range before after gone key r info (Maps.lookup gone r.nodes)
        visit_before visit_after v (remove_node-IsRing sum256 range gone r visit v) distinct refl
        other e

  lookup_joined :
      (id address raft_addr : Bytes) (r : HashRing) (b : Bytes) (info : NodeInfo)
      → Maps.lookup id r.nodes ≡ none
      → Maps.lookup b r.nodes ≡ some info
      → Maps.lookup b (Maps.insert id (joining id address raft_addr) r.nodes) ≡ some info
  lookup_joined id address raft_addr r b info fresh e =
      ground (arith, lookup-insert b id (joining id address raft_addr) r.nodes, fresh, e)

  add_if_absent_moves :
      (range before after : Nodes → Nodes) (id address raft_addr key : Bytes) (r : HashRing)
      (old new : NodeInfo) (o : Option NodeInfo)
      → IsVisit before
      → IsVisit after
      → IsRing sum256 r
      → IsRing sum256 (add_if_absent sum256 range id address raft_addr r o)
      → NoCollision sum256 (add_if_absent sum256 range id address raft_addr r o)
      → Maps.lookup id r.nodes ≡ o
      → get_node sum256 before key r ≡ ok old
      → get_node sum256 after key (add_if_absent sum256 range id address raft_addr r o) ≡ ok new
      → (new ≡ joining id address raft_addr) ⊎ (new ≡ old)
  unfolding add_if_absent rebuild_sorted_keys
  add_if_absent_moves range before after id address raft_addr key r old new (some _) visit visit' v
        w distinct here was is =
      inr (cc (get_node_orders sum256 before after key r old visit visit' v distinct was, is))
  add_if_absent_moves range before after id address raft_addr key r old new none visit visit' v w
        distinct fresh was is =
      let s : HashRing =
        rebuild_sorted_keys sum256 range
          (record r { nodes = Maps.insert id (joining id address raft_addr) r.nodes }) in
      let owned = get_node-found_IsOwner sum256 after key s new visit' w is in
      elim (lookup-insert_cases owned.point.owner id (joining id address raft_addr) new r.nodes
        (owned.point.member ∙ ap some owned.info_of_point)) [
          | inl (_, is_new) ↦ inl (sym is_new)
          | inr (_, stayed) ↦
              let still =
                IsPart-get_node sum256 before key r s new visit v w distinct
                  (record {
                    replicas = refl;
                    members = λ b info. lookup_joined id address raft_addr r b info fresh;
                  })
                  owned stayed in
              inr (cc (still, was))
        ]

  -- Where `GetNode` finds a node for a key before and after `AddNode`, and no two nodes of the ring after
  -- it have a point in common, the node after is the new one or the same as before, in whatever orders the
  -- three calls visit the nodes.
  pub add_node_moves :
      (range before after : Nodes → Nodes) (id address raft_addr key : Bytes) (r : HashRing)
      (old new : NodeInfo)
      → IsVisit range
      → IsVisit before
      → IsVisit after
      → IsRing sum256 r
      → NoCollision sum256 (add_node sum256 range id address raft_addr r)
      → get_node sum256 before key r ≡ ok old
      → get_node sum256 after key (add_node sum256 range id address raft_addr r) ≡ ok new
      → (new ≡ joining id address raft_addr) ⊎ (new ≡ old)
  unfolding add_node
  add_node_moves range before after id address raft_addr key r old new visit visit_before
        visit_after v distinct was is =
      add_if_absent_moves range before after id address raft_addr key r old new
        (Maps.lookup id r.nodes) visit_before visit_after v
        (add_node-IsRing sum256 range id address raft_addr r visit v) distinct refl was is
