-- ===== src/Sharding/Ring/Agreement.antt =====
-- Two rings of sharding/ring.go with the same node ids give a key to the same node id, whatever else they
-- hold of the nodes: each process keeps a ring of its own, with leaders of its own.
use titan_distributed_kv.Common.{
  ℕ, ◌≡◌, refl, sym, ap, ◌∙◌, inl, inr, Bytes, bytes_key, Option, none, some, Has, arith,
}
use titan_distributed_kv.Common.Int.{ℤ}
use titan_distributed_kv.Common.Errors.{ok}
use titan_distributed_kv.Common.Maps
use titan_distributed_kv.Common.Maps.{IsVisit, lookup-nil, lookup-insert_cases, lookup-erase_cases}
use titan_distributed_kv.Sharding.Ring.{
  NodeInfo, joining, Nodes, HashRing, hash_key, get_node, new_hash_ring, add_node, add_if_absent,
  rebuild_sorted_keys,
}
use titan_distributed_kv.Sharding.Ring.Points.{Point, IsRing}
use titan_distributed_kv.Sharding.Ring.Owner.{IsOwner, get_node-IsOwner}
use titan_distributed_kv.Sharding.Ring.Part.{
  NoCollision, IsNearest-sub, IsNearest-unique, get_node-found_IsOwner,
}

-- Every node of the ring stands there under its own id.
abbrev pub IsNamed : HashRing → Type 0
IsNamed r = (id : Bytes) (info : NodeInfo) → Maps.lookup id r.nodes ≡ some info → info.node_id ≡ id

pub new_hash_ring-IsNamed : (replicas : ℤ) → IsNamed (new_hash_ring replicas)
unfolding new_hash_ring
new_hash_ring-IsNamed replicas id info e = absurd (cc (lookup-nil {V = NodeInfo} id, e))

module _ (sum256 : Bytes → Bytes) (range : Nodes → Nodes) where
  add_if_absent-IsNamed :
      (id address raft_addr : Bytes) (r : HashRing) (o : Option NodeInfo)
      → IsNamed r
      → IsNamed (add_if_absent sum256 range id address raft_addr r o)
  unfolding add_if_absent rebuild_sorted_keys
  add_if_absent-IsNamed id address raft_addr r (some _) named j info e = named j info e
  add_if_absent-IsNamed id address raft_addr r none named j info e =
      elim (lookup-insert_cases j id (joining id address raft_addr) info r.nodes e) [
        | inl (is_id, is_new) ↦ cc (is_id, is_new)
        | inr (ne, old) ↦ named j info old
      ]

  pub add_node-IsNamed :
      (id address raft_addr : Bytes) (r : HashRing)
      → IsNamed r
      → IsNamed (add_node sum256 range id address raft_addr r)
  unfolding add_node
  add_node-IsNamed id address raft_addr r named =
      add_if_absent-IsNamed id address raft_addr r (Maps.lookup id r.nodes) named

-- `s` has a node for each id of `r`, with as many virtual nodes.
abbrev pub HasIds : HashRing → HashRing → Type 0
HasIds s r =
    (id : Bytes) (info : NodeInfo)
    → Maps.lookup id r.nodes ≡ some info
    → (other : NodeInfo) × (Maps.lookup id s.nodes ≡ some other)

module _ (sum256 : Bytes → Bytes) (r s : HashRing) (ring_r : IsRing sum256 r)
    (ring_s : IsRing sum256 s) (replicas : r.replicas ≡ s.replicas) (to_s : HasIds s r)
    (to_r : HasIds r s) (distinct : NoCollision sum256 r) where
  point_of :
      (p : ℕ) (q : Point sum256 s.replicas s.nodes p)
      → (t : Point sum256 r.replicas r.nodes p) × (t.owner ≡ q.owner)
  point_of p q =
      let (info, member) = to_r q.owner q.info q.member in
      (
        record {
          owner = q.owner;
          info = info;
          replica = q.replica;
          member = member;
          in_range = omega (arith, q.in_range, replicas);
          hash = q.hash;
        },
        refl,
      )

  keys_of : (p : ℕ) → Has p r.sorted_keys → Has p s.sorted_keys
  keys_of p has =
      let q = (ring_r.points p).0 has in
      let (info, member) = to_s q.owner q.info q.member in
      (ring_s.points p).1 (record {
        owner = q.owner;
        info = info;
        replica = q.replica;
        member = member;
        in_range = omega (arith, q.in_range, replicas);
        hash = q.hash;
      })

  same_owner :
      (key : Bytes) (info other : NodeInfo) (o : IsOwner sum256 r key info)
      (o' : IsOwner sum256 s key other)
      → o.point.owner ≡ o'.point.owner
  same_owner key info other o o' =
      let (t, is_owner) = point_of o'.p o'.point in
      let in_r =
        IsNearest-sub (hash_key sum256 key) o'.p s.sorted_keys r.sorted_keys keys_of o'.nearest
          ((ring_r.points o'.p).1 t) in
      let same_point =
        IsNearest-unique (hash_key sum256 key) o'.p o.p r.sorted_keys in_r o.nearest in
      distinct o.p o.point (record {
        owner = t.owner;
        info = t.info;
        replica = t.replica;
        member = t.member;
        in_range = t.in_range;
        hash = t.hash ∙ same_point;
      })
      ∙ is_owner

  -- Two rings with the same ids, each under its own name, and as many virtual nodes, of which no two have a
  -- point in common: where one gives a key to a node, the other gives it to a node with the same id, in
  -- whatever orders the two visit their nodes.
  pub get_node-agree :
      (before after : Nodes → Nodes) (key : Bytes) (info : NodeInfo)
      → IsVisit before
      → IsVisit after
      → IsNamed r
      → IsNamed s
      → get_node sum256 before key r ≡ ok info
      → (other : NodeInfo) × (get_node sum256 after key s ≡ ok other)
        × (other.node_id ≡ info.node_id)
  get_node-agree before after key info visit visit' named_r named_s e =
      let o = get_node-found_IsOwner sum256 before key r info visit ring_r e in
      let (i, there) = to_s o.point.owner o.point.info o.point.member in
      let (other, at, o') =
        get_node-IsOwner sum256 after key s o.point.owner i visit' ring_s there in
      (
        other,
        at,
        sym (ap (λ n. n.node_id) o'.info_of_point)
            ∙ named_s o'.point.owner o'.point.info o'.point.member
            ∙ sym (same_owner key info other o o')
            ∙ sym (named_r o.point.owner o.point.info o.point.member)
            ∙ ap (λ n. n.node_id) o.info_of_point,
      )
