-- ===== src/Sharding/Ring/Part.antt =====
-- Rings with the same points: a key goes to the same node of each, if that node is there and no two nodes of the
-- ring share a point.
use titan_distributed_kv.Common.{
  ℕ, ◌≡◌, refl, ap, ◌∙◌, subst, inl, inr, List, [], ◌∷◌, Bytes, bytes_key, some, Has, arith,
}
use titan_distributed_kv.Common.Errors.{ok}
use titan_distributed_kv.Common.Maps
use titan_distributed_kv.Common.Maps.{
  IsVisit, lookup-erase, lookup-erase_cases, lookup-cons, lookup-insert, lookup-insert_cases,
}
use titan_distributed_kv.Sharding.Ring.{NodeInfo, Nodes, HashRing, hash_key, get_node}
use titan_distributed_kv.Sharding.Ring.Points.{Point, IsRing}
use titan_distributed_kv.Sharding.Ring.Nearest.{IsNearest}
use titan_distributed_kv.Sharding.Ring.Owner.{IsOwner, get_node-IsOwner}

pub IsNearest-sub :
    (h p : ℕ) (keys fewer : List ℕ)
    → ((q : ℕ) → Has q fewer → Has q keys)
    → IsNearest h keys p
    → Has p fewer
    → IsNearest h fewer p
IsNearest-sub h p keys fewer sub n here = record {
  here = here;
  nearest = elim n.nearest [
    | inl (le, least) ↦ inl (le, λ q has. least q (sub q has))
    | inr (past, least) ↦ inr (λ q has. past q (sub q has), λ q has. least q (sub q has))
  ];
}

pub IsNearest-unique : (h p q : ℕ) (keys : List ℕ) → IsNearest h keys p → IsNearest h keys q → p ≡ q
IsNearest-unique h p q keys np nq = elim np.nearest [
  | inl (hp, least_p) ↦ elim nq.nearest [
    | inl (hq, least_q) ↦ omega (arith, least_p q nq.here hq, least_q p np.here hp)
    | inr (past, _) ↦ absurd (omega (arith, past p np.here))
  ]
  | inr (past, least_p) ↦ elim nq.nearest [
    | inl (hq, _) ↦ absurd (omega (arith, past q nq.here))
    | inr (_, least_q) ↦ omega (arith, least_p q nq.here, least_q p np.here)
  ]
]

module _ (sum256 : Bytes → Bytes) where
  -- No two nodes of the ring have a point in common.
  abbrev pub NoCollision : HashRing → Type 0
  NoCollision r = (p : ℕ) (a b : Point sum256 r.replicas r.nodes p) → a.owner ≡ b.owner

  -- The nodes of `s` are nodes of `r`, with as many virtual nodes each.
  pub record IsPart (s r : HashRing) : Type 0 where
    pub replicas : s.replicas ≡ r.replicas
    pub members :
        (id : Bytes) (info : NodeInfo)
        → Maps.lookup id s.nodes ≡ some info
        → Maps.lookup id r.nodes ≡ some info

  IsPart-points :
      (s r : HashRing)
      → IsRing sum256 s
      → IsRing sum256 r
      → IsPart s r
      → (p : ℕ) → Has p s.sorted_keys
      → Has p r.sorted_keys
  IsPart-points s r vs vr part p has =
      let q = (vs.points p).0 has in
      (vr.points p).1 (record {
        owner = q.owner;
        info = q.info;
        replica = q.replica;
        member = part.members q.owner q.info q.member;
        in_range = omega (arith, q.in_range, part.replicas);
        hash = q.hash;
      })

  -- A ring with fewer nodes gives a key to the same node, if that one is still there.
  pub IsPart-get_node :
      (range : Nodes → Nodes) (key : Bytes) (s r : HashRing) (info : NodeInfo)
      → IsVisit range
      → IsRing sum256 s
      → IsRing sum256 r
      → NoCollision r
      → IsPart s r
      → (o : IsOwner sum256 r key info) → Maps.lookup o.point.owner s.nodes ≡ some info
      → get_node sum256 range key s ≡ ok info
  IsPart-get_node range key s r info visit vs vr distinct part o still =
      let (found, at, so) = get_node-IsOwner sum256 range key s o.point.owner info visit vs still in
      let kept =
        IsNearest-sub (hash_key sum256 key) o.p r.sorted_keys s.sorted_keys
          (IsPart-points s r vs vr part) o.nearest
          ((vs.points o.p).1 (record {
            owner = o.point.owner;
            info = info;
            replica = o.point.replica;
            member = still;
            in_range = omega (arith, o.point.in_range, part.replicas);
            hash = o.point.hash;
          })) in
      let same_point =
        IsNearest-unique (hash_key sum256 key) so.p o.p s.sorted_keys so.nearest kept in
      let same_owner = distinct o.p o.point (record {
        owner = so.point.owner;
        info = so.point.info;
        replica = so.point.replica;
        member = part.members so.point.owner so.point.info so.point.member;
        in_range = omega (arith, so.point.in_range, part.replicas);
        hash = so.point.hash ∙ same_point;
      }) in
      cc (at, still, so.point.member, so.info_of_point, same_owner)

  pub get_node_nonempty :
      (range : Nodes → Nodes) (key : Bytes) (r : HashRing) (info : NodeInfo) (nodes : Nodes)
      → r.nodes ≡ nodes
      → get_node sum256 range key r ≡ ok info
      → (id : Bytes) × (i : NodeInfo) × (Maps.lookup id r.nodes ≡ some i)
  unfolding get_node
  get_node_nonempty range key r info [] none_there e = absurd (ground (arith, none_there, e))
  get_node_nonempty range key r info ((id, i) ∷ nodes) there e =
      (id, i, ap (Maps.lookup id) there ∙ ground (arith, lookup-cons id id i nodes))

  -- The owner of the key that `GetNode` found.
  pub get_node-found_IsOwner :
      (range : Nodes → Nodes) (key : Bytes) (r : HashRing) (info : NodeInfo)
      → IsVisit range
      → IsRing sum256 r
      → get_node sum256 range key r ≡ ok info
      → IsOwner sum256 r key info
  get_node-found_IsOwner range key r info visit v e =
      let (id, i, member) = get_node_nonempty range key r info r.nodes refl e in
      let (found, at, o) = get_node-IsOwner sum256 range key r id i visit v member in
      let found_info : found ≡ info = cc (at, e) in subst (IsOwner sum256 r key) found_info o

  -- Two orders of visiting the nodes give the same node.
  pub get_node_orders :
      (before after : Nodes → Nodes) (key : Bytes) (r : HashRing) (info : NodeInfo)
      → IsVisit before
      → IsVisit after
      → IsRing sum256 r
      → NoCollision r
      → get_node sum256 before key r ≡ ok info
      → get_node sum256 after key r ≡ ok info
  get_node_orders before after key r info visit visit' v distinct e =
      let o = get_node-found_IsOwner before key r info visit v e in
      IsPart-get_node after key r r info visit' v v distinct
        (record { replicas = refl; members = λ id i member. member }) o
        (o.point.member ∙ ap some o.info_of_point)
