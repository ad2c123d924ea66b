-- ===== src/Cmd/Server/Ticks.antt =====
-- A node of cmd/server/main.go keeps its membership in order while its ticker updates its leader status.
use titan_distributed_kv.Common.{
  ℕ, ◌≡◌, refl, sym, ap, subst, ◌∙◌, ◌↔◌, inl, inr, List, [], ◌∷◌, Bytes, bytes_key, Bool, Option,
  none, some, arith,
}
use titan_distributed_kv.Common.Errors.{Error}
use titan_distributed_kv.Common.Maps
use titan_distributed_kv.Common.Maps.{
  IsVisit, NodupKeys, insert-NodupKeys, lookup-insert, lookup-insert_cases,
}
use titan_distributed_kv.Sharding.Ring.{NodeInfo, Nodes, HashRing, update_node_leader}
use titan_distributed_kv.Sharding.Ring.Points.{Point, IsRing}
use titan_distributed_kv.Sharding.Ring.Agreement.{IsNamed}
use titan_distributed_kv.Sharding.Membership.{Membership, update_leader}
use titan_distributed_kv.Cmd.Peers.Joined.{IsJoined}
use titan_distributed_kv.Cmd.Peers.Own.{IsAlone}

update_absent :
    (id : Bytes) (leads : Bool) (r : HashRing)
    → Maps.lookup id r.nodes ≡ none
    → update_node_leader id leads r ≡ r
unfolding update_node_leader
update_absent id leads r e = rw (update_node_leader, e) refl

update_present :
    (id : Bytes) (leads : Bool) (r : HashRing) (old : NodeInfo)
    → Maps.lookup id r.nodes ≡ some old
    → update_node_leader id leads r
      ≡ record r { nodes = Maps.insert id (record old { is_leader = leads }) r.nodes }
unfolding update_node_leader
update_present id leads r old e = rw (update_node_leader, e) refl

-- What holds of a ring and of the one in which an entry is replaced holds when a leader status is updated.
update_node_leader-cases :
    (P : HashRing → Type 0) (id : Bytes) (leads : Bool) (r : HashRing) (o : Option NodeInfo)
    → Maps.lookup id r.nodes ≡ o
    → P r
    → ((old : NodeInfo)
        → Maps.lookup id r.nodes ≡ some old
        → P (record r { nodes = Maps.insert id (record old { is_leader = leads }) r.nodes }))
    → P (update_node_leader id leads r)
update_node_leader-cases P id leads r none e same_ring replaced =
    subst P (sym (update_absent id leads r e)) same_ring
update_node_leader-cases P id leads r (some old) e same_ring replaced =
    subst P (sym (update_present id leads r old e)) (replaced old e)

-- A node's entry is replaced.
module _ (id : Bytes) (old new : NodeInfo) (nodes : Nodes)
    (found : Maps.lookup id nodes ≡ some old) where
  replaced-some :
      (j : Bytes) (info : NodeInfo)
      → Maps.lookup j nodes ≡ some info
      → (after : NodeInfo) × (Maps.lookup j (Maps.insert id new nodes) ≡ some after)
  replaced-some j info e = elim (bytes_key.dec id j) [
    | yes p ↦ (new, ground (arith, lookup-insert j id new nodes))
    | no q ↦ (info, ground (arith, lookup-insert j id new nodes))
  ]

  replaced-was :
      (j : Bytes) (after : NodeInfo)
      → Maps.lookup j (Maps.insert id new nodes) ≡ some after
      → (info : NodeInfo) × (Maps.lookup j nodes ≡ some info)
  replaced-was j after e = elim (lookup-insert_cases j id new after nodes e) [
    | inl (is_id, _) ↦ (old, ap (λ k. Maps.lookup k nodes) (sym is_id) ∙ found)
    | inr (_, kept) ↦ (after, kept)
  ]

  -- The points of a ring are those of its names.
  replaced-Point :
      (sum256 : Bytes → Bytes) (replicas p : ℕ)
      → Point sum256 replicas nodes p ↔ Point sum256 replicas (Maps.insert id new nodes) p
  replaced-Point sum256 replicas p = (
    λ t.
        let (info, e) = replaced-some t.owner t.info t.member in
        record {
          owner = t.owner;
          info = info;
          replica = t.replica;
          member = e;
          in_range = t.in_range;
          hash = t.hash;
        },
    λ t.
        let (info, e) = replaced-was t.owner t.info t.member in
        record {
          owner = t.owner;
          info = info;
          replica = t.replica;
          member = e;
          in_range = t.in_range;
          hash = t.hash;
        },
  )

module _ (id : Bytes) (leads : Bool) (r : HashRing) where
  pub update_node_leader-IsRing :
      (sum256 : Bytes → Bytes) → IsRing sum256 r → IsRing sum256 (update_node_leader id leads r)
  update_node_leader-IsRing sum256 v =
      update_node_leader-cases (IsRing sum256) id leads r (Maps.lookup id r.nodes) refl v
        (λ old found. record {
          sorted = v.sorted;
          nodup = insert-NodupKeys id (record old { is_leader = leads }) r.nodes v.nodup;
          some_replicas = v.some_replicas;
          points = λ p.
              let (to, from) = v.points p in
              let (keeps, was) =
                replaced-Point id old (record old { is_leader = leads }) r.nodes found sum256
                  r.replicas p in
              (λ h. keeps (to h), λ t. from (was t));
        })

  pub update_node_leader-IsNamed : IsNamed r → IsNamed (update_node_leader id leads r)
  update_node_leader-IsNamed named =
      update_node_leader-cases IsNamed id leads r (Maps.lookup id r.nodes) refl named
        (λ old found j info e.
          elim (lookup-insert_cases j id (record old { is_leader = leads }) info r.nodes e) [
            | inl (is_id, is_new) ↦ ap (λ n. n.node_id) (sym is_new) ∙ named id old found ∙ is_id
            | inr (_, kept) ↦ named j info kept
          ])

  -- The nodes are the same, by their names.
  abbrev SameNodes : HashRing → Type 0
  SameNodes r' =
      (j : Bytes) (info : NodeInfo)
      → ((Maps.lookup j r.nodes ≡ some info)
          → (after : NodeInfo) × (Maps.lookup j r'.nodes ≡ some after))
        × ((Maps.lookup j r'.nodes ≡ some info)
            → (before : NodeInfo) × (Maps.lookup j r.nodes ≡ some before))

  pub update_node_leader-SameNodes : SameNodes (update_node_leader id leads r)
  update_node_leader-SameNodes =
      update_node_leader-cases SameNodes id leads r (Maps.lookup id r.nodes) refl
        (λ j info. (λ e. (info, e), λ e. (info, e)))
        (λ old found j info. (
          replaced-some id old (record old { is_leader = leads }) r.nodes found j info,
          replaced-was id old (record old { is_leader = leads }) r.nodes found j info,
        ))

-- The node's own leader status, updated again and again
abbrev pub ticked : Bytes → List Bool → Membership → Membership
ticked id [] m = m
ticked id (leads ∷ rest) m = ticked id rest (update_leader id leads m)

module _ (sum256 : Bytes → Bytes) (range : ℕ → Nodes → Nodes) (connect : Bytes → Option Error)
    (visit : (i : ℕ) → IsVisit (range i))
    (reaches : (address : Bytes) → connect address ≡ none) where
  -- A membership in order stays in order.
  pub update_leader-IsJoined :
      (id : Bytes) (leads : Bool) (m : Membership)
      → IsJoined sum256 range connect visit reaches m
      → IsJoined sum256 range connect visit reaches (update_leader id leads m)
  unfolding update_leader
  update_leader-IsJoined id leads m j = record {
    ring = update_node_leader-IsRing id leads m.ring sum256 j.ring;
    named = update_node_leader-IsNamed id leads m.ring j.named;
    connected = λ k info e away.
        let (_, was) = update_node_leader-SameNodes id leads m.ring k info in
        let (before, e') = was e in j.connected k before e' away;
    here =
        let (info, e) = j.here in
        let (stays, _) = update_node_leader-SameNodes id leads m.ring m.local_node_id info in
        stays e;
  }

  -- The membership after ticks of the leader status.
  pub ticked-IsJoined :
      (id : Bytes) (leads : List Bool) (m : Membership)
      → IsJoined sum256 range connect visit reaches m
      → IsJoined sum256 range connect visit reaches (ticked id leads m)
  ticked-IsJoined id [] m j = j
  ticked-IsJoined id (b ∷ leads) m j =
      ticked-IsJoined id leads (update_leader id b m) (update_leader-IsJoined id b m j)

pub update_leader-IsAlone :
    (id : Bytes) (leads : Bool) (m : Membership) → IsAlone m → IsAlone (update_leader id leads m)
unfolding update_leader
update_leader-IsAlone id leads m alone j info e =
    let (_, was) = update_node_leader-SameNodes id leads m.ring j info in
    let (before, e') = was e in alone j before e'
