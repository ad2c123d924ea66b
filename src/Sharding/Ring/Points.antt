-- ===== src/Sharding/Ring/Points.antt =====
-- The hashes that stand on the ring of sharding/ring.go: those of the virtual nodes of its nodes.
use titan_distributed_kv.Common.{
  ℕ, zero, suc, ◌+◌, ◌<◌, ◌≡◌, sym, ap, ◌∙◌, subst, ◌↔◌, inl, inr, [], ◌∷◌, Bytes, bytes_key,
  Option, none, some, Has, Has-append_left, Has-append_right, Has-append_cases, arith,
}
use titan_distributed_kv.Common.Int.{ℤ, pos, negsuc}
use titan_distributed_kv.Common.Maps
use titan_distributed_kv.Common.Maps.{
  NodupKeys, IsVisit, lookup-nil, lookup-cons, insert-NodupKeys, erase-NodupKeys,
}
use titan_distributed_kv.Sharding.Sorted.{IsSorted, sort_slice-IsSorted, sort_slice-Has}
use titan_distributed_kv.Sharding.Ring.{
  NodeInfo, joining, Nodes, HashRing, new_hash_ring, hash_node, node_keys, all_keys,
  rebuild_sorted_keys, default_replicas, add_if_absent, add_node, remove_if_present, remove_node,
}

default_replicas-pos : (replicas : ℤ) → 0 < default_replicas replicas
unfolding default_replicas
default_replicas-pos (pos zero) = omega arith
default_replicas-pos (pos (suc n)) = omega arith
default_replicas-pos (negsuc n) = omega arith

module _ (sum256 : Bytes → Bytes) where
  -- A virtual node, with the hash `p`, of one of the nodes.
  pub record Point (replicas : ℕ) (nodes : Nodes) (p : ℕ) : Type 0 where
    pub owner : Bytes
    pub info : NodeInfo
    pub replica : ℕ
    pub member : Maps.lookup owner nodes ≡ some info
    pub in_range : replica < replicas
    pub hash : hash_node sum256 owner replica ≡ p

  -- The sorted keys are the points of the nodes, in order.
  pub record IsRing (r : HashRing) : Type 0 where
    pub sorted : IsSorted r.sorted_keys
    pub nodup : NodupKeys r.nodes
    pub some_replicas : 0 < r.replicas
    pub points : (p : ℕ) → Has p r.sorted_keys ↔ Point r.replicas r.nodes p

  Has-node_keys :
      (id : Bytes) (i n k : ℕ) → k < n → Has (hash_node sum256 id (i + k)) (node_keys sum256 id i n)
  unfolding node_keys
  Has-node_keys id i zero k h = absurd (omega arith)
  Has-node_keys id i (suc n) zero h = inl (ap (hash_node sum256 id) (omega arith))
  Has-node_keys id i (suc n) (suc k) h = inr (
      subst (λ (j : ℕ). Has (hash_node sum256 id j) (node_keys sum256 id (suc i) n)) (omega arith)
        (Has-node_keys id (suc i) n k (omega arith)))

  node_keys-cases :
      (id : Bytes) (i n p : ℕ)
      → Has p (node_keys sum256 id i n)
      → (k : ℕ) × (k < n) × (hash_node sum256 id (i + k) ≡ p)
  unfolding node_keys
  node_keys-cases id i zero p h = absurd h
  node_keys-cases id i (suc n) p (inl e) =
      (0, omega arith, ap (hash_node sum256 id) (omega arith) ∙ e)
  node_keys-cases id i (suc n) p (inr h) =
      let (k, lt, e) = node_keys-cases id (suc i) n p h in
      (suc k, omega arith, ap (hash_node sum256 id) (omega arith) ∙ e)

  pub Point-cons :
      (replicas : ℕ) (id : Bytes) (info : NodeInfo) (nodes : Nodes) (p : ℕ)
      → Maps.lookup id nodes ≡ none
      → Point replicas nodes p
      → Point replicas ((id, info) ∷ nodes) p
  Point-cons replicas id info nodes p fresh q = record {
    owner = q.owner;
    info = q.info;
    replica = q.replica;
    member = ground (arith, lookup-cons q.owner id info nodes, q.member);
    in_range = q.in_range;
    hash = q.hash;
  }

  all_keys-Point :
      (replicas : ℕ) (nodes : Nodes) (p : ℕ)
      → NodupKeys nodes
      → Has p (all_keys sum256 replicas nodes)
      → Point replicas nodes p
  unfolding all_keys
  all_keys-Point replicas [] p u h = absurd h
  all_keys-Point replicas ((id, info) ∷ nodes) p (fresh, u) h =
      elim (Has-append_cases p (node_keys sum256 id 0 replicas) (all_keys sum256 replicas nodes)
        h) [
          | inl here ↦
              let (k, lt, e) = node_keys-cases id 0 replicas p here in
              record {
                owner = id;
                info = info;
                replica = k;
                member = ground (arith, lookup-cons id id info nodes);
                in_range = lt;
                hash = ap (hash_node sum256 id) (omega arith) ∙ e;
              }
          | inr there ↦
              Point-cons replicas id info nodes p fresh (all_keys-Point replicas nodes p u there)
        ]

  Point-all_keys :
      (replicas : ℕ) (nodes : Nodes) (id : Bytes) (info : NodeInfo) (k : ℕ)
      → Maps.lookup id nodes ≡ some info
      → k < replicas
      → Has (hash_node sum256 id k) (all_keys sum256 replicas nodes)
  unfolding all_keys
  Point-all_keys replicas [] id info k e lt = absurd (cc (lookup-nil id, e))
  Point-all_keys replicas ((j, other) ∷ nodes) id info k e lt = elim (bytes_key.dec id j) [
    | yes eq ↦
        Has-append_left (hash_node sum256 id k) (node_keys sum256 j 0 replicas)
          (all_keys sum256 replicas nodes)
          (subst (λ (h : ℕ). Has h (node_keys sum256 j 0 replicas))
            (ap (hash_node sum256 j) (omega arith) ∙ ap (λ b. hash_node sum256 b k) (sym eq))
            (Has-node_keys j 0 replicas k lt))
    | no ne ↦
        Has-append_right (hash_node sum256 id k) (node_keys sum256 j 0 replicas)
          (all_keys sum256 replicas nodes)
          (Point-all_keys replicas nodes id info k (ground (arith, lookup-cons id j other nodes, e))
            lt)
  ]

  pub Point-lookup :
      (replicas : ℕ) (ns ms : Nodes) (p : ℕ)
      → ((id : Bytes) → Maps.lookup id ns ≡ Maps.lookup id ms)
      → Point replicas ns p
      → Point replicas ms p
  Point-lookup replicas ns ms p e q = record {
    owner = q.owner;
    info = q.info;
    replica = q.replica;
    member = sym (e q.owner) ∙ q.member;
    in_range = q.in_range;
    hash = q.hash;
  }

  -- `rebuildSortedKeys` gives a ring on every map of nodes.
  pub rebuild_sorted_keys-IsRing :
      (range : Nodes → Nodes) (r : HashRing)
      → IsVisit range
      → NodupKeys r.nodes
      → 0 < r.replicas
      → IsRing (rebuild_sorted_keys sum256 range r)
  unfolding rebuild_sorted_keys
  rebuild_sorted_keys-IsRing range r visit u replicated = record {
    sorted = sort_slice-IsSorted (all_keys sum256 r.replicas (range r.nodes));
    nodup = u;
    some_replicas = replicated;
    points = λ p. (
      λ h. Point-lookup r.replicas (range r.nodes) r.nodes p (visit.lookup-range r.nodes) (
          all_keys-Point r.replicas (range r.nodes) p (visit.range-NodupKeys r.nodes u)
            ((sort_slice-Has p (all_keys sum256 r.replicas (range r.nodes))).0 h)),
      λ q. (sort_slice-Has p (all_keys sum256 r.replicas (range r.nodes))).1 (
          subst (λ (h : ℕ). Has h (all_keys sum256 r.replicas (range r.nodes))) q.hash
            (Point-all_keys r.replicas (range r.nodes) q.owner q.info q.replica
              (visit.lookup-range r.nodes q.owner ∙ q.member) q.in_range)),
    );
  }

  -- `NewHashRing` gives a ring, without nodes.
  pub new_hash_ring-IsRing : (replicas : ℤ) → IsRing (new_hash_ring replicas)
  unfolding new_hash_ring
  new_hash_ring-IsRing replicas = record {
    sorted = tt;
    nodup = tt;
    some_replicas = default_replicas-pos replicas;
    points = λ p. (λ h. absurd h, λ q. absurd (cc (lookup-nil q.owner, q.member)));
  }

  add_if_absent-IsRing :
      (range : Nodes → Nodes) (id address raft_addr : Bytes) (r : HashRing) (o : Option NodeInfo)
      → IsVisit range
      → IsRing r
      → IsRing (add_if_absent sum256 range id address raft_addr r o)
  unfolding add_if_absent
  add_if_absent-IsRing range id address raft_addr r (some _) visit v = v
  add_if_absent-IsRing range id address raft_addr r none visit v =
      rebuild_sorted_keys-IsRing range
        (record r { nodes = Maps.insert id (joining id address raft_addr) r.nodes }) visit
        (insert-NodupKeys id (joining id address raft_addr) r.nodes v.nodup) v.some_replicas

  -- `AddNode`, for every order of visiting the nodes, keeps a ring a ring: its sorted keys are the points
  -- of its nodes, in order, each node stands in it once, and it has virtual nodes.
  pub add_node-IsRing :
      (range : Nodes → Nodes) (id address raft_addr : Bytes) (r : HashRing)
      → IsVisit range
      → IsRing r
      → IsRing (add_node sum256 range id address raft_addr r)
  unfolding add_node
  add_node-IsRing range id address raft_addr r visit v =
      add_if_absent-IsRing range id address raft_addr r (Maps.lookup id r.nodes) visit v

  remove_if_present-IsRing :
      (range : Nodes → Nodes) (id : Bytes) (r : HashRing) (o : Option NodeInfo)
      → IsVisit range
      → IsRing r
      → IsRing (remove_if_present sum256 range id r o)
  unfolding remove_if_present
  remove_if_present-IsRing range id r none visit v = v
  remove_if_present-IsRing range id r (some _) visit v =
      rebuild_sorted_keys-IsRing range (record r { nodes = Maps.erase id r.nodes }) visit
        (erase-NodupKeys id r.nodes v.nodup) v.some_replicas

  -- `RemoveNode`, for every order of visiting the nodes, keeps a ring a ring: its sorted keys are the
  -- points of its nodes, in order, each node stands in it once, and it has virtual nodes.
  pub remove_node-IsRing :
      (range : Nodes → Nodes) (id : Bytes) (r : HashRing)
      → IsVisit range
      → IsRing r
      → IsRing (remove_node sum256 range id r)
  unfolding remove_node
  remove_node-IsRing range id r visit v =
      remove_if_present-IsRing range id r (Maps.lookup id r.nodes) visit v
