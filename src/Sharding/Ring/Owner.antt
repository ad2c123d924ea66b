-- ===== src/Sharding/Ring/Owner.antt =====
-- The node that `GetNode` of sharding/ring.go finds: the owner of the first point from the key's hash on.
use titan_distributed_kv.Common.{
  ℕ, zero, suc, ◌+◌, ◌<◌, ◌≡◌, refl, sym, ap, ◌∙◌, inl, inr, [], ◌∷◌, Bytes, bytes_key, true, false,
  ◌==◌, none, some, arith, Bool-cases, length, get_elem?, Has-index,
}
use titan_distributed_kv.Common.Errors.{ok}
use titan_distributed_kv.Common.Maps
use titan_distributed_kv.Common.Maps.{NodupKeys, IsVisit, lookup-nil, lookup-cons}
use titan_distributed_kv.Sharding.Ring.{
  NodeInfo, Nodes, HashRing, hash_key, hash_node, first_index, has_key, find_node, node_at,
  node_or_first, get_node,
}
use titan_distributed_kv.Sharding.Ring.Points.{Point, Point-lookup, IsRing}
use titan_distributed_kv.Sharding.Ring.Nearest.{IsNearest, first_index-IsNearest}

pub lookup-length :
    (nodes : Nodes) (id : Bytes) (info : NodeInfo)
    → Maps.lookup id nodes ≡ some info
    → 0 < length nodes
lookup-length [] id info e = absurd (cc (lookup-nil id, e))
lookup-length (_ ∷ nodes) id info e = omega arith

module _ (sum256 : Bytes → Bytes) where
  has_key-replica :
      (id : Bytes) (p i n : ℕ)
      → has_key sum256 id p i n ≡ true
      → (k : ℕ) × (k < n) × (hash_node sum256 id (i + k) ≡ p)
  unfolding has_key
  has_key-replica id p i zero e = absurd (cc)
  has_key-replica id p i (suc n) e = elim (Bool-cases (hash_node sum256 id i == p)) [
    | inl here ↦
        (0, omega arith, ap (hash_node sum256 id) {x = i + 0} {y = i} (omega arith) ∙ ground arith)
    | inr not_here ↦
        let (k, lt, eq) = has_key-replica id p (suc i) n (ground arith) in
        (suc k, omega arith, ap (hash_node sum256 id) (omega arith) ∙ eq)
  ]

  pub replica-has_key :
      (id : Bytes) (p i n k : ℕ)
      → k < n
      → hash_node sum256 id (i + k) ≡ p
      → has_key sum256 id p i n ≡ true
  unfolding has_key
  replica-has_key id p i zero k lt e = absurd (omega arith)
  replica-has_key id p i (suc n) zero lt e =
      let here = ap (hash_node sum256 id) {x = i} {y = i + 0} (omega arith) ∙ e in
      ground (arith, here)
  replica-has_key id p i (suc n) (suc k) lt e =
      let there =
        replica-has_key id p (suc i) n k (omega arith)
          (ap (hash_node sum256 id) (omega arith) ∙ e) in
      ground (arith, there)

  Point-first :
      (replicas : ℕ) (id : Bytes) (info : NodeInfo) (nodes : Nodes) (p : ℕ)
      → has_key sum256 id p 0 replicas ≡ true
      → (q : Point sum256 replicas ((id, info) ∷ nodes) p) × (info ≡ q.info)
  Point-first replicas id info nodes p e =
      let (k, lt, eq) = has_key-replica id p 0 replicas e in
      (
        record {
          owner = id;
          info = info;
          replica = k;
          member = ground (arith, lookup-cons id id info nodes);
          in_range = lt;
          hash = ap (hash_node sum256 id) {x = k} {y = 0 + k} (omega arith) ∙ eq;
        },
        refl,
      )

  Point-rest :
      (replicas : ℕ) (id : Bytes) (info : NodeInfo) (nodes : Nodes) (p : ℕ)
      → (q : Point sum256 replicas ((id, info) ∷ nodes) p) → has_key sum256 id p 0 replicas ≡ false
      → Point sum256 replicas nodes p
  Point-rest replicas id info nodes p q e = record {
    owner = q.owner;
    info = q.info;
    replica = q.replica;
    member = elim (bytes_key.dec q.owner id) [
      | yes eq ↦ absurd (
          cc (
            e,
            replica-has_key id p 0 replicas q.replica q.in_range (
                ap (hash_node sum256 id) {x = 0 + q.replica} {y = q.replica} (omega arith)
                ∙ ap (λ b. hash_node sum256 b q.replica) (sym eq)
                ∙ q.hash),
          ))
      | no ne ↦ ground (arith, lookup-cons q.owner id info nodes, q.member)
    ];
    in_range = q.in_range;
    hash = q.hash;
  }

  Point-later :
      (replicas : ℕ) (id : Bytes) (info : NodeInfo) (nodes : Nodes) (p : ℕ)
      → Maps.lookup id nodes ≡ none
      → (q : Point sum256 replicas nodes p)
      → (l : Point sum256 replicas ((id, info) ∷ nodes) p) × (q.info ≡ l.info)
  Point-later replicas id info nodes p fresh q = (
    record {
      owner = q.owner;
      info = q.info;
      replica = q.replica;
      member = ground (arith, lookup-cons q.owner id info nodes, q.member);
      in_range = q.in_range;
      hash = q.hash;
    },
    refl,
  )

  -- The loop finds the owner of a point.
  pub find_node-Point :
      (replicas : ℕ) (nodes : Nodes) (p : ℕ)
      → NodupKeys nodes
      → Point sum256 replicas nodes p
      → (q : Point sum256 replicas nodes p) × (find_node sum256 replicas p nodes ≡ some q.info)
  unfolding find_node
  find_node-Point replicas [] p u q = absurd (cc (lookup-nil q.owner, q.member))
  find_node-Point replicas ((id, info) ∷ nodes) p (fresh, u) q =
      elim (Bool-cases (has_key sum256 id p 0 replicas)) [
        | inl e ↦
            let (here, eq) = Point-first replicas id info nodes p e in (here, rw e (ap some eq))
        | inr e ↦
            let (there, found) =
              find_node-Point replicas nodes p u (Point-rest replicas id info nodes p q e) in
            let (later, eq) = Point-later replicas id info nodes p fresh there in
            (later, rw e (found ∙ ap some eq))
      ]

  pub get_node-found :
      (range : Nodes → Nodes) (key : Bytes) (r : HashRing) (p : ℕ) (info : NodeInfo)
      → 0 < length r.nodes
      → get_elem? r.sorted_keys (first_index sum256 key r.sorted_keys) ≡ some p
      → find_node sum256 r.replicas p (range r.nodes) ≡ some info
      → get_node sum256 range key r ≡ ok info
  unfolding get_node node_at node_or_first
  get_node-found range key r p info some_nodes at found = ground (arith, at, found)

  -- What `GetNode` finds: a node with a point that is the nearest from the key's hash on.
  pub record IsOwner (r : HashRing) (key : Bytes) (info : NodeInfo) : Type 0 where
    pub p : ℕ
    pub point : Point sum256 r.replicas r.nodes p
    pub info_of_point : point.info ≡ info
    pub nearest : IsNearest (hash_key sum256 key) r.sorted_keys p

  -- On a ring with a node, for every order of visiting the nodes, `GetNode` succeeds and gives a node of
  -- the ring that has a virtual node on the nearest point from the key's hash on.
  pub get_node-IsOwner :
      (range : Nodes → Nodes) (key : Bytes) (r : HashRing) (id : Bytes) (some_info : NodeInfo)
      → IsVisit range
      → IsRing sum256 r
      → Maps.lookup id r.nodes ≡ some some_info
      → (info : NodeInfo) × (get_node sum256 range key r ≡ ok info) × IsOwner r key info
  get_node-IsOwner range key r id some_info visit v member =
      let has = (v.points (hash_node sum256 id 0)).1 (record {
        owner = id;
        info = some_info;
        replica = 0;
        member = member;
        in_range = v.some_replicas;
        hash = refl;
      }) in
      let (i, lt, e) = Has-index r.sorted_keys (hash_node sum256 id 0) has in
      let (p, at, nearest) =
        first_index-IsNearest sum256 key r.sorted_keys v.sorted (omega arith) in
      let visited =
        Point-lookup sum256 r.replicas r.nodes (range r.nodes) p
          (λ j. sym (visit.lookup-range r.nodes j)) ((v.points p).0 nearest.here) in
      let (q, found) =
        find_node-Point r.replicas (range r.nodes) p (visit.range-NodupKeys r.nodes v.nodup)
          visited in
      (
        q.info,
        get_node-found range key r p q.info (lookup-length r.nodes id some_info member) at found,
        record {
          p = p;
          point = record {
            owner = q.owner;
            info = q.info;
            replica = q.replica;
            member = sym (visit.lookup-range r.nodes q.owner) ∙ q.member;
            in_range = q.in_range;
            hash = q.hash;
          };
          info_of_point = refl;
          nearest = nearest;
        },
      )
