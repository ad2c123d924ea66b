-- ===== src/Sharding/Ring/Replicas/Complete.antt =====
-- `GetReplicas` ends, and gives as many different nodes as were asked for, or all.
use titan_distributed_kv.Common.{
  ℕ, zero, suc, ◌+◌, ◌-◌, ◌%◌, ◌*◌, ◌<◌, ◌≤◌, ◌≡◌, refl, sym, ap, ◌∙◌, inl, inr, List, [], ◌∷◌, map,
  Bytes, bytes_key, some, length, get_elem?, Has-index, arith, Bool-cases,
}
use native.Mathlib.Nat.{suc-mul}
use titan_distributed_kv.Common.Int.{pos}
use titan_distributed_kv.Common.Errors.{Result, ok}
use titan_distributed_kv.Common.Maps
use titan_distributed_kv.Common.Maps.{NodupKeys, IsVisit, lookup-nil, lookup-cons}
use titan_distributed_kv.Sharding.Ring.{
  NodeInfo, Nodes, HashRing, hash_node, has_key, find_node, first_index, get_node,
}
use titan_distributed_kv.Sharding.Ring.Points.{Point-lookup, IsRing}
use titan_distributed_kv.Sharding.Ring.Nearest.{first_index-IsNearest}
use titan_distributed_kv.Sharding.Ring.Owner.{
  replica-has_key, find_node-Point, get_node-found, lookup-length,
}
use titan_distributed_kv.Sharding.Ring.Part.{get_node_nonempty}
use titan_distributed_kv.Sharding.Ring.Replicas.Chosen.{choose-IsChosen}
use titan_distributed_kv.Sharding.Ring.Replicas.{
  at_most, enough_rounds, find_unseen, replicas_loop, get_count, values, get_replicas,
}
use titan_distributed_kv.Sharding.Ring.Replicas.Loop

-- Some of the nodes of a ring, each once, in the order in which they were chosen.
pub record IsReplicas (nodes : Nodes) (count : ℕ) (result : Result (List NodeInfo)) : Type 0 where
  pub chosen : Nodes
  pub returned : result ≡ ok (map (λ e. e.1) chosen)
  pub distinct : NodupKeys chosen
  pub members :
      (id : Bytes) (info : NodeInfo)
      → Maps.lookup id chosen ≡ some info
      → Maps.lookup id nodes ≡ some info
  pub filled : length chosen ≡ count

at_most-le : (limit n : ℕ) → at_most limit n ≤ limit
at_most-le limit n = ground arith

get_elem?-bound : (xs : List ℕ) (i x : ℕ) → get_elem? xs i ≡ some x → i < length xs
get_elem?-bound [] i x e = absurd (cc (e))
get_elem?-bound (y ∷ xs) zero x e = omega arith
get_elem?-bound (y ∷ xs) (suc i) x e = omega (arith, get_elem?-bound xs i x e)

module _ (sum256 : Bytes → Bytes) (range : ℕ → Nodes → Nodes) (visit : (k : ℕ) → IsVisit (range k))
    (key : Bytes) (r : HashRing) (ring : IsRing sum256 r) where
  some_points :
      (id : Bytes) (info : NodeInfo) → Maps.lookup id r.nodes ≡ some info → 0 < length r.sorted_keys
  some_points id info member =
      let has = (ring.points (hash_node sum256 id 0)).1 (record {
        owner = id;
        info = info;
        replica = 0;
        member = member;
        in_range = ring.some_replicas;
        hash = refl;
      }) in
      let (i, lt, e) = Has-index r.sorted_keys (hash_node sum256 id 0) has in omega arith

  -- At the first index stands a point of a node.
  start :
      (n : ℕ) (small : n ≤ length r.nodes)
      → 0 < length r.sorted_keys
      → (first_index sum256 key r.sorted_keys < length r.sorted_keys)
        × Loop.Ahead sum256 range visit key r ring n small
            (first_index sum256 key r.sorted_keys)
            []
            0
  start n small some_keys =
      let (p, at, nearest) = first_index-IsNearest sum256 key r.sorted_keys ring.sorted some_keys in
      let lt = get_elem?-bound r.sorted_keys (first_index sum256 key r.sorted_keys) p at in
      let q = (ring.points p).0 nearest.here in
      (
        lt,
        record {
          id = q.owner;
          info = q.info;
          target = p;
          j = first_index sum256 key r.sorted_keys;
          member = q.member;
          out = lookup-nil {V = NodeInfo} q.owner;
          owns = replica-has_key sum256 q.owner p 0 r.replicas q.replica q.in_range (
              ap (hash_node sum256 q.owner) {x = 0 + q.replica} {y = q.replica} (omega arith)
              ∙ q.hash);
          at = at;
          distance = (lt, inl (omega arith));
        },
      )

  counted :
      (n : ℕ) (small : n ≤ length r.nodes)
      → 0 < length r.sorted_keys
      → Loop.Fills sum256 range visit key r ring n small [] (
          replicas_loop sum256 range key r n
            (enough_rounds n r)
            0
            (first_index sum256 key r.sorted_keys)
            [])
  counted zero small some_keys =
      Loop.loop-full sum256 range visit key r ring 0 small (enough_rounds 0 r) 0
        (first_index sum256 key r.sorted_keys) [] (omega arith)
        (record {
          distinct = tt;
          members = λ id info e. absurd (cc (lookup-nil {V = NodeInfo} id, e));
        })
        refl
  counted (suc k) small some_keys =
      let (lt, a) = start (suc k) small some_keys in
      Loop.loop-Fills sum256 range visit key r ring (suc k) small (enough_rounds (suc k) r) 0
        (first_index sum256 key r.sorted_keys) [] k 0 lt
        (record {
          distinct = tt;
          members = λ id info e. absurd (cc (lookup-nil {V = NodeInfo} id, e));
        })
        (omega arith) (omega arith) a (inr refl) (omega (arith, suc-mul k (length r.sorted_keys)))

  get_replicas-count :
      (n : ℕ) (chosen : Nodes)
      → 0 < length r.nodes
      → replicas_loop sum256 range key r
          (at_most (length r.nodes) n)
          (enough_rounds (at_most (length r.nodes) n) r)
          0
          (first_index sum256 key r.sorted_keys)
          []
        ≡ ok chosen
      → get_replicas sum256 range key (pos n) r ≡ ok (map (λ e. e.1) chosen)
  unfolding get_replicas get_count values
  get_replicas-count n chosen some_nodes e = ground (arith, e)

  -- On a ring with a node, in whatever order each round visits the nodes, `GetReplicas` of a count that is
  -- not negative ends with a list of different nodes of the ring: as many as the count says, or all nodes
  -- where the ring has fewer.
  pub get_replicas-IsReplicas :
      (n : ℕ) (id : Bytes) (some_info : NodeInfo)
      → Maps.lookup id r.nodes ≡ some some_info
      → IsReplicas r.nodes (at_most (length r.nodes) n) (get_replicas sum256 range key (pos n) r)
  get_replicas-IsReplicas n id some_info member =
      let f =
        counted (at_most (length r.nodes) n) (at_most-le (length r.nodes) n)
          (some_points id some_info member) in
      record {
        chosen = f.rest;
        returned =
            get_replicas-count n f.rest (lookup-length r.nodes id some_info member) f.returned;
        distinct = f.is_chosen.distinct;
        members = f.is_chosen.members;
        filled = f.filled;
      }

  find_unseen_first :
      (p : ℕ) (nodes : Nodes) (info : NodeInfo)
      → find_node sum256 r.replicas p nodes ≡ some info
      → (id : Bytes) × (find_unseen sum256 r.replicas p [] nodes ≡ some (id, info))
  unfolding find_node find_unseen
  find_unseen_first p [] info e = absurd (cc (e))
  find_unseen_first p ((id, i) ∷ nodes) info e =
      elim (Bool-cases (has_key sum256 id p 0 r.replicas)) [
        | inl here ↦ (id, ground (arith, lookup-nil {V = NodeInfo} id))
        | inr away ↦
            let (j, later) = find_unseen_first p nodes info (ground arith) in
            (j, ground (arith, later))
      ]

  -- The first round takes the node that `GetNode` finds.
  first_round :
      (id : Bytes) (i info : NodeInfo)
      → Maps.lookup id r.nodes ≡ some i
      → get_node sum256 (range 0) key r ≡ ok info
      → (p : ℕ) × (owner : Bytes) × (get_elem? r.sorted_keys (first_index sum256 key r.sorted_keys)
          ≡ some p)
        × (find_unseen sum256 r.replicas p [] (range 0 r.nodes) ≡ some (owner, info))
  first_round id i info member e =
      let (p, at, nearest) =
        first_index-IsNearest sum256 key r.sorted_keys ring.sorted (some_points id i member) in
      let visited =
        Point-lookup sum256 r.replicas r.nodes (range 0 r.nodes) p
          (λ j. sym ((visit 0).lookup-range r.nodes j)) ((ring.points p).0 nearest.here) in
      let (q, found) =
        find_node-Point sum256 r.replicas (range 0 r.nodes) p
          ((visit 0).range-NodupKeys r.nodes ring.nodup) visited in
      let same_info : q.info ≡ info = cc (
        get_node-found sum256 (range 0) key r p q.info (lookup-length r.nodes id i member) at found,
        e,
      ) in
      let (owner, first) = find_unseen_first p (range 0 r.nodes) info (found ∙ ap some same_info) in
      (p, owner, at, first)

  filled_from :
      (c : ℕ) (small : c ≤ length r.nodes) (p : ℕ) (owner : Bytes) (info : NodeInfo)
      → 0 < c
      → get_elem? r.sorted_keys (first_index sum256 key r.sorted_keys) ≡ some p
      → find_unseen sum256 r.replicas p [] (range 0 r.nodes) ≡ some (owner, info)
      → (rest : Nodes) × (replicas_loop sum256 range key r c
            (enough_rounds c r)
            0
            (first_index sum256 key r.sorted_keys)
            []
          ≡ ok ((owner, info) ∷ rest))
  filled_from c small p owner info some_wanted at first =
      let fuel = c * length r.sorted_keys in
      let idx = first_index sum256 key r.sorted_keys in
      let lt = get_elem?-bound r.sorted_keys idx p at in
      let (member, out) =
        Loop.unseen_member sum256 range visit key r ring c small 0 p [] owner info first in
      let f =
        Loop.loop-took sum256 range visit key r ring c small fuel 1
          ((idx + 1) % length r.sorted_keys) ((owner, info) ∷ []) (c - 1)
          (Loop.loop-Fills sum256 range visit key r ring c small fuel)
          (Loop.next_index-lt sum256 range visit key r ring c small idx lt)
          (choose-IsChosen r.nodes [] owner info
            (record {
              distinct = tt;
              members = λ id i e. absurd (cc (lookup-nil {V = NodeInfo} id, e));
            })
            member out)
          (omega arith) (omega arith)
          (omega (
            arith,
            suc-mul (c - 1) (length r.sorted_keys),
            ap (λ (t : ℕ). t * length r.sorted_keys) {x = c} {y = suc (c - 1)} (omega arith),
          )) in
      (
        f.rest,
        Loop.loop-step sum256 range visit key r ring c small fuel 0 idx p [] some_wanted at
            ∙ Loop.round_took sum256 range visit key r ring c small
                (replicas_loop sum256 range key r c fuel) 0 idx p [] owner info first
            ∙ f.returned,
      )

  -- On a ring, the first of the replicas of a key is the node that `GetNode` gives for it, when both take the
  -- nodes in the order of the first round.
  pub get_replicas-get_node :
      (n : ℕ) (info : NodeInfo)
      → get_node sum256 (range 0) key r ≡ ok info
      → (rest : List NodeInfo) × (get_replicas sum256 range key (pos (suc n)) r ≡ ok (info ∷ rest))
  get_replicas-get_node n info e =
      let (id, i, member) = get_node_nonempty sum256 (range 0) key r info r.nodes refl e in
      let (p, owner, at, first) = first_round id i info member e in
      let some_nodes = lookup-length r.nodes id i member in
      let (rest, returned) =
        filled_from (at_most (length r.nodes) (suc n)) (at_most-le (length r.nodes) (suc n)) p owner
          info (ground arith) at first in
      (map (λ e. e.1) rest, get_replicas-count (suc n) ((owner, info) ∷ rest) some_nodes returned)
