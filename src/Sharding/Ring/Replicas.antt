-- ===== src/Sharding/Ring/Replicas.antt =====
-- `GetReplicas` of sharding/ring.go.
pub mod Unseen
pub mod Chosen
pub mod Loop
pub mod Complete
use titan_distributed_kv.Common.{
  ℕ, zero, suc, ◌+◌, ◌*◌, ◌%◌, List, [], ◌∷◌, ◌++◌, map, Bytes, bytes_key, Bool, true, false, ◌&&◌,
  Option, none, some, ltb, ◌==◌, length, get_elem?, if◌then◌else◌,
}
use titan_distributed_kv.Common.Int.{ℤ, pos, negsuc}
use titan_distributed_kv.Common.Errors.{stuck, panic, Result, ok, err}
use titan_distributed_kv.Common.Maps
use titan_distributed_kv.Sharding.Ring.{
  NodeInfo, Nodes, HashRing, no_nodes, search_key, first_index, has_key,
}

abbrev pub is_none : Option NodeInfo → Bool
is_none none = true
is_none (some _) = false

abbrev pub is_empty : Nodes → Bool
is_empty [] = true
is_empty (_ ∷ _) = false

-- `replicas` and `seen` of the source change together; here they are one list, the nodes chosen so far,
-- each with its id, in the order in which they were appended.
abbrev pub choose : Option (Bytes × NodeInfo) → Nodes → Nodes
choose none chosen = chosen
choose (some node) chosen = chosen ++ (node ∷ [])

values : Result Nodes → Result (List NodeInfo)
values (ok chosen) = ok (map (λ e. e.1) chosen)
values (err e) = err e

-- `if n > len(r.nodes)`
abbrev pub at_most : ℕ → ℕ → ℕ
at_most limit n = if ltb limit n then limit else n

-- Each node takes at most one turn around the ring.
abbrev pub enough_rounds : ℕ → HashRing → ℕ
enough_rounds n r = suc (n * length r.sorted_keys)

module _ (sum256 : Bytes → Bytes) where
  -- The loop over the nodes: the first one that was not seen and has the hash.
  unfoldable pub find_unseen : ℕ → ℕ → Nodes → Nodes → Option (Bytes × NodeInfo)
  find_unseen replicas target chosen [] = none
  find_unseen replicas target chosen ((node_id, info) ∷ rest) =
      let later = find_unseen replicas target chosen rest in
      if is_none (Maps.lookup node_id chosen) && has_key sum256 node_id target 0 replicas
      then some (node_id, info)
      else later

  -- `range k` is the order in which round `k` of the outer loop visits the nodes.
  module _ (range : ℕ → Nodes → Nodes) (key : Bytes) (r : HashRing) (n : ℕ) where
    -- The test that is to prevent an infinite loop.
    abbrev pub gives_up : ℕ → Nodes → Bool
    gives_up idx chosen = is_empty chosen && idx == search_key sum256 key r.sorted_keys

    -- A round at the hash, with the rounds behind it. An index past the end of the slice panics.
    unfoldable pub replicas_round :
        (ℕ → ℕ → Nodes → Result Nodes) → ℕ → ℕ → Nodes → Option ℕ → Result Nodes
    unfolding find_unseen
    replicas_round next round idx chosen none = err panic
    replicas_round next round idx chosen (some target) =
        let chosen' = choose (find_unseen r.replicas target chosen (range round r.nodes)) chosen in
        let idx' = (idx + 1) % length r.sorted_keys in
        if gives_up idx' chosen' then ok chosen' else next (suc round) idx' chosen'

    -- The outer loop.
    unfoldable pub replicas_loop : ℕ → ℕ → ℕ → Nodes → Result Nodes
    unfolding replicas_round
    replicas_loop zero round idx chosen = err stuck
    replicas_loop (suc fuel) round idx chosen =
        if ltb (length chosen) n
        then replicas_round (replicas_loop fuel) round idx chosen (get_elem? r.sorted_keys idx)
        else ok chosen

  get_count : (ℕ → Nodes → Nodes) → Bytes → HashRing → ℤ → Result Nodes
  unfolding replicas_loop first_index
  get_count range key r (negsuc n) = err panic
  get_count range key r (pos n) =
      let count = at_most (length r.nodes) n in
      replicas_loop range key r count (enough_rounds count r) 0
        (first_index sum256 key r.sorted_keys) []

  -- GetReplicas. `make` panics at a negative capacity.
  unfoldable pub get_replicas : (ℕ → Nodes → Nodes) → Bytes → ℤ → HashRing → Result (List NodeInfo)
  unfolding get_count values
  get_replicas range key n r = elim (length r.nodes) [
    | zero ↦ err no_nodes
    | suc _ ↦ values (get_count range key r n)
  ]
