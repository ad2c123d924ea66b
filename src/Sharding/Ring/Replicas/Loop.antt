-- ===== src/Sharding/Ring/Replicas/Loop.antt =====
-- The rounds of `GetReplicas`: each takes a node that was not chosen, or comes closer to a point of one.
use titan_distributed_kv.Common.{
  ℕ, zero, suc, ◌+◌, ◌*◌, ◌%◌, ◌<◌, ◌≤◌, ◌≡◌, ◌⊎◌, inl, inr, refl, sym, ap, ◌∙◌, subst, [], ◌∷◌,
  ◌++◌, append_assoc, append-nil, Bytes, bytes_key, true, false, none, some, length, length-append,
  get_elem?, get_elem?-lt, Has-index, lt→ltb, arith, Option-cases,
}
use native.Mathlib.Nat.{suc-mul}
use titan_distributed_kv.Common.Errors.{Result, ok}
use titan_distributed_kv.Common.Maps
use titan_distributed_kv.Common.Maps.{NodupKeys, IsVisit, lookup-nil, lookup-cons}
use titan_distributed_kv.Sharding.Ring.{NodeInfo, Nodes, HashRing, hash_node, has_key}
use titan_distributed_kv.Sharding.Ring.Points.{IsRing}
use titan_distributed_kv.Sharding.Ring.Owner.{replica-has_key}
use titan_distributed_kv.Sharding.Ring.Replicas.{
  find_unseen, replicas_round, replicas_loop, is_empty,
}
use titan_distributed_kv.Sharding.Ring.Replicas.Unseen.{unseen}
use titan_distributed_kv.Sharding.Ring.Replicas.Chosen.{
  find_unseen_sound, find_unseen_complete, IsChosen, choose-IsChosen, next_index, Reaches,
  Reaches-some, Reaches-next,
}

module _ (sum256 : Bytes → Bytes) (range : ℕ → Nodes → Nodes) (visit : (k : ℕ) → IsVisit (range k))
    (key : Bytes) (r : HashRing) (ring : IsRing sum256 r) (n : ℕ) (small : n ≤ length r.nodes) where
  abbrev pub points : ℕ
  points = length r.sorted_keys

  -- A node that is not chosen has a point `d` rounds behind `idx`.
  pub record Ahead (idx : ℕ) (chosen : Nodes) (d : ℕ) : Type 0 where
    pub id : Bytes
    pub info : NodeInfo
    pub target : ℕ
    pub j : ℕ
    pub member : Maps.lookup id r.nodes ≡ some info
    pub out : Maps.lookup id chosen ≡ none
    pub owns : has_key sum256 id target 0 r.replicas ≡ true
    pub at : get_elem? r.sorted_keys j ≡ some target
    pub distance : Reaches points idx j d

  ahead :
      (idx : ℕ) (chosen : Nodes)
      → idx < points
      → length chosen < n
      → (d : ℕ) × (d < points) × Ahead idx chosen d
  ahead idx chosen lt fewer =
      let (id, info, member, out) = unseen r.nodes chosen ring.nodup (omega arith) in
      let has = (ring.points (hash_node sum256 id 0)).1 (record {
        owner = id;
        info = info;
        replica = 0;
        member = member;
        in_range = ring.some_replicas;
        hash = refl;
      }) in
      let (j, jl, at) = Has-index r.sorted_keys (hash_node sum256 id 0) has in
      let (d, dl, distance) = Reaches-some points idx j lt jl in
      (
        d,
        dl,
        record {
          id = id;
          info = info;
          target = hash_node sum256 id 0;
          j = j;
          member = member;
          out = out;
          owns =
              replica-has_key sum256 id (hash_node sum256 id 0) 0 r.replicas 0 ring.some_replicas
                (ap (hash_node sum256 id) {x = 0 + 0} {y = 0} (omega arith));
          at = at;
          distance = distance;
        },
      )

  -- What the loop is to return, from the nodes chosen so far on.
  pub record Fills (chosen : Nodes) (result : Result Nodes) : Type 0 where
    pub rest : Nodes
    pub returned : result ≡ ok (chosen ++ rest)
    pub is_chosen : IsChosen r.nodes (chosen ++ rest)
    pub filled : length (chosen ++ rest) ≡ n

  Fills-snoc :
      (chosen : Nodes) (node : Bytes × NodeInfo) (result : Result Nodes)
      → Fills (chosen ++ (node ∷ [])) result
      → Fills chosen result
  Fills-snoc chosen node result f = record {
    rest = node ∷ f.rest;
    returned = f.returned ∙ ap ok (append_assoc chosen (node ∷ []) f.rest);
    is_chosen = subst (IsChosen r.nodes) (append_assoc chosen (node ∷ []) f.rest) f.is_chosen;
    filled = ap length (sym (append_assoc chosen (node ∷ []) f.rest)) ∙ f.filled;
  }

  -- A round at an index of the slice: it goes on with one node more, or with none and the next index.
  pub data Round (result : Result Nodes) (next : ℕ → ℕ → Nodes → Result Nodes) (round idx : ℕ)
      (chosen : Nodes) (d : ℕ) : Type 0 where
    took :
        (id : Bytes) (info : NodeInfo)
        → Maps.lookup id r.nodes ≡ some info
        → Maps.lookup id chosen ≡ none
        → result ≡ next (suc round) ((idx + 1) % points) (chosen ++ ((id, info) ∷ []))
        → Round result next round idx chosen d
    passed :
        (d' : ℕ)
        → d ≡ suc d'
        → Ahead ((idx + 1) % points) chosen d'
        → result ≡ next (suc round) ((idx + 1) % points) chosen
        → Round result next round idx chosen d

  is_empty-snoc :
      (chosen : Nodes) (node : Bytes × NodeInfo) → is_empty (chosen ++ (node ∷ [])) ≡ false
  is_empty-snoc [] node = refl
  is_empty-snoc (_ ∷ chosen) node = refl

  not-is_empty : (chosen : Nodes) → 0 < length chosen → is_empty chosen ≡ false
  not-is_empty [] lt = absurd (omega arith)
  not-is_empty (_ ∷ chosen) lt = refl

  pub round_took :
      (next : ℕ → ℕ → Nodes → Result Nodes) (round idx target : ℕ) (chosen : Nodes) (id : Bytes)
      (info : NodeInfo)
      → find_unseen sum256 r.replicas target chosen (range round r.nodes) ≡ some (id, info)
      → replicas_round sum256 range key r n next round idx chosen (some target)
        ≡ next (suc round) ((idx + 1) % points) (chosen ++ ((id, info) ∷ []))
  unfolding replicas_round
  round_took next round idx target chosen id info e = rw (e, is_empty-snoc chosen (id, info)) refl

  pub unseen_member :
      (round target : ℕ) (chosen : Nodes) (id : Bytes) (info : NodeInfo)
      → find_unseen sum256 r.replicas target chosen (range round r.nodes) ≡ some (id, info)
      → (Maps.lookup id r.nodes ≡ some info) × (Maps.lookup id chosen ≡ none)
  unseen_member round target chosen id info e =
      let (member, out) =
        find_unseen_sound sum256 r.replicas target chosen (range round r.nodes) id info
          ((visit round).range-NodupKeys r.nodes ring.nodup) e in
      (sym ((visit round).lookup-range r.nodes id) ∙ member, out)

  Round-passed :
      (next : ℕ → ℕ → Nodes → Result Nodes) (round idx target : ℕ) (chosen : Nodes) (d : ℕ)
      → idx < points
      → d < points
      → (0 < length chosen) ⊎ (d ≡ 0)
      → Ahead idx chosen d
      → get_elem? r.sorted_keys idx ≡ some target
      → find_unseen sum256 r.replicas target chosen (range round r.nodes) ≡ none
      → Round
          (replicas_round sum256 range key r n next round idx chosen (some target))
          next
          round
          idx
          chosen
          d
  unfolding replicas_round
  Round-passed next round idx target chosen zero lt dl start a at e =
      let same_index : a.j ≡ idx = elim a.distance.1 [
        | inl x ↦ omega arith
        | inr y ↦ absurd (omega (arith, a.distance.0))
      ] in
      let same_target : a.target ≡ target = cc (a.at, at, same_index) in
      absurd (
        find_unseen_complete sum256 r.replicas target chosen (range round r.nodes) a.id a.info
          ((visit round).lookup-range r.nodes a.id ∙ a.member) a.out
          (ap (λ (t : ℕ). has_key sum256 a.id t 0 r.replicas) (sym same_target) ∙ a.owns) e)
  Round-passed next round idx target chosen (suc d) lt dl start a at e =
      passed d refl
        (record {
          id = a.id;
          info = a.info;
          target = a.target;
          j = a.j;
          member = a.member;
          out = a.out;
          owns = a.owns;
          at = a.at;
          distance = Reaches-next points idx a.j d lt a.distance (omega arith);
        })
        (rw
          (
            e,
            not-is_empty chosen
                (elim start [ inl some_chosen ↦ some_chosen | inr z ↦ absurd (omega arith) ]),
          )
          refl)

  pub next_index-lt : (idx : ℕ) → idx < points → (idx + 1) % points < points
  next_index-lt idx lt = elim (next_index idx points lt) [
    | inl (a, e) ↦ omega arith
    | inr (b, e) ↦ omega arith
  ]

  pub loop-full :
      (fuel round idx : ℕ) (chosen : Nodes)
      → 0 < fuel
      → IsChosen r.nodes chosen
      → length chosen ≡ n
      → Fills chosen (replicas_loop sum256 range key r n fuel round idx chosen)
  unfolding replicas_loop
  loop-full zero round idx chosen some_fuel c full = absurd (omega arith)
  loop-full (suc fuel) round idx chosen some_fuel c full = record {
    rest = [];
    returned = rw append-nil (ground arith);
    is_chosen = subst (IsChosen r.nodes) (sym (append-nil chosen)) c;
    filled = ap length (append-nil chosen) ∙ full;
  }

  -- `k` nodes are wanting after the next one, which is taken within `d` more rounds.
  abbrev pub LoopFills : ℕ → Type 0
  LoopFills fuel =
      (round idx : ℕ) (chosen : Nodes) (k d : ℕ)
      → idx < points
      → IsChosen r.nodes chosen
      → length chosen + suc k ≡ n
      → d < points
      → Ahead idx chosen d
      → (0 < length chosen) ⊎ (d ≡ 0)
      → k * points + suc d < fuel
      → Fills chosen (replicas_loop sum256 range key r n fuel round idx chosen)

  pub loop-took :
      (fuel round idx : ℕ) (chosen : Nodes) (k : ℕ)
      → LoopFills fuel
      → idx < points
      → IsChosen r.nodes chosen
      → length chosen + k ≡ n
      → 0 < length chosen
      → k * points < fuel
      → Fills chosen (replicas_loop sum256 range key r n fuel round idx chosen)
  loop-took fuel round idx chosen zero rec lt c wanting some_chosen budget =
      loop-full fuel round idx chosen (omega arith) c (omega arith)
  loop-took fuel round idx chosen (suc k) rec lt c wanting some_chosen budget =
      let (d, dl, a) = ahead idx chosen lt (omega arith) in
      rec round idx chosen k d lt c wanting dl a (inl some_chosen) (omega (arith, suc-mul k points))

  pub loop-step :
      (fuel round idx target : ℕ) (chosen : Nodes)
      → length chosen < n
      → get_elem? r.sorted_keys idx ≡ some target
      → replicas_loop sum256 range key r n (suc fuel) round idx chosen
        ≡ replicas_round sum256 range key r n
            (replicas_loop sum256 range key r n fuel)
            round
            idx
            chosen
            (some target)
  unfolding replicas_loop
  loop-step fuel round idx target chosen fewer at = rw (lt→ltb (length chosen) n fewer, at) refl

  Round-cases :
      (next : ℕ → ℕ → Nodes → Result Nodes) (round idx target : ℕ) (chosen : Nodes) (d : ℕ)
      → idx < points
      → d < points
      → (0 < length chosen) ⊎ (d ≡ 0)
      → Ahead idx chosen d
      → get_elem? r.sorted_keys idx ≡ some target
      → Round
          (replicas_round sum256 range key r n next round idx chosen (some target))
          next
          round
          idx
          chosen
          d
  Round-cases next round idx target chosen d lt dl start a at =
      elim (Option-cases (find_unseen sum256 r.replicas target chosen (range round r.nodes))) [
        | inl e ↦ Round-passed next round idx target chosen d lt dl start a at e
        | inr ((id, info), e) ↦
            let (member, out) = unseen_member round target chosen id info e in
            took id info member out (round_took next round idx target chosen id info e)
      ]

  pub after-Round :
      (fuel round idx target : ℕ) (chosen : Nodes) (k d : ℕ) (result : Result Nodes)
      → LoopFills fuel
      → idx < points
      → IsChosen r.nodes chosen
      → length chosen + suc k ≡ n
      → d < points
      → (0 < length chosen) ⊎ (d ≡ 0)
      → k * points + suc d < suc fuel
      → Round result (replicas_loop sum256 range key r n fuel) round idx chosen d
      → Fills chosen result
  after-Round fuel round idx target chosen k d result rec lt c wanting dl start budget
        (took id info member out e) =
      subst (Fills chosen) (sym e) (
        Fills-snoc chosen (id, info) _
          (loop-took fuel (suc round) ((idx + 1) % points) (chosen ++ ((id, info) ∷ [])) k rec
            (next_index-lt idx lt) (choose-IsChosen r.nodes chosen id info c member out)
            (omega (arith, length-append chosen ((id, info) ∷ [])))
            (omega (arith, length-append chosen ((id, info) ∷ []))) (omega arith)))
  after-Round fuel round idx target chosen k d result rec lt c wanting dl start budget
        (passed d' less a e) =
      subst (Fills chosen) (sym e) (
        rec (suc round) ((idx + 1) % points) chosen k d' (next_index-lt idx lt) c wanting
          (omega arith) a
          (elim start [ inl some_chosen ↦ inl some_chosen | inr none_left ↦ absurd (omega arith) ])
          (omega arith))

  pub loop-Fills : (fuel : ℕ) → LoopFills fuel
  loop-Fills zero round idx chosen k d lt c wanting dl a start budget = absurd (omega arith)
  loop-Fills (suc fuel) round idx chosen k d lt c wanting dl a start budget =
      let (target, at) = get_elem?-lt r.sorted_keys idx lt in
      subst (Fills chosen) (sym (loop-step fuel round idx target chosen (omega arith) at)) (
        after-Round fuel round idx target chosen k d
          (replicas_round sum256 range key r n (replicas_loop sum256 range key r n fuel) round idx
            chosen (some target))
          (loop-Fills fuel) lt c wanting dl start budget
          (Round-cases (replicas_loop sum256 range key r n fuel) round idx target chosen d lt dl
            start a at))
