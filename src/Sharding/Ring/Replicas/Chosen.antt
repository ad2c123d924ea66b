-- ===== src/Sharding/Ring/Replicas/Chosen.antt =====
-- The nodes that GetReplicas of sharding/ring.go has chosen, and its steps around the ring.
use titan_distributed_kv.Common.{
  ℕ, suc, ◌+◌, ◌-◌, ◌%◌, ◌<◌, ◌≡◌, ◌≢◌, ◌⊎◌, inl, inr, ap, ◌∙◌, [], ◌∷◌, ◌++◌, Bytes, bytes_key,
  same, true, none, some, arith, if◌then◌else◌,
}
use native.Mathlib.Decide.{dec_lt}
use native.Mathlib.Nat.{mod-eq_of_lt, mod_self}
use titan_distributed_kv.Common.Maps
use titan_distributed_kv.Common.Maps.{NodupKeys, IsVisit, lookup-nil, lookup-cons}
use titan_distributed_kv.Sharding.Ring.{NodeInfo, Nodes, has_key}
use titan_distributed_kv.Sharding.Ring.Replicas.{find_unseen}

pub lookup-snoc :
    (k j : Bytes) (v : NodeInfo) (m : Nodes)
    → Maps.lookup j m ≡ none
    → Maps.lookup k (m ++ ((j, v) ∷ [])) ≡ (if same k j then some v else Maps.lookup k m)
lookup-snoc k j v [] fresh = ground (arith, lookup-cons k j v [], lookup-nil {V = NodeInfo} k)
lookup-snoc k j v ((i, w) ∷ m) fresh = ground (
  arith,
  lookup-cons j i w m,
  lookup-cons k i w m,
  lookup-cons k i w (m ++ ((j, v) ∷ [])),
  lookup-snoc k j v m,
)

module _ (sum256 : Bytes → Bytes) where
  pub find_unseen_sound :
      (replicas target : ℕ) (chosen nodes : Nodes) (id : Bytes) (info : NodeInfo)
      → NodupKeys nodes
      → find_unseen sum256 replicas target chosen nodes ≡ some (id, info)
      → (Maps.lookup id nodes ≡ some info) × (Maps.lookup id chosen ≡ none)
  unfolding find_unseen
  find_unseen_sound replicas target chosen [] id info u e = absurd (cc (e))
  find_unseen_sound replicas target chosen ((j, i) ∷ rest) id info (fresh, u) e =
      ground
        (arith, lookup-cons id j i rest, find_unseen_sound replicas target chosen rest id info u)

  pub find_unseen_complete :
      (replicas target : ℕ) (chosen nodes : Nodes) (id : Bytes) (info : NodeInfo)
      → Maps.lookup id nodes ≡ some info
      → Maps.lookup id chosen ≡ none
      → has_key sum256 id target 0 replicas ≡ true
      → find_unseen sum256 replicas target chosen nodes ≢ none
  unfolding find_unseen
  find_unseen_complete replicas target chosen [] id info e out has =
      λ _. cc (lookup-nil {V = NodeInfo} id, e)
  find_unseen_complete replicas target chosen ((j, i) ∷ rest) id info e out has =
      ground
        (arith, lookup-cons id j i rest, find_unseen_complete replicas target chosen rest id info)

pub NodupKeys-snoc :
    (j : Bytes) (v : NodeInfo) (m : Nodes)
    → Maps.lookup j m ≡ none
    → NodupKeys m
    → NodupKeys (m ++ ((j, v) ∷ []))
NodupKeys-snoc j v [] fresh u = (lookup-nil {V = NodeInfo} j, tt)
NodupKeys-snoc j v ((i, w) ∷ m) fresh (first, u) =
    let rest : Maps.lookup j m ≡ none = ground (arith, lookup-cons j i w m) in
    (ground (arith, lookup-snoc i j v m rest, lookup-cons j i w m), NodupKeys-snoc j v m rest u)

-- Some of the nodes of a ring, each once.
pub record IsChosen (nodes chosen : Nodes) : Type 0 where
  pub distinct : NodupKeys chosen
  pub members :
      (id : Bytes) (info : NodeInfo)
      → Maps.lookup id chosen ≡ some info
      → Maps.lookup id nodes ≡ some info

pub choose-IsChosen :
    (nodes chosen : Nodes) (id : Bytes) (info : NodeInfo)
    → IsChosen nodes chosen
    → Maps.lookup id nodes ≡ some info
    → Maps.lookup id chosen ≡ none
    → IsChosen nodes (chosen ++ ((id, info) ∷ []))
choose-IsChosen nodes chosen id info c e out = record {
  distinct = NodupKeys-snoc id info chosen out c.distinct;
  members = λ j i found. ground (arith, lookup-snoc j id info chosen out, c.members j i, e);
}

-- The next index of the slice.
pub next_index :
    (idx n : ℕ)
    → idx < n
    → ((suc idx < n) × ((idx + 1) % n ≡ suc idx)) ⊎ ((suc idx ≡ n) × ((idx + 1) % n ≡ 0))
next_index idx n lt = elim (dec_lt (suc idx) n) [
  | yes inside ↦ inl (inside, mod-eq_of_lt (omega arith) ∙ omega arith)
  | no last ↦
      inr (omega arith, ap (λ (k : ℕ). k % n) {x = idx + 1} {y = n} (omega arith) ∙ mod_self n)
]

-- `d` rounds behind `idx` the loop comes to the index `j`.
abbrev pub Reaches : ℕ → ℕ → ℕ → ℕ → Type 0
Reaches n idx j d = (j < n) × ((idx + d ≡ j) ⊎ (idx + d ≡ j + n))

pub Reaches-some : (n idx j : ℕ) → idx < n → j < n → (d : ℕ) × (d < n) × Reaches n idx j d
Reaches-some n idx j lt jl = elim (dec_lt j idx) [
  | yes behind ↦ (j + n - idx, omega arith, (jl, inr (omega arith)))
  | no ahead ↦ (j - idx, omega arith, (jl, inl (omega arith)))
]

pub Reaches-next :
    (n idx j d : ℕ) → idx < n → Reaches n idx j (suc d) → d < n → Reaches n ((idx + 1) % n) j d
Reaches-next n idx j d lt (jl, r) dn = elim (next_index idx n lt) [
  | inl (inside, e) ↦ (jl, elim r [ inl a ↦ inl (omega arith) | inr b ↦ inr (omega arith) ])
  | inr (last, e) ↦ (jl, elim r [ inl a ↦ absurd (omega arith) | inr b ↦ inl (omega arith) ])
]
