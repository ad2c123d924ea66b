-- ===== src/Common/Maps.antt =====
-- Go maps as association lists: one entry for each key, in the order in which the keys came.
use mathlib.Core.Path.{◌≡◌, refl}
use mathlib.Core.Logic.{◌≢◌, ◌⊎◌, inl, inr}
use mathlib.Core.Option.{Option, none, some}
use mathlib.Core.List.{List, [], ◌∷◌}
use native.Mathlib.Omega.{arith}
use titan_distributed_kv.Common.Tests.{if◌then◌else◌}
use titan_distributed_kv.Common.Equality.{Key, same}

abbrev pub Map {ℓ κ} : Type ℓ → Type κ → Type (ℓ ⊔ κ)
Map K V = List (K × V)

module _ {ℓ κ} {K : Type ℓ} {V : Type κ} ⦃e : Key K⦄ where
  -- `v, exists := m[k]`
  unfoldable pub lookup : K → Map K V → Option V
  lookup k [] = none
  lookup k ((j, v) ∷ m) = if same j k then some v else lookup k m

  -- `m[k] = v`
  unfoldable pub insert : K → V → Map K V → Map K V
  insert k v [] = (k, v) ∷ []
  insert k v ((j, w) ∷ m) = if same j k then (j, v) ∷ m else (j, w) ∷ insert k v m

  -- `delete(m, k)`
  unfoldable pub erase : K → Map K V → Map K V
  erase k [] = []
  erase k ((j, w) ∷ m) = let rest = erase k m in if same j k then rest else (j, w) ∷ rest

  -- Each key stands once.
  abbrev pub NodupKeys : Map K V → Type κ
  NodupKeys [] = Unit
  NodupKeys ((k, _) ∷ m) = (lookup k m ≡ none) × NodupKeys m

  pub lookup-nil : (k : K) → lookup k [] ≡ none
  unfolding lookup
  lookup-nil k = refl

  pub lookup-cons :
      (k j : K) (v : V) (m : Map K V)
      → lookup k ((j, v) ∷ m) ≡ (if same j k then some v else lookup k m)
  unfolding lookup
  lookup-cons k j v m = refl

  pub lookup-insert :
      (k j : K) (v : V) (m : Map K V)
      → lookup k (insert j v m) ≡ (if same j k then some v else lookup k m)
  unfolding lookup insert
  lookup-insert k j v [] = refl
  lookup-insert k j v (_ ∷ m) = ground (arith, lookup-insert k j v m)

  pub lookup-erase :
      (k j : K) (m : Map K V) → lookup k (erase j m) ≡ (if same j k then none else lookup k m)
  unfolding lookup erase
  lookup-erase k j [] = ground arith
  lookup-erase k j (_ ∷ m) = ground (arith, lookup-erase k j m)

  pub insert-NodupKeys : (k : K) (v : V) (m : Map K V) → NodupKeys m → NodupKeys (insert k v m)
  unfolding insert
  insert-NodupKeys k v [] u = (lookup-nil k, tt)
  insert-NodupKeys k v ((j, w) ∷ m) (fresh, u) =
      ground (arith, insert-NodupKeys k v m u, lookup-insert j k v m)

  pub erase-NodupKeys : (k : K) (m : Map K V) → NodupKeys m → NodupKeys (erase k m)
  unfolding erase
  erase-NodupKeys k [] u = tt
  erase-NodupKeys k ((j, w) ∷ m) (fresh, u) =
      ground (arith, erase-NodupKeys k m u, lookup-erase j k m)

  -- Where an entry of an updated map comes from.
  pub lookup-insert_cases :
      (k j : K) (v w : V) (m : Map K V)
      → lookup k (insert j v m) ≡ some w
      → ((j ≡ k) × (v ≡ w)) ⊎ ((j ≢ k) × (lookup k m ≡ some w))
  lookup-insert_cases k j v w m h = elim (e.dec j k) [
    | yes p ↦ inl (p, ground (arith, lookup-insert k j v m))
    | no q ↦ inr (q, ground (arith, lookup-insert k j v m))
  ]

  pub lookup-erase_cases :
      (k j : K) (w : V) (m : Map K V)
      → lookup k (erase j m) ≡ some w
      → (j ≢ k) × (lookup k m ≡ some w)
  lookup-erase_cases k j w m h = ground (arith, lookup-erase k j m)

-- The order in which `range` visits the entries of a map: each key once, with its value.
pub record IsVisit {ℓ κ} {K : Type ℓ} {V : Type κ} ⦃e : Key K⦄ (range : Map K V → Map K V)
    : Type (ℓ ⊔ κ) where
  pub lookup-range : (m : Map K V) (k : K) → lookup k (range m) ≡ lookup k m
  pub range-NodupKeys : (m : Map K V) → NodupKeys m → NodupKeys (range m)
