-- ===== src/Common/Equality.antt =====
-- Go's `==` on strings, and on whatever else is the key of a map: a type whose equality is decided.
use Prim.Native.Nat.{ℕ}
use Prim.Native.Char.{code}
use Prim.Native.String.{String}
use mathlib.Core.Path.{◌≡◌, refl, ap₂}
use mathlib.Core.Logic.{ite, ◌≢◌}
use mathlib.Core.Bool.{Bool, true, false}
use mathlib.Core.List.{List, [], ◌∷◌}
use native.Mathlib.Decide.{ℕ_discrete}
use native.Mathlib.Omega.{arith}

-- A Go string or byte slice.
abbrev pub Bytes : Type 0
Bytes = List ℕ

-- The bytes of an ASCII literal.
abbrev pub codes : String → Bytes
codes String.[] = []
codes (String.◌∷◌ c s) = code c ∷ codes s

pub record Key {ℓ} (A : Type ℓ) : Type ℓ where
  pub dec : Discrete A

abbrev pub same {ℓ} : {A : Type ℓ} ⦃e : Key A⦄ → A → A → Bool
same ⦃e⦄ a b = ite (e.dec a b) true false

pub same_refl {ℓ} : {A : Type ℓ} ⦃e : Key A⦄ (k : A) → same k k ≡ true
same_refl k = ground arith

pub same_ne {ℓ} : {A : Type ℓ} ⦃e : Key A⦄ (k j : A) → k ≢ j → same k j ≡ false
same_ne k j h = ground arith

pub eq_of_same {ℓ} : {A : Type ℓ} ⦃e : Key A⦄ (k j : A) → same k j ≡ true → k ≡ j
eq_of_same k j h = ground arith

join_dec {ℓ} :
    {A : Type ℓ} {x y : A} {xs ys : List A} → Dec (x ≡ y) → Dec (xs ≡ ys) → Dec (x ∷ xs ≡ y ∷ ys)
join_dec (yes p) (yes q) = yes (ap₂ ◌∷◌ p q)
join_dec (yes p) (no q) = no (λ e. q (cc))
join_dec (no p) d = no (λ e. p (cc))

bytes_dec : Discrete Bytes
unfolding join_dec ℕ_discrete
bytes_dec [] [] = yes refl
bytes_dec [] (y ∷ ys) = no (λ e. cc)
bytes_dec (x ∷ xs) [] = no (λ e. cc)
bytes_dec (x ∷ xs) (y ∷ ys) = join_dec (ℕ_discrete x y) (bytes_dec xs ys)

instance unfoldable pub bytes_key : Key Bytes
unfolding bytes_dec
bytes_key = record { dec = bytes_dec }
