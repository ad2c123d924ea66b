-- ===== src/Sharding/Sorted.antt =====
-- What sharding/ring.go takes from Go's package sort: `sort.Slice` on uint32 numbers, `sort.Search`.
use titan_distributed_kv.Common.{
  ℕ, zero, suc, ◌+◌, ◌/◌, ◌≤◌, ◌<◌, ◌≡◌, ◌⊎◌, inl, inr, List, [], ◌∷◌, Bool, true, false, ltb, leb,
  length, get_or, Has, if◌then◌else◌, ◌↔◌, arith, Bool-cases, subst,
}

-- The search loop: `i` is the lower end, `j` the upper one. A round makes `j - i` smaller.
unfoldable pub search_between : (ℕ → Bool) → ℕ → ℕ → ℕ → ℕ
search_between f zero i j = i
search_between f (suc fuel) i j = elim (ltb i j) [
  | false ↦ i
  | true ↦ elim (f ((i + j) / 2)) [
    | false ↦ search_between f fuel ((i + j) / 2 + 1) j
    | true ↦ search_between f fuel i ((i + j) / 2)
  ]
]

-- `sort.Search(n, f)`
unfoldable pub sort_search : ℕ → (ℕ → Bool) → ℕ
unfolding search_between
sort_search n f = search_between f n 0 n

-- `f` does not turn from true to false.
abbrev pub IsMonotone : (ℕ → Bool) → ℕ → Type 0
IsMonotone f n = (i j : ℕ) → i ≤ j → j < n → f i ≡ true → f j ≡ true

-- `r` is the first of the numbers up to `n` at which `f` holds, or `n`.
pub record IsFirst (f : ℕ → Bool) (n r : ℕ) : Type 0 where
  pub bound : r ≤ n
  pub below : (i : ℕ) → i < r → f i ≡ false
  pub holds : r < n → f r ≡ true

search_between-stop : (f : ℕ → Bool) (fuel i j : ℕ) → j ≤ i → search_between f (suc fuel) i j ≡ i
unfolding search_between
search_between-stop f fuel i j h = ground arith

search_between-left :
    (f : ℕ → Bool) (fuel i j : ℕ)
    → i < j
    → f ((i + j) / 2) ≡ true
    → search_between f (suc fuel) i j ≡ search_between f fuel i ((i + j) / 2)
unfolding search_between
search_between-left f fuel i j h e = ground arith

search_between-right :
    (f : ℕ → Bool) (fuel i j : ℕ)
    → i < j
    → f ((i + j) / 2) ≡ false
    → search_between f (suc fuel) i j ≡ search_between f fuel ((i + j) / 2 + 1) j
unfolding search_between
search_between-right f fuel i j h e = ground arith

false_below :
    (f : ℕ → Bool) (n h k : ℕ) → IsMonotone f n → h < n → f h ≡ false → k ≤ h → f k ≡ false
false_below f n h k mono hn e kh = elim (Bool-cases (f k)) [
  | inl t ↦ absurd (cc (mono k h kh hn t, e))
  | inr no_k ↦ no_k
]

search_between-IsFirst :
    (f : ℕ → Bool) (n fuel i j : ℕ)
    → IsMonotone f n
    → j ≤ i + fuel
    → i ≤ j
    → j ≤ n
    → ((k : ℕ) → k < i → f k ≡ false)
    → (j < n → f j ≡ true)
    → IsFirst f n (search_between f fuel i j)
unfolding search_between
search_between-IsFirst f n zero i j mono enough ij jn low high = record {
  bound = omega arith;
  below = low;
  holds = λ h. subst (λ k. f k ≡ true) (omega arith) (high (omega arith));
}
search_between-IsFirst f n (suc fuel) i j mono enough ij jn low high = elim (Bool-cases (ltb i j)) [
  | inr stop ↦ rw (search_between-stop f fuel i j (ground arith)) (record {
    bound = omega arith;
    below = low;
    holds = λ h. subst (λ k. f k ≡ true) (ground arith) (high (ground arith));
  })
  | inl go ↦ elim (Bool-cases (f ((i + j) / 2))) [
    | inl yes_h ↦ rw (search_between-left f fuel i j (ground arith) yes_h) (
        search_between-IsFirst f n fuel i ((i + j) / 2) mono (ground arith) (ground arith)
          (ground arith) low (λ _. yes_h))
    | inr no_h ↦ rw (search_between-right f fuel i j (ground arith) no_h) (
        search_between-IsFirst f n fuel ((i + j) / 2 + 1) j mono (ground arith) (ground arith) jn
          (λ k kh. false_below f n ((i + j) / 2) k mono (ground arith) no_h (omega arith)) high)
  ]
]

-- On a test that does not turn from true to false, `sort.Search` gives the first number at which it
-- holds, or `n`.
pub sort_search-IsFirst : (n : ℕ) (f : ℕ → Bool) → IsMonotone f n → IsFirst f n (sort_search n f)
unfolding sort_search
sort_search-IsFirst n f mono =
    search_between-IsFirst f n n 0 n mono (omega arith) (omega arith) (omega arith)
      (λ k h. absurd (omega arith)) (λ h. absurd (omega arith))

-- `sort.Slice` with `<` on numbers
pub insert_sorted : ℕ → List ℕ → List ℕ
insert_sorted x [] = x ∷ []
insert_sorted x (y ∷ ys) = let rest = insert_sorted x ys in if leb x y then x ∷ y ∷ ys else y ∷ rest

unfoldable pub sort_slice : List ℕ → List ℕ
unfolding insert_sorted
sort_slice [] = []
sort_slice (x ∷ xs) = insert_sorted x (sort_slice xs)

-- No number of the list is below `x`.
abbrev pub Above : ℕ → List ℕ → Type 0
Above x [] = Unit
Above x (y ∷ ys) = (x ≤ y) × Above x ys

-- The list does not descend.
abbrev pub IsSorted : List ℕ → Type 0
IsSorted [] = Unit
IsSorted (x ∷ xs) = Above x xs × IsSorted xs

Above-get_or : (x : ℕ) (ys : List ℕ) (j : ℕ) → Above x ys → j < length ys → x ≤ get_or ys j 0
Above-get_or x [] j h lt = absurd (omega arith)
Above-get_or x (y ∷ ys) zero (h, hs) lt = h
Above-get_or x (y ∷ ys) (suc j) (h, hs) lt = Above-get_or x ys j hs (omega arith)

pub IsSorted-get_or :
    (xs : List ℕ) (i j : ℕ) → IsSorted xs → i ≤ j → j < length xs → get_or xs i 0 ≤ get_or xs j 0
IsSorted-get_or [] i j h ij lt = absurd (omega arith)
IsSorted-get_or (x ∷ xs) zero zero h ij lt = omega arith
IsSorted-get_or (x ∷ xs) zero (suc j) (h, hs) ij lt = Above-get_or x xs j h (omega arith)
IsSorted-get_or (x ∷ xs) (suc i) zero h ij lt = absurd (omega arith)
IsSorted-get_or (x ∷ xs) (suc i) (suc j) (h, hs) ij lt =
    IsSorted-get_or xs i j hs (omega arith) (omega arith)

Above-le : (x y : ℕ) (ys : List ℕ) → x ≤ y → Above y ys → Above x ys
Above-le x y [] h a = tt
Above-le x y (z ∷ ys) h (a, rest) = (omega arith, Above-le x y ys h rest)

insert_sorted-le : (x y : ℕ) (ys : List ℕ) → x ≤ y → insert_sorted x (y ∷ ys) ≡ x ∷ y ∷ ys
unfolding insert_sorted
insert_sorted-le x y ys h = ground arith

insert_sorted-gt :
    (x y : ℕ) (ys : List ℕ) → y < x → insert_sorted x (y ∷ ys) ≡ y ∷ insert_sorted x ys
unfolding insert_sorted
insert_sorted-gt x y ys h = ground arith

insert_sorted-Above : (w x : ℕ) (ys : List ℕ) → w ≤ x → Above w ys → Above w (insert_sorted x ys)
unfolding insert_sorted
insert_sorted-Above w x [] h a = (h, tt)
insert_sorted-Above w x (y ∷ ys) h (a, rest) = elim (Bool-cases (leb x y)) [
  | inl e ↦ rw (insert_sorted-le x y ys (ground arith)) (h, (a, rest))
  | inr e ↦ rw (insert_sorted-gt x y ys (ground arith)) (a, insert_sorted-Above w x ys h rest)
]

insert_sorted-IsSorted : (x : ℕ) (ys : List ℕ) → IsSorted ys → IsSorted (insert_sorted x ys)
unfolding insert_sorted
insert_sorted-IsSorted x [] h = (tt, tt)
insert_sorted-IsSorted x (y ∷ ys) (h, hs) = elim (Bool-cases (leb x y)) [
  | inl e ↦
      rw (insert_sorted-le x y ys (ground arith))
        ((ground arith, Above-le x y ys (ground arith) h), (h, hs))
  | inr e ↦
      rw (insert_sorted-gt x y ys (ground arith))
        (insert_sorted-Above y x ys (ground arith) h, insert_sorted-IsSorted x ys hs)
]

pub sort_slice-IsSorted : (xs : List ℕ) → IsSorted (sort_slice xs)
unfolding sort_slice
sort_slice-IsSorted [] = tt
sort_slice-IsSorted (x ∷ xs) = insert_sorted-IsSorted x (sort_slice xs) (sort_slice-IsSorted xs)

on_right : {A B C : Type 0} → (B → C) → A ⊎ B → A ⊎ C
on_right f (inl a) = inl a
on_right f (inr b) = inr (f b)

swap_first : {A B C : Type 0} → A ⊎ (B ⊎ C) → B ⊎ (A ⊎ C)
swap_first (inl a) = inr (inl a)
swap_first (inr (inl b)) = inl b
swap_first (inr (inr c)) = inr (inr c)

insert_sorted-Has : (x y : ℕ) (ys : List ℕ) → Has y (insert_sorted x ys) ↔ Has y (x ∷ ys)
unfolding insert_sorted
insert_sorted-Has x y [] = (λ h. h, λ h. h)
insert_sorted-Has x y (z ∷ ys) = elim (Bool-cases (leb x z)) [
  | inl e ↦ rw (insert_sorted-le x z ys (ground arith)) (λ h. h, λ h. h)
  | inr e ↦ rw (insert_sorted-gt x z ys (ground arith)) (
    λ h. swap_first (on_right (insert_sorted-Has x y ys).0 h),
    λ h. on_right (insert_sorted-Has x y ys).1 (swap_first h),
  )
]

-- Sorting keeps what stands in the list.
pub sort_slice-Has : (y : ℕ) (xs : List ℕ) → Has y (sort_slice xs) ↔ Has y xs
unfolding sort_slice
sort_slice-Has y [] = (λ h. h, λ h. h)
sort_slice-Has y (x ∷ xs) =
    let (to, back) = insert_sorted-Has x y (sort_slice xs) in
    let (into, out) = sort_slice-Has y xs in (λ h. on_right into (to h), λ h. back (on_right out h))
