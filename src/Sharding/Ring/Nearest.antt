-- ===== src/Sharding/Ring/Nearest.antt =====
-- The search of sharding/ring.go for the first point on the ring from the key's hash on.
use titan_distributed_kv.Common.{
  ℕ, zero, suc, ◌<◌, ◌≤◌, ◌≡◌, subst, ◌⊎◌, inl, inr, List, [], ◌∷◌, Bytes, bytes_key, Bool, true,
  false, some, Has, arith, Bool-cases, length, leb, get_or, get_elem?, get_elem?-lt, Has-get_elem?,
  Has-index,
}
use titan_distributed_kv.Sharding.Sorted.{
  IsSorted, IsSorted-get_or, IsFirst, IsMonotone, sort_search-IsFirst,
}
use titan_distributed_kv.Sharding.Ring.{hash_key, search_key, first_index}

-- `p` is the point at which a walk along the ring from `h` arrives first: the least of the points from
-- `h` on or, where there is none, the least of all.
pub record IsNearest (h : ℕ) (keys : List ℕ) (p : ℕ) : Type 0 where
  pub here : Has p keys
  pub nearest :
      ((h ≤ p) × ((q : ℕ) → Has q keys → h ≤ q → p ≤ q))
      ⊎ (((q : ℕ) → Has q keys → q < h) × ((q : ℕ) → Has q keys → p ≤ q))

get_or-get_elem? : (xs : List ℕ) (i x : ℕ) → get_elem? xs i ≡ some x → get_or xs i 0 ≡ x
get_or-get_elem? [] i x e = absurd (cc)
get_or-get_elem? (y ∷ xs) zero x e = cc
get_or-get_elem? (y ∷ xs) (suc i) x e = get_or-get_elem? xs i x e

pub le_of_leb : (a b : ℕ) → leb a b ≡ true → a ≤ b
le_of_leb a b e = ground arith

pub lt_of_leb : (a b : ℕ) → leb a b ≡ false → b < a
lt_of_leb a b e = ground arith

leb_of_le : (a b : ℕ) → a ≤ b → leb a b ≡ true
leb_of_le a b e = ground arith

module _ (h : ℕ) (keys : List ℕ) (sorted : IsSorted keys) where
  abbrev reaches : ℕ → Bool
  reaches j = leb h (get_or keys j 0)

  reaches-index :
      (i j q : ℕ) → IsFirst reaches (length keys) i → get_elem? keys j ≡ some q → h ≤ q → i ≤ j
  reaches-index i j q first e hq = elim (Bool-cases (leb i j)) [
    | inl le ↦ le_of_leb i j le
    | inr gt ↦ absurd (
        omega (
          arith,
          lt_of_leb h (get_or keys j 0) (first.below j (lt_of_leb i j gt)),
          get_or-get_elem? keys j q e,
        ))
  ]

  index_le :
      (i j p q : ℕ)
      → i ≤ j
      → j < length keys
      → get_elem? keys i ≡ some p
      → get_elem? keys j ≡ some q
      → p ≤ q
  index_le i j p q ij lt ep eq = omega (
    arith,
    IsSorted-get_or keys i j sorted ij lt,
    get_or-get_elem? keys i p ep,
    get_or-get_elem? keys j q eq,
  )

  IsNearest-inside :
      (i p : ℕ)
      → IsFirst reaches (length keys) i
      → i < length keys
      → get_elem? keys i ≡ some p
      → IsNearest h keys p
  IsNearest-inside i p first lt e = record {
    here = Has-get_elem? keys i p e;
    nearest = inl (
      omega (arith, le_of_leb h (get_or keys i 0) (first.holds lt), get_or-get_elem? keys i p e),
      λ q has hq.
          let (j, jl, je) = Has-index keys q has in
          index_le i j p q (reaches-index i j q first je hq) jl e je,
    );
  }

  IsNearest-wrapped :
      (p : ℕ)
      → IsFirst reaches (length keys) (length keys)
      → get_elem? keys 0 ≡ some p
      → IsNearest h keys p
  IsNearest-wrapped p first e = record {
    here = Has-get_elem? keys 0 p e;
    nearest = inr (
      λ q has.
          let (j, jl, je) = Has-index keys q has in
          omega
            (arith, lt_of_leb h (get_or keys j 0) (first.below j jl), get_or-get_elem? keys j q je),
      λ q has. let (j, jl, je) = Has-index keys q has in index_le 0 j p q (omega arith) jl e je,
    );
  }

  reaches-IsMonotone : IsMonotone reaches (length keys)
  reaches-IsMonotone i j ij lt e =
      leb_of_le h (get_or keys j 0)
        (omega (arith, le_of_leb h (get_or keys i 0) e, IsSorted-get_or keys i j sorted ij lt))

module _ (sum256 : Bytes → Bytes) where
  first_index-inside :
      (key : Bytes) (keys : List ℕ)
      → search_key sum256 key keys < length keys
      → first_index sum256 key keys ≡ search_key sum256 key keys
  unfolding first_index
  first_index-inside key keys lt = ground arith

  first_index-wrapped :
      (key : Bytes) (keys : List ℕ)
      → length keys ≤ search_key sum256 key keys
      → first_index sum256 key keys ≡ 0
  unfolding first_index
  first_index-wrapped key keys le = ground arith

  search_key-IsFirst :
      (key : Bytes) (keys : List ℕ)
      → (sorted : IsSorted keys)
      → IsFirst
          (reaches (hash_key sum256 key) keys sorted)
          (length keys)
          (search_key sum256 key keys)
  unfolding search_key
  search_key-IsFirst key keys sorted =
      sort_search-IsFirst (length keys) (reaches (hash_key sum256 key) keys sorted)
        (reaches-IsMonotone (hash_key sum256 key) keys sorted)

  -- On sorted keys, the search and its wrap-around give the index of the nearest point.
  pub first_index-IsNearest :
      (key : Bytes) (keys : List ℕ)
      → IsSorted keys
      → 0 < length keys
      → (p : ℕ) × (get_elem? keys (first_index sum256 key keys) ≡ some p)
        × IsNearest (hash_key sum256 key) keys p
  first_index-IsNearest key keys sorted some_keys =
      elim (Bool-cases (leb (length keys) (search_key sum256 key keys))) [
        | inr inside ↦
            let lt = lt_of_leb (length keys) (search_key sum256 key keys) inside in
            let (p, e) = get_elem?-lt keys (search_key sum256 key keys) lt in
            (
              p,
              rw (first_index-inside key keys lt) e,
              IsNearest-inside (hash_key sum256 key) keys sorted (search_key sum256 key keys) p
                  (search_key-IsFirst key keys sorted) lt e,
            )
        | inl past ↦
            let le = le_of_leb (length keys) (search_key sum256 key keys) past in
            let (p, e) = get_elem?-lt keys 0 some_keys in
            let first = search_key-IsFirst key keys sorted in
            (
              p,
              rw (first_index-wrapped key keys le) e,
              IsNearest-wrapped (hash_key sum256 key) keys sorted p
                  (subst (IsFirst (reaches (hash_key sum256 key) keys sorted) (length keys))
                    (omega (arith, first.bound)) first)
                  e,
            )
      ]
