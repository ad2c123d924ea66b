-- ===== src/Sharding/Ring/Replicas/Unseen.antt =====
-- As long as fewer nodes are chosen than the ring has, some node is not chosen.
use titan_distributed_kv.Common.{
  ◌<◌, ◌≤◌, ◌≡◌, ◌≢◌, ◌⊎◌, inl, inr, [], ◌∷◌, Bytes, bytes_key, none, some, length, arith,
  Option-cases,
}
use titan_distributed_kv.Common.Maps
use titan_distributed_kv.Common.Maps.{Map, NodupKeys, lookup-nil, lookup-cons, lookup-erase}

module _ {ℓ} {V : Type ℓ} where
  length-erase-le : (k : Bytes) (m : Map Bytes V) → length (Maps.erase k m) ≤ length m
  unfolding Maps.erase
  length-erase-le k [] = omega arith
  length-erase-le k (_ ∷ m) = ground (arith, length-erase-le k m)

  length-erase-lt :
      (k : Bytes) (v : V) (m : Map Bytes V)
      → Maps.lookup k m ≡ some v
      → length (Maps.erase k m) < length m
  unfolding Maps.erase
  length-erase-lt k v [] e = absurd (cc (lookup-nil {V = V} k, e))
  length-erase-lt k v ((j, w) ∷ m) e =
      ground (arith, lookup-cons k j w m, length-erase-le k m, length-erase-lt k v m)

  -- A map whose keys are all keys of another one has no more entries.
  length-le_keys :
      (m chosen : Map Bytes V)
      → NodupKeys m
      → ((k : Bytes) (v : V) → Maps.lookup k m ≡ some v → (w : V) × (Maps.lookup k chosen ≡ some w))
      → length m ≤ length chosen
  length-le_keys [] chosen u sub = omega arith
  length-le_keys ((k, v) ∷ m) chosen (fresh, u) sub =
      let (w, found) = sub k v (ground (arith, lookup-cons k k v m)) in
      omega (
        arith,
        length-erase-lt k w chosen found,
        length-le_keys m (Maps.erase k chosen) u (λ j x e.
            let ne : k ≢ j = λ eq. cc (eq, fresh, e) in
            let (y, at) = sub j x (ground (arith, lookup-cons j k v m)) in
            (y, ground (arith, lookup-erase j k chosen))),
      )

  -- Either some key of `m` is not a key of `chosen`, or all are.
  unseen_cases :
      (m chosen : Map Bytes V)
      → NodupKeys m
      → ((k : Bytes) × (v : V) × (Maps.lookup k m ≡ some v) × (Maps.lookup k chosen ≡ none))
        ⊎ ((k : Bytes) (v : V)
            → Maps.lookup k m ≡ some v
            → (w : V) × (Maps.lookup k chosen ≡ some w))
  unseen_cases [] chosen u = inr (λ k v e. absurd (cc (lookup-nil {V = V} k, e)))
  unseen_cases ((k, v) ∷ m) chosen (fresh, u) = elim (Option-cases (Maps.lookup k chosen)) [
    | inl none_there ↦ inl (k, v, ground (arith, lookup-cons k k v m), none_there)
    | inr (w, there) ↦ elim (unseen_cases m chosen u) [
      | inl (j, x, e, out) ↦
          let ne : j ≢ k = λ eq. cc (eq, fresh, e) in
          inl (j, x, ground (arith, lookup-cons j k v m), out)
      | inr all ↦ inr (λ j x e. elim (bytes_key.dec j k) [
        | yes eq ↦ (w, cc (eq, there))
        | no ne ↦ all j x (ground (arith, lookup-cons j k v m))
      ])
    ]
  ]

  pub unseen :
      (m chosen : Map Bytes V)
      → NodupKeys m
      → length chosen < length m
      → (k : Bytes) × (v : V) × (Maps.lookup k m ≡ some v) × (Maps.lookup k chosen ≡ none)
  unseen m chosen u fewer = elim (unseen_cases m chosen u) [
    | inl found ↦ found
    | inr all ↦ absurd (omega (arith, length-le_keys m chosen u all))
  ]
