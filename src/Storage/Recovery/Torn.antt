-- ===== src/Storage/Recovery/Torn.antt =====
-- A record that was cut short, as a crash in a `Put` leaves it: a directory with one cannot be opened.
use titan_distributed_kv.Common.{
  ℕ, zero, suc, ◌+◌, ◌-◌, ◌<◌, ◌≤◌, ◌≡◌, refl, ap, ◌∙◌, inl, inr, [], ◌∷◌, ◌++◌, Bytes, some, take,
  length, bytes_key, arith, ltb, Bool-cases,
}
use titan_distributed_kv.Storage.Codec.{
  word, le32, encode, length-encode, read_u32, read_full, read_u32-le32, read_full-append,
}
use titan_distributed_kv.Storage.Names.{data_name}
use titan_distributed_kv.Storage.Names.Laws.{scan_name-data_name}
use titan_distributed_kv.Storage.Disk.{Entries, Result, content}
use titan_distributed_kv.Storage.Disk.Laws.{lookup-content}
use titan_distributed_kv.Storage.Exec.{KeyDir}
use titan_distributed_kv.Storage.Recovery.{read_records, read_data_file, require, new_bitcask}
use titan_distributed_kv.Storage.Recovery.Log.{
  Records, encode_all, replay, AllFit, read_records-append,
}
use titan_distributed_kv.Storage.Recovery.Tombstones.{Fails, read_full_beyond, new_bitcask-Fails}

minus_zero : (n : ℕ) → n ≡ n - 0
minus_zero n = omega arith

minus_suc : (n k : ℕ) → n - k ≡ suc n - suc k
minus_suc n k = omega arith

take_beyond :
    (xs ys : Bytes) (n : ℕ) → length xs ≤ n → take n (xs ++ ys) ≡ xs ++ take (n - length xs) ys
take_beyond [] ys n h = ap (λ (k : ℕ). take k ys) (minus_zero n)
take_beyond (x ∷ xs) ys zero h = absurd (omega arith)
take_beyond (x ∷ xs) ys (suc n) h =
    ap (λ t. x ∷ t)
      (take_beyond xs ys n (omega arith)
        ∙ ap (λ (k : ℕ). xs ++ take k ys) (minus_suc n (length xs)))

length-take : (n : ℕ) (xs : Bytes) → length (take n xs) ≤ n
length-take zero xs = omega arith
length-take (suc n) [] = omega arith
length-take (suc n) (x ∷ xs) = omega (arith, length-take n xs)

-- The value is cut.
torn_value :
    (n : ℕ) (value : Bytes) (next : Bytes → Bytes → Result KeyDir)
    → n < length value
    → Fails (require (read_full (length value) (take n value)) next)
torn_value n value next short =
    read_full_beyond (length value) (take n value) next (omega (arith, length-take n value))

-- The key is cut, or the value behind it.
torn_key :
    (n : ℕ) (key value : Bytes) (next : Bytes → Bytes → Bytes → Result KeyDir)
    → n < length key + length value
    → Fails (
        require
          (read_full (length key) (take n (key ++ value)))
          λ k rest. require (read_full (length value) rest) (next k))
unfolding require
torn_key n key value next short = elim (Bool-cases (ltb n (length key))) [
  | inl inside ↦
      read_full_beyond (length key) (take n (key ++ value)) _
        (ground (arith, length-take n (key ++ value)))
  | inr behind ↦
      rw
        (take_beyond key value n (ground arith), read_full-append key (take (n - length key) value))
        (torn_value (n - length key) value (next key) (ground arith))
]

-- The size of the value is cut, or what is behind it.
torn_size :
    (n : ℕ) (key value : Bytes) (next : ℕ → Bytes → Bytes → Bytes → Result KeyDir)
    → length value < word
    → n < 4 + length key + length value
    → Fails (
        require (read_u32 (take n (le32 (length value) ++ (key ++ value)))) λ size after.
          require
            (read_full (length key) after)
            λ k rest. require (read_full size rest) (next size k))
unfolding require le32 read_u32 read_full
torn_size zero key value next hv short = (_, refl)
torn_size (suc zero) key value next hv short = (_, refl)
torn_size (suc (suc zero)) key value next hv short = (_, refl)
torn_size (suc (suc (suc zero))) key value next hv short = (_, refl)
torn_size (suc (suc (suc (suc n)))) key value next hv short =
    rw (read_u32-le32 (length value) (take n (key ++ value)) hv)
      (torn_key n key value (next (length value)) (omega arith))

-- The first `n` bytes of a record, which has more
torn_record :
    (n fuel id offset : ℕ) (key value : Bytes) (kd : KeyDir)
    → length key < word
    → length value < word
    → 0 < n
    → n < 8 + length key + length value
    → Fails (read_records (suc fuel) id offset (take n (encode key value)) kd)
unfolding read_records encode le32 read_u32 read_full
torn_record zero fuel id offset key value kd hk hv some_bytes short = absurd (omega arith)
torn_record (suc zero) fuel id offset key value kd hk hv some_bytes short = (_, refl)
torn_record (suc (suc zero)) fuel id offset key value kd hk hv some_bytes short = (_, refl)
torn_record (suc (suc (suc zero))) fuel id offset key value kd hk hv some_bytes short = (_, refl)
torn_record (suc (suc (suc (suc n)))) fuel id offset key value kd hk hv some_bytes short =
    rw (read_u32-le32 (length key) (take n (le32 (length value) ++ (key ++ value))) hk)
      (torn_size n key value _ hv (omega arith))

read_data_file-torn :
    (n id : ℕ) (rs : Records) (key value : Bytes) (kd : KeyDir)
    → AllFit rs
    → length key < word
    → length value < word
    → 0 < n
    → n < 8 + length key + length value
    → Fails (read_data_file id (encode_all rs ++ take n (encode key value)) kd)
unfolding read_data_file
read_data_file-torn n id rs key value kd all_fit hk hv some_bytes short =
    let (fuel, enough, e) =
      read_records-append rs (suc (length (encode_all rs ++ take n (encode key value)))) id 0
        (take n (encode key value)) kd all_fit (omega arith) in
    rw e (go fuel enough)
  where
    go :
        (fuel : ℕ)
        → length (take n (encode key value)) < fuel
        → Fails (
            read_records fuel id
              (0 + length (encode_all rs))
              (take n (encode key value))
              (replay id 0 rs kd))
    go zero h = absurd (omega arith)
    go (suc fuel) h = torn_record n fuel id _ key value _ hk hv some_bytes short

-- A directory has a data file that holds a log and behind it, as a crash in a `Put` leaves it, some of the
-- bytes of a record but not all, with sizes that fit a uint32: opening an engine on it, with no faults ahead, returns an error,
-- whatever else is in the directory.
pub restart_torn :
    (m : Entries) (id n : ℕ) (rs : Records) (key value : Bytes)
    → id < word
    → content (data_name id) m ≡ some (encode_all rs ++ take n (encode key value))
    → AllFit rs
    → length key < word
    → length value < word
    → 0 < n
    → n < length (encode key value)
    → Fails (new_bitcask (record { entries = m; faults = [] })).0
restart_torn m id n rs key value fits found all_fit hk hv some_bytes short =
    new_bitcask-Fails m (data_name id) (encode_all rs ++ take n (encode key value)) id
      (lookup-content (data_name id) (encode_all rs ++ take n (encode key value)) m found)
      (scan_name-data_name id fits)
      (λ d.
        read_data_file-torn n id rs key value d all_fit hk hv some_bytes
          (omega (arith, length-encode key value)))
