-- ===== src/Storage/Recovery/Log.antt =====
-- A data file that holds whole records only, and what reading it gives.
use titan_distributed_kv.Common.{
  ℕ, zero, suc, ◌+◌, ◌%◌, ◌<◌, ◌≡◌, refl, ap, ◌∙◌, sym, List, [], ◌∷◌, ◌++◌, append_assoc,
  append-nil, Bytes, length, bytes_key, arith, length-append,
}
use titan_distributed_kv.Storage.Codec.{
  word, encode, le32, length-encode, read_u32, read_u32-le32, read_full-append, at_eof,
}
use titan_distributed_kv.Storage.Disk.{ok}
use titan_distributed_kv.Storage.Exec.{KeyDir}
use titan_distributed_kv.Storage.Bitcask.Healthy.{placed}
use titan_distributed_kv.Storage.Recovery.{read_records}

abbrev pub Records : Type 0
Records = List (Bytes × Bytes)

-- The bytes that a sequence of `Put`s writes.
unfoldable pub encode_all : Records → Bytes
encode_all [] = []
encode_all ((key, value) ∷ rs) = encode key value ++ encode_all rs

-- The directory of keys after those `Put`s, the first of them at `offset`.
unfoldable pub replay : ℕ → ℕ → Records → KeyDir → KeyDir
replay id offset [] kd = kd
replay id offset ((key, value) ∷ rs) kd =
    replay id (offset + (8 + length key + length value)) rs (placed id key value offset kd)

-- Each record has a size that fits a uint32.
abbrev pub AllFit : Records → Type 0
AllFit [] = Unit
AllFit ((key, value) ∷ rs) = (8 + length key + length value < word) × AllFit rs

read_u32-nil : read_u32 [] ≡ at_eof
unfolding read_u32
read_u32-nil = refl

encode-append :
    (key value rest : Bytes)
    → encode key value ++ rest
      ≡ le32 (length key) ++ (le32 (length value) ++ (key ++ (value ++ rest)))
unfolding encode
encode-append key value rest = simp append_assoc

-- One round of the loop takes one record.
pub read_records-encode :
    (fuel id offset : ℕ) (key value rest : Bytes) (kd : KeyDir)
    → 8 + length key + length value < word
    → read_records (suc fuel) id offset (encode key value ++ rest) kd
      ≡ read_records fuel id
          (offset + (8 + length key + length value))
          rest
          (placed id key value offset kd)
unfolding read_records
read_records-encode fuel id offset key value rest kd fits =
    let no_wrap : (8 + length key + length value) % word ≡ 8 + length key + length value =
      omega arith in
    rw (
      encode-append key value rest,
      read_u32-le32 (length key) (le32 (length value) ++ (key ++ (value ++ rest))) (omega arith),
      read_u32-le32 (length value) (key ++ (value ++ rest)) (omega arith),
      read_full-append key (value ++ rest),
      read_full-append value rest,
      no_wrap,
    )

-- Reading a log, whatever follows it.
pub read_records-append :
    (rs : Records) (fuel id offset : ℕ) (rest : Bytes) (kd : KeyDir)
    → AllFit rs
    → length (encode_all rs ++ rest) < fuel
    → (fuel' : ℕ) × (length rest < fuel')
      × (read_records fuel id offset (encode_all rs ++ rest) kd
          ≡ read_records fuel' id (offset + length (encode_all rs)) rest (replay id offset rs kd))
unfolding encode_all replay
read_records-append [] fuel id offset rest kd fits enough =
    (fuel, enough, ap (λ (o : ℕ). read_records fuel id o rest kd) (omega arith))
read_records-append ((key, value) ∷ rs) zero id offset rest kd (fit, fits) enough =
    absurd (omega arith)
read_records-append ((key, value) ∷ rs) (suc fuel) id offset rest kd (fit, fits) enough =
    let len = length-encode key value in
    let (fuel', enough', e) =
      read_records-append rs fuel id (offset + (8 + length key + length value)) rest
        (placed id key value offset kd) fits
        (omega (
          arith,
          len,
          length-append (encode key value) (encode_all rs ++ rest),
          ap length (append_assoc (encode key value) (encode_all rs) rest),
        )) in
    (
      fuel',
      enough',
      ap (λ t. read_records (suc fuel) id offset t kd)
            (append_assoc (encode key value) (encode_all rs) rest)
          ∙ read_records-encode fuel id offset key value (encode_all rs ++ rest) kd fit
          ∙ e
          ∙ ap
              (λ (o : ℕ). read_records fuel' id o rest (
                replay id (offset + (8 + length key + length value)) rs
                  (placed id key value offset kd)))
              (omega (arith, len, length-append (encode key value) (encode_all rs))),
    )

-- Reading a whole log gives the directory of keys that its `Put`s had built.
pub read_records-encode_all :
    (rs : Records) (fuel id offset : ℕ) (kd : KeyDir)
    → AllFit rs
    → length (encode_all rs) < fuel
    → read_records fuel id offset (encode_all rs) kd ≡ ok (replay id offset rs kd)
read_records-encode_all rs fuel id offset kd fits enough =
    let (fuel', enough', e) =
      read_records-append rs fuel id offset [] kd fits (rw append-nil enough) in
    ap (λ t. read_records fuel id offset t kd) (sym (append-nil (encode_all rs)))
    ∙ e
    ∙ at_end fuel' enough'
  where
    at_end :
        (fuel' : ℕ)
        → length {A = ℕ} [] < fuel'
        → read_records fuel' id (offset + length (encode_all rs)) [] (replay id offset rs kd)
          ≡ ok (replay id offset rs kd)
    at_end zero h = absurd (omega arith)
    at_end (suc fuel') h = unfold read_records in rw read_u32-nil
