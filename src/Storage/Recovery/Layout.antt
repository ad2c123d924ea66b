-- ===== src/Storage/Recovery/Layout.antt =====
-- `Put` on an engine over a directory of data files that hold logs, with the rotation of the file.
use titan_distributed_kv.Common.{
  ℕ, suc, ◌+◌, ◌%◌, ◌<◌, ◌≡◌, refl, sym, ap, ap₂, ◌∙◌, List, [], ◌∷◌, ◌++◌, append_assoc,
  append-nil, Bytes, true, false, none, length, length-append, bytes_key, arith, ltb,
}
use titan_distributed_kv.Common.Maps
use titan_distributed_kv.Storage.Codec.{word, encode, le32, length-encode}
use titan_distributed_kv.Storage.Names.{data_name}
use titan_distributed_kv.Storage.Disk.{Entries, Result, ok, grow}
use titan_distributed_kv.Storage.Exec.{KeyDir, Store}
use titan_distributed_kv.Storage.Bitcask.{put}
use titan_distributed_kv.Storage.Bitcask.Healthy.{
  healthy, written, placed, write_record-healthy, rotate_file-healthy,
}
use titan_distributed_kv.Storage.Recovery.Log.{Records, encode_all, replay}
use titan_distributed_kv.Storage.Recovery.Files.{
  files, replays, lookup-files_above, insert-files, grow-files,
}

abbrev Outcome : Type 0
Outcome = Result (Unit {0}) × Store

-- The engine whose closed files and whose current file hold these logs
abbrev pub layout : ℕ → List Records → Records → Store
layout limit closed current =
    healthy (replays 0 closed current []) (length closed) (files 0 closed (encode_all current))
      (length (encode_all current)) limit

encode_all-snoc :
    (rs : Records) (key value : Bytes)
    → encode_all (rs ++ (key, value) ∷ []) ≡ encode_all rs ++ encode key value
unfolding encode_all
encode_all-snoc [] key value = append-nil (encode key value)
encode_all-snoc ((k, v) ∷ rs) key value =
    ap (λ t. encode k v ++ t) (encode_all-snoc rs key value)
    ∙ sym (append_assoc (encode k v) (encode_all rs) (encode key value))

replay-snoc :
    (id offset : ℕ) (rs : Records) (key value : Bytes) (kd : KeyDir)
    → replay id offset (rs ++ (key, value) ∷ []) kd
      ≡ placed id key value (offset + length (encode_all rs)) (replay id offset rs kd)
unfolding replay encode_all
replay-snoc id offset [] key value kd = ap (λ (o : ℕ). placed id key value o kd) (omega arith)
replay-snoc id offset ((k, v) ∷ rs) key value kd =
    replay-snoc id (offset + (8 + length k + length v)) rs key value (placed id k v offset kd)
    ∙ ap
        (λ (o : ℕ).
          placed id key value o
            (replay id (offset + (8 + length k + length v)) rs (placed id k v offset kd)))
        (omega (arith, length-append (encode k v) (encode_all rs), length-encode k v))

replays-snoc :
    (i j : ℕ) (closed : List Records) (rs : Records) (key value : Bytes) (kd : KeyDir)
    → j ≡ i + length closed
    → replays i closed (rs ++ (key, value) ∷ []) kd
      ≡ placed j key value (length (encode_all rs)) (replays i closed rs kd)
replays-snoc i j [] rs key value kd is =
    let start : 0 + length (encode_all rs) ≡ length (encode_all rs) = omega arith in
    let here : i ≡ j = omega arith in
    replay-snoc i 0 rs key value kd
    ∙ ap₂ (λ (n : ℕ) (o : ℕ). placed n key value o (replay i 0 rs kd)) here start
replays-snoc i j (log ∷ closed) rs key value kd is =
    replays-snoc (suc i) j closed rs key value (replay i 0 log kd) (omega arith)

replays-rotated :
    (i j : ℕ) (closed : List Records) (rs : Records) (key value : Bytes) (kd : KeyDir)
    → j ≡ i + suc (length closed)
    → replays i (closed ++ rs ∷ []) ((key, value) ∷ []) kd
      ≡ placed j key value 0 (replays i closed rs kd)
unfolding replay
replays-rotated i j [] rs key value kd is =
    let here : suc i ≡ j = omega arith in
    ap (λ (n : ℕ). placed n key value 0 (replay i 0 rs kd)) here
replays-rotated i j (log ∷ closed) rs key value kd is =
    replays-rotated (suc i) j closed rs key value (replay i 0 log kd) (omega arith)

written-files :
    (closed : List Records) (key value bytes : Bytes)
    → length closed < word
    → written (length closed) key value (files 0 closed bytes)
      ≡ files 0 closed (bytes ++ encode key value)
unfolding written encode
written-files closed key value bytes fits =
    let step : (old more : Bytes)
        → grow (data_name (length closed)) more (files 0 closed old)
          ≡ files 0 closed (old ++ more) =
      λ old more. grow-files 0 (length closed) closed old more (omega arith) fits in
    rw (step bytes (le32 (length key))) (
      rw (step (bytes ++ le32 (length key)) (le32 (length value))) (
        rw (step ((bytes ++ le32 (length key)) ++ le32 (length value)) key) (
          step (((bytes ++ le32 (length key)) ++ le32 (length value)) ++ key) value
          ∙ ap (files 0 closed) (simp append_assoc))))

length-snoc :
    (rs : Records) (key value : Bytes)
    → length (encode_all rs) + (8 + length key + length value)
      ≡ length (encode_all (rs ++ (key, value) ∷ []))
length-snoc rs key value = omega (
  arith,
  ap length (encode_all-snoc rs key value),
  length-append (encode_all rs) (encode key value),
  length-encode key value,
)

length-rotated :
    (closed : List Records) (rs : Records) → suc (length closed) ≡ length (closed ++ rs ∷ [])
length-rotated closed rs = omega (arith, length-append closed (rs ∷ []))

encode_all-one : (key value : Bytes) → encode key value ≡ encode_all ((key, value) ∷ [])
unfolding encode_all
encode_all-one key value = sym (append-nil (encode key value))

module _ (limit : ℕ) where
  healthy-path :
      {kd kd' : KeyDir} {id id' : ℕ} {m m' : Entries} {offset offset' : ℕ}
      → kd ≡ kd'
      → id ≡ id'
      → m ≡ m'
      → offset ≡ offset'
      → ◌≡◌ {A = Outcome}
          (ok tt, healthy kd id m offset limit)
          (ok tt, healthy kd' id' m' offset' limit)
  healthy-path e f g h = λ i. (ok tt, healthy (e i) (f i) (g i) (h i) limit)

  pub put-same_file :
      (closed : List Records) (rs : Records) (key value : Bytes)
      → length closed < word
      → ltb limit (length (encode_all rs)) ≡ false
      → put key value (layout limit closed rs)
        ≡ (ok tt, layout limit closed (rs ++ (key, value) ∷ []))
  unfolding put
  put-same_file closed rs key value fits room =
      rw
        (
          room,
          write_record-healthy (replays 0 closed rs []) (length closed)
              (files 0 closed (encode_all rs)) (length (encode_all rs)) limit key value,
        )
        (healthy-path (sym (replays-snoc 0 (length closed) closed rs key value [] (omega arith)))
          refl
          (written-files closed key value (encode_all rs) fits
            ∙ ap (files 0 closed) (sym (encode_all-snoc rs key value)))
          (length-snoc rs key value))

  pub put-next_file :
      (closed : List Records) (rs : Records) (key value : Bytes)
      → suc (length closed) < word
      → ltb limit (length (encode_all rs)) ≡ true
      → put key value (layout limit closed rs)
        ≡ (ok tt, layout limit (closed ++ rs ∷ []) ((key, value) ∷ []))
  unfolding put
  put-next_file closed rs key value fits full =
      let next : (length closed + 1) % word ≡ suc (length closed) = omega arith in
      let absent =
        lookup-files_above 0 (suc (length closed)) closed (encode_all rs) (omega arith) fits in
      rw
        (
          full,
          rotate_file-healthy (replays 0 closed rs []) (length closed)
              (files 0 closed (encode_all rs)) (length (encode_all rs)) limit none
              (ap (λ (n : ℕ). Maps.lookup (data_name n) (files 0 closed (encode_all rs))) next
                ∙ absent)
              (λ e. cc e),
          next,
          insert-files 0 (suc (length closed)) closed rs (omega arith) fits,
          write_record-healthy (replays 0 closed rs []) (suc (length closed))
              (files 0 (closed ++ rs ∷ []) []) 0 limit key value,
        )
        (healthy-path
          (sym (replays-rotated 0 (suc (length closed)) closed rs key value [] (omega arith)))
          (length-rotated closed rs)
          (ap (λ (n : ℕ). written n key value (files 0 (closed ++ rs ∷ []) []))
              (length-rotated closed rs)
            ∙ written-files (closed ++ rs ∷ []) key value []
                (omega (arith, length-rotated closed rs))
            ∙ ap (files 0 (closed ++ rs ∷ [])) (encode_all-one key value))
          (omega (arith, length-encode key value, ap length (encode_all-one key value))))
