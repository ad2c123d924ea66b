-- ===== src/Storage/Bitcask/Refinement.antt =====
-- `Put`, `Get` and `Delete` refine a map from keys to values: what a client reads after each of them.
use mathlib.Core.Path.{subst}
use titan_distributed_kv.Common.{
  ℕ, ◌+◌, ◌%◌, ◌<◌, ◌≡◌, refl, ◌∙◌, inl, inr, Bytes, none, some, length, ltb, bytes_key, arith,
  Option-cases, Bool-cases,
}
use titan_distributed_kv.Common.Maps
use titan_distributed_kv.Common.Maps.{NodupKeys, lookup-insert, lookup-erase}
use titan_distributed_kv.Storage.Codec.{word}
use titan_distributed_kv.Storage.Disk.{Entries, Result, ok, err}
use titan_distributed_kv.Storage.Exec.{RecordLocation, KeyDir, Store}
use titan_distributed_kv.Storage.Bitcask.{get, put, delete, key_not_found}
use titan_distributed_kv.Storage.Bitcask.Healthy.{healthy, rotate_file-healthy}
use titan_distributed_kv.Storage.Bitcask.Invariant.{Sound}
use titan_distributed_kv.Storage.Bitcask.Steps.{
  IsValid, IsValid-as_healthy, Refines, set_value, drop_value, write_record-Refines,
  write_tombstone-Refines,
}
use titan_distributed_kv.Storage.Bitcask.Rotation.{rotated-Sound, rotated-view}

Refines-view :
    (r : Result (Unit {0}) × Store) (view view' : Bytes → Result Bytes)
    → ((key : Bytes) → view key ≡ view' key)
    → Refines r view
    → Refines r view'
Refines-view r view view' e h = record {
  succeeds = h.succeeds;
  valid = h.valid;
  views = λ key. h.views key ∙ e key;
}

set_value-view :
    (key value : Bytes) (view view' : Bytes → Result Bytes)
    → ((j : Bytes) → view j ≡ view' j)
    → (j : Bytes) → set_value key value view j ≡ set_value key value view' j
set_value-view key value view view' e j = ground (arith, e j)

put-healthy :
    (kd : KeyDir) (id : ℕ) (m : Entries) (offset limit : ℕ)
    → Sound kd id m offset
    → (key value : Bytes) → length key < word
    → length value < word
    → Refines
        (put key value (healthy kd id m offset limit))
        (set_value key value (λ j. get j (healthy kd id m offset limit)))
unfolding put
put-healthy kd id m offset limit sound key value hk hv = elim (Bool-cases (ltb limit offset)) [
  | inl full ↦
      rw (full, rotate_file-healthy kd id m offset limit _ refl (sound.plain ((id + 1) % word)))
        (Refines-view _ _ _ (set_value-view key value _ _ (rotated-view kd id m offset limit sound))
          (write_record-Refines _ _ _ _ limit (rotated-Sound kd id m offset limit sound) key value
            hk hv))
  | inr room ↦ rw room (write_record-Refines kd id m offset limit sound key value hk hv)
]

-- On a valid engine with no faults ahead, `Put` of a key and a value that fit a uint32 size succeeds,
-- whether it rotates the file or not. It keeps the engine valid; then `Get` of the key gives the
-- value, and `Get` of any other key answers as before.
pub put-Refines :
    (s : Store) (key value : Bytes)
    → IsValid s
    → length key < word
    → length value < word
    → Refines (put key value s) (set_value key value (λ j. get j s))
put-Refines s key value v hk hv =
    subst (λ t. Refines (put key value t) (set_value key value (λ j. get j t)))
      (IsValid-as_healthy s v) (put-healthy _ _ _ _ s.bitcask.max_file_size v.sound key value hk hv)

delete-healthy :
    (kd : KeyDir) (id : ℕ) (m : Entries) (offset limit : ℕ) (loc : RecordLocation)
    → Sound kd id m offset
    → (key : Bytes) → Maps.lookup key kd ≡ some loc
    → Refines
        (delete key (healthy kd id m offset limit))
        (drop_value key (λ j. get j (healthy kd id m offset limit)))
unfolding delete
delete-healthy kd id m offset limit loc sound key found =
    rw (delete, found) (write_tombstone-Refines kd id m offset limit sound key)

-- On a valid engine with no faults ahead, `Delete` of a key that `Get` finds succeeds and keeps the
-- engine valid; then `Get` of the key fails with "key not found", and `Get` of any other key answers
-- as before.
pub delete-Refines :
    (s : Store) (key : Bytes) (value : Bytes)
    → IsValid s
    → get key s ≡ ok value
    → Refines (delete key s) (drop_value key (λ j. get j s))
unfolding get
delete-Refines s key value v found = elim (Option-cases (Maps.lookup key s.bitcask.key_dir)) [
  | inl absent ↦ absurd (ground arith)
  | inr (loc, e) ↦
      subst (λ t. Refines (delete key t) (drop_value key (λ j. get j t))) (IsValid-as_healthy s v)
        (delete-healthy _ _ _ _ s.bitcask.max_file_size loc v.sound key e)
]

-- `Delete` of a key that is not in the directory of keys fails with "key not found" and changes
-- nothing, whatever the state of the files.
pub delete_missing :
    (s : Store) (key : Bytes)
    → Maps.lookup key s.bitcask.key_dir ≡ none
    → delete key s ≡ (err key_not_found, s)
unfolding delete
delete_missing s key e = rw (delete, e)
