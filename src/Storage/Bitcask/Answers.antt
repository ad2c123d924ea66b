-- ===== src/Storage/Bitcask/Answers.antt =====
-- What `Get` answers on a valid engine: a value, or "key not found".
use titan_distributed_kv.Common.{
  ◌≡◌, refl, ◌⊎◌, inl, inr, subst, Bytes, bytes_key, none, Option-cases,
}
use titan_distributed_kv.Common.Maps
use titan_distributed_kv.Storage.Disk.{ok, err}
use titan_distributed_kv.Storage.Exec.{Store}
use titan_distributed_kv.Storage.Bitcask.{get, key_not_found}
use titan_distributed_kv.Storage.Bitcask.Steps.{IsValid, IsValid-as_healthy}
use titan_distributed_kv.Storage.Bitcask.Writes.{get-Located}

pub get_missing :
    (s : Store) (key : Bytes)
    → Maps.lookup key s.bitcask.key_dir ≡ none
    → get key s ≡ err key_not_found
unfolding get
get_missing s key e = rw (get, e) refl

-- A valid engine either answers a key with a value, or does not have it in its directory of keys.
pub get_cases :
    (s : Store)
    → IsValid s
    → (key : Bytes)
    → ((value : Bytes) × (get key s ≡ ok value)) ⊎ (Maps.lookup key s.bitcask.key_dir ≡ none)
get_cases s v key = elim (Option-cases (Maps.lookup key s.bitcask.key_dir)) [
  | inl absent ↦ inr absent
  | inr (loc, e) ↦
      let (value, located) = v.sound.located key loc e in
      inl (
        value,
        subst (λ u. get key u ≡ ok value) (IsValid-as_healthy s v)
            (get-Located s.bitcask.key_dir s.bitcask.current_file_id s.disk.entries
              s.bitcask.current_offset s.bitcask.max_file_size key value loc e located),
      )
]
