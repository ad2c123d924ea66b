-- ===== src/Storage/Bitcask/Steps.antt =====
-- What clients read after the writes of `Put` and `Delete`, with the current file not rotated.
use titan_distributed_kv.Common.{
  ℕ, ◌+◌, ◌<◌, ◌≡◌, refl, sym, [], Bytes, true, some, length, if◌then◌else◌, bytes_key, same,
  same_refl, arith,
}
use titan_distributed_kv.Common.Maps
use titan_distributed_kv.Common.Maps.{NodupKeys, lookup-insert, lookup-erase}
use titan_distributed_kv.Storage.Codec.{word}
use titan_distributed_kv.Storage.Names.{data_name}
use titan_distributed_kv.Storage.Disk.{Entries, Result, ok, err}
use titan_distributed_kv.Storage.Exec.{KeyDir, Store}
use titan_distributed_kv.Storage.Bitcask.{get, key_not_found, write_record, write_tombstone}
use titan_distributed_kv.Storage.Bitcask.Healthy.{
  healthy, written, buried, placed, write_record-healthy, write_tombstone-healthy,
}
use titan_distributed_kv.Storage.Bitcask.Invariant.{Sound}
use titan_distributed_kv.Storage.Bitcask.Writes.{
  written-Sound, written-Located, written-Extends, buried-Sound, buried-Extends, get-Extends,
  get-Located,
}

-- An engine in a state that its methods leave when nothing fails.
pub record IsValid (s : Store) : Type 0 where
  pub file_open :
      s.bitcask.current_file
      ≡ some (record { name = data_name s.bitcask.current_file_id; is_open = true })
  pub no_faults : s.disk.faults ≡ []
  pub sound :
      Sound s.bitcask.key_dir s.bitcask.current_file_id s.disk.entries s.bitcask.current_offset

abbrev pub as_healthy : Store → Store
as_healthy s =
    healthy s.bitcask.key_dir s.bitcask.current_file_id s.disk.entries s.bitcask.current_offset
      s.bitcask.max_file_size

pub IsValid-as_healthy : (s : Store) → IsValid s → as_healthy s ≡ s
IsValid-as_healthy s v = λ i. record {
  bitcask = record s.bitcask { current_file = sym v.file_open i };
  disk = record s.disk { faults = sym v.no_faults i };
}

pub healthy-IsValid :
    (kd : KeyDir) (id : ℕ) (m : Entries) (offset limit : ℕ)
    → Sound kd id m offset
    → IsValid (healthy kd id m offset limit)
healthy-IsValid kd id m offset limit h = record { file_open = refl; no_faults = refl; sound = h }

-- What a client sees of `m` at `s`: it succeeds, keeps the invariant, and `Get` answers as `view` says.
pub record Refines (r : Result (Unit {0}) × Store) (view : Bytes → Result Bytes) : Type 0 where
  pub succeeds : r.0 ≡ ok tt
  pub valid : IsValid r.1
  pub views : (key : Bytes) → get key r.1 ≡ view key

abbrev pub set_value : Bytes → Bytes → (Bytes → Result Bytes) → Bytes → Result Bytes
set_value key value view j = if same key j then ok value else view j

abbrev pub drop_value : Bytes → (Bytes → Result Bytes) → Bytes → Result Bytes
drop_value key view j = if same key j then err key_not_found else view j

module _ (kd : KeyDir) (id : ℕ) (m : Entries) (offset limit : ℕ)
    (sound : Sound kd id m offset) where
  views-write_record :
      (key value : Bytes)
      → length key < word
      → length value < word
      → (j : Bytes)
      → get j (
          healthy
            (placed id key value offset kd)
            id
            (written id key value m)
            (offset + (8 + length key + length value))
            limit)
        ≡ set_value key value (λ j'. get j' (healthy kd id m offset limit)) j
  views-write_record key value hk hv j = elim (bytes_key.dec key j) [
    | yes p ↦ ground (
      arith,
      get-Located (placed id key value offset kd) id (written id key value m)
          (offset + (8 + length key + length value)) limit key value _
          (rw (lookup-insert key key _ kd, same_refl key))
          (written-Located kd id m offset limit sound key value hk hv),
    )
    | no q ↦ ground (
      arith,
      lookup-insert j key
          (record { file_id = id; offset = offset; size = 8 + length key + length value }) kd,
      get-Extends kd (placed id key value offset kd) id id m (written id key value m) offset
          (offset + (8 + length key + length value)) limit limit sound
          (written-Extends id key value m) j,
    )
  ]

  pub write_record-Refines :
      (key value : Bytes)
      → length key < word
      → length value < word
      → Refines
          (write_record key value (healthy kd id m offset limit))
          (set_value key value (λ j. get j (healthy kd id m offset limit)))
  write_record-Refines key value hk hv =
      rw (write_record-healthy kd id m offset limit key value) (record {
        succeeds = refl;
        valid =
            healthy-IsValid _ _ _ _ _ (written-Sound kd id m offset limit sound key value hk hv);
        views = views-write_record key value hk hv;
      })

  views-write_tombstone :
      (key j : Bytes)
      → get j (healthy (Maps.erase key kd) id (buried id key m) (offset + (8 + length key)) limit)
        ≡ drop_value key (λ j'. get j' (healthy kd id m offset limit)) j
  unfolding get
  views-write_tombstone key j = elim (bytes_key.dec key j) [
    | yes p ↦ ground (arith, lookup-erase j key kd)
    | no q ↦ ground (
      arith,
      lookup-erase j key kd,
      get-Extends kd (Maps.erase key kd) id id m (buried id key m) offset
          (offset + (8 + length key)) limit limit sound (buried-Extends id key m) j,
    )
  ]

  pub write_tombstone-Refines :
      (key : Bytes)
      → Refines
          (write_tombstone key (healthy kd id m offset limit))
          (drop_value key (λ j. get j (healthy kd id m offset limit)))
  write_tombstone-Refines key = rw (write_tombstone-healthy kd id m offset limit key) (record {
    succeeds = refl;
    valid = healthy-IsValid _ _ _ _ _ (buried-Sound kd id m offset limit sound key);
    views = views-write_tombstone key;
  })
