-- ===== src/Storage/Bitcask/Writes.antt =====
-- The writes of `Put` and `Delete` keep the key directory sound, and keep the values of other keys.

use mathlib.Core.Path.{subst}
use titan_distributed_kv.Common.{
  ℕ, ◌+◌, ◌<◌, ◌≡◌, ◌≢◌, refl, ap, ◌∙◌, inl, inr, [], ◌++◌, append_assoc, append-nil, Bytes, some,
  length, bytes_key, same_refl, arith, Option-cases, length-append,
}
use titan_distributed_kv.Common.Maps
use titan_distributed_kv.Common.Maps.{
  NodupKeys, lookup-insert, lookup-erase, lookup-insert_cases, lookup-erase_cases, insert-NodupKeys,
  erase-NodupKeys,
}
use titan_distributed_kv.Storage.Codec.{encode, le32, word, length-encode, length-le32}
use titan_distributed_kv.Storage.Names.{data_name}
use titan_distributed_kv.Storage.Disk.{Entries, directory, ok, content, grow}
use titan_distributed_kv.Storage.Disk.Laws.{content-grow, lookup-grow_directory}
use titan_distributed_kv.Storage.Exec.{RecordLocation, KeyDir}
use titan_distributed_kv.Storage.Bitcask.{get, tombstone}
use titan_distributed_kv.Storage.Bitcask.Healthy.{healthy, written, buried, placed}
use titan_distributed_kv.Storage.Bitcask.Invariant.{
  Located, Sound, Extends, Extends-trans, grow-Extends, Located-Extends, read_location-Located,
}

pub grow-content :
    (n b c : Bytes) (m : Entries) → content n m ≡ some c → content n (grow n b m) ≡ some (c ++ b)
grow-content n b c m e = rw (content-grow n n b m, same_refl n, e)

module _ (id : ℕ) (m : Entries) (c : Bytes) (e : content (data_name id) m ≡ some c) where
  written-content :
      (key value : Bytes)
      → content (data_name id) (written id key value m) ≡ some (c ++ (encode key value ++ []))
  unfolding written
  written-content key value =
      grow-content _ value _ _ (
        grow-content _ key _ _
          (grow-content _ (le32 (length value)) _ _ (grow-content _ (le32 (length key)) c m e)))
      ∙ ap some (unfold encode in simp (append_assoc, append-nil))

  pub buried-content :
      (key : Bytes)
      → content (data_name id) (buried id key m)
        ≡ some (c ++ (le32 (length key) ++ (le32 tombstone ++ key)))
  unfolding buried
  buried-content key =
      grow-content _ key _ _
        (grow-content _ (le32 tombstone) _ _ (grow-content _ (le32 (length key)) c m e))
      ∙ ap some (simp append_assoc)

pub written-Extends :
    (id : ℕ) (key value : Bytes) (m : Entries) → Extends m (written id key value m)
unfolding written
written-Extends id key value m = Extends-trans m _ _ (grow-Extends _ (le32 (length key)) m) (
    Extends-trans _ _ _ (grow-Extends _ (le32 (length value)) _)
      (Extends-trans _ _ _ (grow-Extends _ key _) (grow-Extends _ value _)))

pub buried-Extends : (id : ℕ) (key : Bytes) (m : Entries) → Extends m (buried id key m)
unfolding buried
buried-Extends id key m =
    Extends-trans m _ _ (grow-Extends _ (le32 (length key)) m)
      (Extends-trans _ _ _ (grow-Extends _ (le32 tombstone) _) (grow-Extends _ key _))

written-plain :
    (id i : ℕ) (key value : Bytes) (m : Entries)
    → Maps.lookup (data_name i) m ≢ some directory
    → Maps.lookup (data_name i) (written id key value m) ≢ some directory
unfolding written
written-plain id i key value m h = lookup-grow_directory _ _ _ _ (
    lookup-grow_directory _ _ _ _ (lookup-grow_directory _ _ _ _ (lookup-grow_directory _ _ _ m h)))

buried-plain :
    (id i : ℕ) (key : Bytes) (m : Entries)
    → Maps.lookup (data_name i) m ≢ some directory
    → Maps.lookup (data_name i) (buried id key m) ≢ some directory
unfolding buried
buried-plain id i key m h =
    lookup-grow_directory _ _ _ _ (lookup-grow_directory _ _ _ _ (lookup-grow_directory _ _ _ m h))

module _ (kd : KeyDir) (id : ℕ) (m : Entries) (offset limit : ℕ)
    (sound : Sound kd id m offset) where
  -- The record that `Put` has just written is where the new location says.
  pub written-Located :
      (key value : Bytes)
      → length key < word
      → length value < word
      → Located
          (written id key value m)
          (record { file_id = id; offset = offset; size = 8 + length key + length value })
          key
          value
  written-Located key value hk hv = record {
    before = sound.current.0;
    after = [];
    bytes = written-content id m sound.current.0 sound.current.1 key value;
    offset = sound.current.2;
    size = refl;
    key_fits = hk;
    value_fits = hv;
    id_fits = sound.id_fits;
  }

  written-Located_new :
      (key value : Bytes)
      → length key < word
      → length value < word
      → (j : Bytes) (loc : RecordLocation)
      → Maps.lookup j (placed id key value offset kd) ≡ some loc
      → (v : Bytes) × Located (written id key value m) loc j v
  written-Located_new key value hk hv j loc found =
      elim (lookup-insert_cases j key _ loc kd found) [
        | inl (p, q) ↦ (
          value,
          subst (λ l. Located (written id key value m) l j value) q
              (subst
                (λ k.
                  Located (written id key value m)
                    (record { file_id = id; offset = offset; size = 8 + length key + length value })
                    k value)
                p (written-Located key value hk hv)),
        )
        | inr (_, old) ↦
            let (v, l) = sound.located j loc old in
            (v, Located-Extends m _ (written-Extends id key value m) l)
      ]

  length-written :
      (key value c : Bytes)
      → length c ≡ offset
      → length (c ++ (encode key value ++ [])) ≡ offset + (8 + length key + length value)
  length-written key value c e =
      rw append-nil (omega (arith, length-append c (encode key value), length-encode key value))

  pub written-Sound :
      (key value : Bytes)
      → length key < word
      → length value < word
      → Sound
          (placed id key value offset kd)
          id
          (written id key value m)
          (offset + (8 + length key + length value))
  written-Sound key value hk hv = record {
    distinct = insert-NodupKeys key _ kd sound.distinct;
    located = λ j loc found. written-Located_new key value hk hv j loc found;
    current = (
      _,
      written-content id m sound.current.0 sound.current.1 key value,
      length-written key value sound.current.0 sound.current.2,
    );
    id_fits = sound.id_fits;
    plain = λ i. written-plain id i key value m (sound.plain i);
  }

  length-buried :
      (key c : Bytes)
      → length c ≡ offset
      → length (c ++ (le32 (length key) ++ (le32 tombstone ++ key))) ≡ offset + (8 + length key)
  length-buried key c e = omega (
    arith,
    length-append c (le32 (length key) ++ (le32 tombstone ++ key)),
    length-append (le32 (length key)) (le32 tombstone ++ key),
    length-append (le32 tombstone) key,
    length-le32 (length key),
    length-le32 tombstone,
  )

  pub buried-Sound :
      (key : Bytes) → Sound (Maps.erase key kd) id (buried id key m) (offset + (8 + length key))
  buried-Sound key = record {
    distinct = erase-NodupKeys key kd sound.distinct;
    located = λ j loc found.
        let (_, old) = lookup-erase_cases j key loc kd found in
        let (v, l) = sound.located j loc old in
        (v, Located-Extends m _ (buried-Extends id key m) l);
    current = (
      _,
      buried-content id m sound.current.0 sound.current.1 key,
      length-buried key sound.current.0 sound.current.2,
    );
    id_fits = sound.id_fits;
    plain = λ i. buried-plain id i key m (sound.plain i);
  }

-- Growing files and changing the directory leaves a key's value alone where its location stays.
pub get-Extends :
    (kd kd' : KeyDir) (id id' : ℕ) (m m' : Entries) (offset offset' limit limit' : ℕ)
    → Sound kd id m offset
    → Extends m m'
    → (key : Bytes) → Maps.lookup key kd' ≡ Maps.lookup key kd
    → get key (healthy kd' id' m' offset' limit') ≡ get key (healthy kd id m offset limit)
unfolding get
get-Extends kd kd' id id' m m' offset offset' limit limit' sound ext key e =
    elim (Option-cases (Maps.lookup key kd)) [
      | inl absent ↦ rw (get, e, absent)
      | inr (loc, found) ↦
          let (v, l) = sound.located key loc found in
          rw (
            get,
            e,
            found,
            read_location-Located (record { entries = m; faults = [] }) loc key v l,
            read_location-Located (record { entries = m'; faults = [] }) loc key v
                (Located-Extends m m' ext l),
          )
    ]

pub get-Located :
    (kd : KeyDir) (id : ℕ) (m : Entries) (offset limit : ℕ) (key value : Bytes)
    (loc : RecordLocation)
    → Maps.lookup key kd ≡ some loc
    → Located m loc key value
    → get key (healthy kd id m offset limit) ≡ ok value
unfolding get
get-Located kd id m offset limit key value loc found l =
    rw (get, found) (read_location-Located (record { entries = m; faults = [] }) loc key value l)
