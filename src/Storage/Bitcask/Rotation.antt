-- ===== src/Storage/Bitcask/Rotation.antt =====
-- `rotateFile` and `openCurrentFile` keep the key directory sound and change no value.
use titan_distributed_kv.Common.{
  ℕ, ◌+◌, ◌%◌, ◌≡◌, ◌≢◌, refl, [], append-nil, Bytes, Option, none, some, length, bytes_key,
  same_refl, arith,
}
use titan_distributed_kv.Common.Maps
use titan_distributed_kv.Common.Maps.{NodupKeys, lookup-insert, lookup-erase}
use titan_distributed_kv.Storage.Codec.{word}
use titan_distributed_kv.Storage.Names.{data_name}
use titan_distributed_kv.Storage.Disk.{Entries, Node, file, directory, content}
use titan_distributed_kv.Storage.Exec.{KeyDir}
use titan_distributed_kv.Storage.Bitcask.{get}
use titan_distributed_kv.Storage.Bitcask.Healthy.{healthy, opened_entries, opened_size}
use titan_distributed_kv.Storage.Bitcask.Invariant.{Sound, Extends, Extends-refl, Located-Extends}
use titan_distributed_kv.Storage.Bitcask.Writes.{get-Extends}

-- Opening a file as the current one changes no bytes of other files.
pub opened-Extends :
    (name : Bytes) (m : Entries) (node : Option Node)
    → Maps.lookup name m ≡ node
    → Extends m (opened_entries name m node)
unfolding content
opened-Extends name m none e =
    λ j bytes found. ([], ground (arith, lookup-insert j name (file []) m, append-nil bytes))
opened-Extends name m (some node) e = Extends-refl m

pub opened-current :
    (name : Bytes) (m : Entries) (node : Option Node)
    → Maps.lookup name m ≡ node
    → node ≢ some directory
    → (bytes : Bytes) × (content name (opened_entries name m node) ≡ some bytes)
      × (length bytes ≡ opened_size node)
unfolding content
opened-current name m none e h =
    ([], ground (arith, lookup-insert name name (file []) m, same_refl name), refl)
opened-current name m (some (file bytes)) e h = (bytes, ground arith, refl)
opened-current name m (some directory) e h = absurd (h refl)

pub opened-plain :
    (name : Bytes) (m : Entries) (node : Option Node) (j : Bytes)
    → Maps.lookup j m ≢ some directory
    → Maps.lookup j (opened_entries name m node) ≢ some directory
opened-plain name m none j h = λ e. ground (arith, lookup-insert j name (file []) m)
opened-plain name m (some node) j h = h

module _ (kd : KeyDir) (id : ℕ) (m : Entries) (offset limit : ℕ)
    (sound : Sound kd id m offset) where
  abbrev pub next_name : Bytes
  next_name = data_name ((id + 1) % word)

  abbrev pub next_node : Option Node
  next_node = Maps.lookup next_name m

  pub rotated-Sound :
      Sound kd ((id + 1) % word) (opened_entries next_name m next_node) (opened_size next_node)
  rotated-Sound = record {
    distinct = sound.distinct;
    located = λ j loc found.
        let (v, l) = sound.located j loc found in
        (v, Located-Extends m _ (opened-Extends next_name m next_node refl) l);
    current = opened-current next_name m next_node refl (sound.plain ((id + 1) % word));
    id_fits = omega arith;
    plain = λ i. opened-plain next_name m next_node (data_name i) (sound.plain i);
  }

  pub rotated-view :
      (j : Bytes)
      → get j (
          healthy kd
            ((id + 1) % word)
            (opened_entries next_name m next_node)
            (opened_size next_node)
            limit)
        ≡ get j (healthy kd id m offset limit)
  rotated-view j =
      get-Extends kd kd id ((id + 1) % word) m _ offset _ limit limit sound
        (opened-Extends next_name m next_node refl) j refl
