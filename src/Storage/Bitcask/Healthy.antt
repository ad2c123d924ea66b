-- ===== src/Storage/Bitcask/Healthy.antt =====
-- What the methods do on a directory where nothing fails: the resulting engine and directory.
use titan_distributed_kv.Common.{
  ℕ, ◌+◌, ◌%◌, ◌≡◌, refl, [], Bytes, true, Option, none, some, length, bytes_key, arith, ◌≢◌,
  same_refl,
}
use titan_distributed_kv.Common.Maps
use titan_distributed_kv.Common.Maps.{lookup-insert}
use titan_distributed_kv.Storage.Codec.{le32, word}
use titan_distributed_kv.Storage.Names.{data_name}
use titan_distributed_kv.Storage.Disk.{
  Entries, Node, file, directory, ok, append, sync, open_append, stat_size, grow, content,
}
use titan_distributed_kv.Storage.Exec.{KeyDir, Bitcask, Store}
use titan_distributed_kv.Storage.Bitcask.{
  write_record, rotate_file, open_current_file, write_tombstone, tombstone,
}

-- An engine with its current file open, over a directory where no call fails.
abbrev pub healthy : KeyDir → ℕ → Entries → ℕ → ℕ → Store
healthy kd id m offset limit = record {
  bitcask = record {
    key_dir = kd;
    current_file_id = id;
    current_file = some (record { name = data_name id; is_open = true });
    current_offset = offset;
    max_file_size = limit;
  };
  disk = record { entries = m; faults = [] };
}

-- The four writes of `Put`.
unfoldable pub written : ℕ → Bytes → Bytes → Entries → Entries
written id key value m = grow (data_name id) value (
    grow (data_name id) key
      (grow (data_name id) (le32 (length value)) (grow (data_name id) (le32 (length key)) m)))

-- The three writes of `Delete`.
unfoldable pub buried : ℕ → Bytes → Entries → Entries
buried id key m =
    grow (data_name id) key
      (grow (data_name id) (le32 tombstone) (grow (data_name id) (le32 (length key)) m))

abbrev pub placed : ℕ → Bytes → Bytes → ℕ → KeyDir → KeyDir
placed id key value offset kd =
    Maps.insert key (record { file_id = id; offset = offset; size = 8 + length key + length value })
      kd

module _ (kd : KeyDir) (id : ℕ) (m : Entries) (offset limit : ℕ) where
  pub write_record-healthy :
      (key value : Bytes)
      → write_record key value (healthy kd id m offset limit) ≡ (
        ok tt,
        healthy
            (placed id key value offset kd)
            id
            (written id key value m)
            (offset + (8 + length key + length value))
            limit,
      )
  unfolding write_record append sync written
  write_record-healthy key value = refl

  pub write_tombstone-healthy :
      (key : Bytes)
      → write_tombstone key (healthy kd id m offset limit) ≡ (
        ok tt,
        healthy (Maps.erase key kd) id (buried id key m) (offset + (8 + length key)) limit,
      )
  unfolding write_tombstone append sync buried
  write_tombstone-healthy key = refl

abbrev pub opened_entries : Bytes → Entries → Option Node → Entries
opened_entries name m none = Maps.insert name (file []) m
opened_entries name m (some _) = m

abbrev pub opened_size : Option Node → ℕ
opened_size none = 0
opened_size (some (file bytes)) = length bytes
opened_size (some directory) = 0

-- The engine and the directory after `openCurrentFile`.
abbrev pub opened : Bitcask → Entries → Option Node → Store
opened b m node = record {
  bitcask = record b {
    current_file = some (record { name = data_name b.current_file_id; is_open = true });
    current_offset = opened_size node;
  };
  disk = record { entries = opened_entries (data_name b.current_file_id) m node; faults = [] };
}

pub open_current_file-healthy :
    (b : Bitcask) (m : Entries) (node : Option Node)
    → Maps.lookup (data_name b.current_file_id) m ≡ node
    → node ≢ some directory
    → open_current_file (record { bitcask = b; disk = record { entries = m; faults = [] } })
      ≡ (ok tt, opened b m node)
unfolding open_current_file open_append stat_size content
open_current_file-healthy b m none e h =
    let n = data_name b.current_file_id in
    ground (arith, lookup-insert n n (file []) m, same_refl n)
open_current_file-healthy b m (some (file bytes)) e h = ground arith
open_current_file-healthy b m (some directory) e h = absurd (h refl)

pub rotate_file-healthy :
    (kd : KeyDir) (id : ℕ) (m : Entries) (offset limit : ℕ) (node : Option Node)
    → Maps.lookup (data_name ((id + 1) % word)) m ≡ node
    → node ≢ some directory
    → rotate_file (healthy kd id m offset limit) ≡ (
      ok tt,
      healthy kd
          ((id + 1) % word)
          (opened_entries (data_name ((id + 1) % word)) m node)
          (opened_size node)
          limit,
    )
unfolding rotate_file
rotate_file-healthy kd id m offset limit node e h = open_current_file-healthy _ m node e h
