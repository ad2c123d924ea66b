-- ===== src/Storage/Bitcask/Invariant.antt =====
-- The invariant between the key directory and the bytes of the data files, and what `Get` returns
-- under it.

use titan_distributed_kv.Common.{
  ℕ, ◌+◌, ◌<◌, ◌≡◌, ◌≢◌, ap, ◌∙◌, ◌++◌, append_assoc, Bytes, some, length, bytes_key, arith,
  drop-length-append,
}
use titan_distributed_kv.Common.Maps
use titan_distributed_kv.Common.Maps.{NodupKeys}
use titan_distributed_kv.Storage.Codec.{encode, le32, word, read_u32-le32, read_full-append}
use titan_distributed_kv.Storage.Names.{data_name}
use titan_distributed_kv.Storage.Disk.{Entries, file, directory, Disk, ok, content, open_read}
pub use titan_distributed_kv.Storage.Disk.Extends.{
  Extends, Extends-refl, Extends-trans, grow-Extends,
}
use titan_distributed_kv.Storage.Exec.{RecordLocation, KeyDir}
use titan_distributed_kv.Storage.Bitcask.{read_value, read_location}

-- The record of `key` with `value` stands at `loc`.
pub record Located (m : Entries) (loc : RecordLocation) (key value : Bytes) : Type 0 where
  pub before : Bytes
  pub after : Bytes
  pub bytes : content (data_name loc.file_id) m ≡ some (before ++ (encode key value ++ after))
  pub offset : length before ≡ loc.offset
  pub size : loc.size ≡ 8 + length key + length value
  pub key_fits : length key < word
  pub value_fits : length value < word
  pub id_fits : loc.file_id < word

-- Every key of the directory stands in a file where its location says, and the current file ends at
-- the current offset.
pub record Sound (kd : KeyDir) (id : ℕ) (m : Entries) (offset : ℕ) : Type 0 where
  pub distinct : NodupKeys kd
  pub located :
      (key : Bytes) (loc : RecordLocation)
      → Maps.lookup key kd ≡ some loc
      → (value : Bytes) × Located m loc key value
  pub current : (bytes : Bytes) × (content (data_name id) m ≡ some bytes) × (length bytes ≡ offset)
  pub id_fits : id < word
  pub plain : (i : ℕ) → Maps.lookup (data_name i) m ≢ some directory

pub Located-Extends :
    (m m' : Entries) {loc : RecordLocation} {key value : Bytes}
    → Extends m m'
    → Located m loc key value
    → Located m' loc key value
Located-Extends m m' {loc} {key} {value} ext h =
    let (more, e) = ext (data_name loc.file_id) _ h.bytes in
    record {
      before = h.before;
      after = h.after ++ more;
      bytes =
          e
          ∙ ap some (
              append_assoc h.before _ more
              ∙ ap (λ t. h.before ++ t) (append_assoc (encode key value) h.after more));
      offset = h.offset;
      size = h.size;
      key_fits = h.key_fits;
      value_fits = h.value_fits;
      id_fits = h.id_fits;
    }

pub open_read-content :
    (name bytes : Bytes) (d : Disk)
    → content name d.entries ≡ some bytes
    → open_read name d ≡ ok (file bytes)
unfolding open_read content
open_read-content name bytes d h = ground arith

-- The reads of `Get` find the value of a record.
pub read_value-encode :
    (key value rest : Bytes)
    → length key < word
    → length value < word
    → read_value (encode key value ++ rest) ≡ ok value
unfolding read_value
read_value-encode key value rest hk hv = rw (
  regroup,
  read_u32-le32 (length key) (le32 (length value) ++ (key ++ (value ++ rest))) hk,
  read_u32-le32 (length value) (key ++ (value ++ rest)) hv,
  drop-length-append key (value ++ rest),
  read_full-append value rest,
)
  where
    regroup :
        encode key value ++ rest
        ≡ le32 (length key) ++ (le32 (length value) ++ (key ++ (value ++ rest)))
    regroup = unfold encode in simp append_assoc

pub read_location-Located :
    (d : Disk) (loc : RecordLocation) (key value : Bytes)
    → Located d.entries loc key value
    → read_location loc d ≡ ok value
unfolding read_location
read_location-Located d loc key value h =
    rw
      (
        read_location,
        open_read-content (data_name loc.file_id) _ d h.bytes,
        ← h.offset,
        drop-length-append h.before (encode key value ++ h.after),
      )
      (read_value-encode key value h.after h.key_fits h.value_fits)
