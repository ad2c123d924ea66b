-- ===== src/Storage/Compaction/Reading.antt =====
-- What `Compact` reads of a record: its bytes, where the record stands at its location.
use titan_distributed_kv.Common.{
  suc, ◌-◌, ◌≡◌, refl, ◌∙◌, sym, [], ◌∷◌, ◌++◌, append-nil, Bytes, some, length, bytes_key, arith,
  take-length-append, drop-length-append, length-append,
}
use titan_distributed_kv.Storage.Codec.{encode, length-encode}
use titan_distributed_kv.Storage.Names.{data_name}
use titan_distributed_kv.Storage.Disk.{Entries, Disk}
use titan_distributed_kv.Storage.Exec.{RecordLocation}
use titan_distributed_kv.Storage.Bitcask.Invariant.{
  Located, open_read-content, read_location-Located,
}
use titan_distributed_kv.Storage.Compaction.{read_some, zeros, read_record}

read_some-append : (xs ys : Bytes) → read_some (length xs) (xs ++ ys) ≡ some xs
unfolding read_some zeros
read_some-append [] ys = refl
read_some-append (x ∷ xs) ys =
    let none_left : suc (length xs) - suc (length (xs ++ ys)) ≡ 0 =
      omega (arith, length-append xs ys) in
    rw (none_left, take-length-append xs ys, append-nil)

pub read_record-Located :
    (d : Disk) (loc : RecordLocation) (key value : Bytes)
    → Located d.entries loc key value
    → read_record loc d ≡ some (encode key value)
unfolding read_record
read_record-Located d loc key value h =
    rw
      (
        open_read-content (data_name loc.file_id) _ d h.bytes,
        ← h.offset,
        drop-length-append h.before (encode key value ++ h.after),
        h.size ∙ sym (length-encode key value),
      )
      (read_some-append (encode key value) h.after)

-- A location holds one value of its key.
pub Located-unique :
    (m : Entries) (loc : RecordLocation) (key v w : Bytes)
    → Located m loc key v
    → Located m loc key w
    → v ≡ w
Located-unique m loc key v w p q =
    let d : Disk = record { entries = m; faults = [] } in
    cc (read_location-Located d loc key v p, read_location-Located d loc key w q)
