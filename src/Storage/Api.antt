-- ===== src/Storage/Api.antt =====
-- storage/api.go: the engine behind a test for empty keys, with its errors wrapped.
use titan_distributed_kv.Common.{Bytes, [], Bool, if◌then◌else◌, bytes_key, same}
use titan_distributed_kv.Storage.Disk.{Error, new, wrap, Result, ok, err}
use titan_distributed_kv.Storage.Exec.{KeyDir, Store, M, fail, wrapping}
use titan_distributed_kv.Storage.Bitcask
use titan_distributed_kv.Storage.Compaction

abbrev pub key_empty : Error
key_empty = new "key cannot be empty"

-- API.Put
unfoldable pub put : Bytes → Bytes → M (Unit {0})
put key value =
    if same key [] then fail key_empty else wrapping "put operation failed" (Bitcask.put key value)

wrap_get : Result Bytes → Result Bytes
wrap_get (ok value) = ok value
wrap_get (err e) = err (wrap "get operation failed" e)

-- API.Get
unfoldable pub get : Bytes → Store → Result Bytes
unfolding wrap_get
get key s = if same key [] then err key_empty else wrap_get (Bitcask.get key s)

-- API.Delete
unfoldable pub delete : Bytes → M (Unit {0})
delete key =
    if same key [] then fail key_empty else wrapping "delete operation failed" (Bitcask.delete key)

-- API.Compact
unfoldable pub compact : (KeyDir → KeyDir) → Bool → Store → Result (Unit {0}) × (Bool × Store)
compact range active s = Compaction.compact range active s

-- API.Close
unfoldable pub close : M (Unit {0})
close = Bitcask.close
