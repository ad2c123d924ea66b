-- ===== src/Server/Client.antt =====
-- client/client.go: what its methods return for what the call of the server returned. A call is `err`
-- when the RPC itself fails. The text of a server's error becomes the end of the client's error.
use titan_distributed_kv.Common.{[], ◌++◌, Bytes, codes, bytes_key, same, if◌then◌else◌}
use titan_distributed_kv.Common.Errors.{Error, text, Result, ok, err}
use titan_distributed_kv.Server.{PutResponse, GetResponse}

-- The errors that a client returns, as their texts.
pub data Reply {ℓ} (A : Type ℓ) : Type ℓ where
  done : A → Reply A
  failed : Bytes → Reply A

rpc_failed : {A : Type 0} → Bytes → Error → Reply A
rpc_failed message e = failed (message ++ text e)

-- Client.Put
unfoldable pub put_reply : Result PutResponse → Reply (Unit {0})
unfolding rpc_failed
put_reply (err e) = rpc_failed (codes "put RPC failed: ") e
put_reply (ok resp) = if resp.success then done tt else failed (codes "put failed: " ++ resp.error)

-- Client.Get
unfoldable pub get_reply : Result GetResponse → Reply Bytes
unfolding rpc_failed
get_reply (err e) = rpc_failed (codes "get RPC failed: ") e
get_reply (ok resp) =
    if resp.found
    then if same resp.error [] then done resp.value else failed (codes "get error: " ++ resp.error)
    else failed (codes "key not found")

-- Client.Delete
unfoldable pub delete_reply : Result PutResponse → Reply (Unit {0})
unfolding rpc_failed
delete_reply (err e) = rpc_failed (codes "delete RPC failed: ") e
delete_reply (ok resp) =
    if resp.success then done tt else failed (codes "delete failed: " ++ resp.error)
