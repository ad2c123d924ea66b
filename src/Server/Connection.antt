-- ===== src/Server/Connection.antt =====
-- client/client.go: a client on its connection. Package grpc is a parameter: calls on a state `W`, which include
-- the server.
use titan_distributed_kv.Common.{ℕ, Bytes, Option, none, some}
use titan_distributed_kv.Common.Errors.{Error, wrap, Result, ok, err}
use titan_distributed_kv.Server.{PutResponse, GetResponse}
use titan_distributed_kv.Server.Client.{Reply, put_reply, get_reply, delete_reply}

-- context.Background(), and one that ends after a timeout, in nanoseconds
pub data Context : Type 0 where
  background : Context
  timeout : ℕ → Context

-- The stub of a connection, and its `Close`
pub record Connection (W : Type 0) : Type 0 where
  pub put : Context → Bytes → Bytes → W → Result PutResponse × W
  pub get : Context → Bytes → W → Result GetResponse × W
  pub delete : Context → Bytes → W → Result PutResponse × W
  pub close : W → Option Error × W

-- A context of the caller, which may be nil
abbrev pub or_background : Option Context → Context
or_background none = background
or_background (some ctx) = ctx

-- NewClient, on what `grpc.NewClient` returns
unfoldable pub new_client : {W : Type 0} → Result (Connection W) → Result (Connection W)
new_client (err e) = err (wrap "failed to connect" e)
new_client (ok conn) = ok conn

module _ {W : Type 0} (conn : Connection W) where
  -- Close
  unfoldable pub client_close : W → Option Error × W
  client_close w = conn.close w

  -- Put
  unfoldable pub client_put : Option Context → Bytes → Bytes → W → Reply (Unit {0}) × W
  client_put ctx key value w =
      let r = conn.put (or_background ctx) key value w in (put_reply r.0, r.1)

  -- Get
  unfoldable pub client_get : Option Context → Bytes → W → Reply Bytes × W
  client_get ctx key w = let r = conn.get (or_background ctx) key w in (get_reply r.0, r.1)

  -- Delete
  unfoldable pub client_delete : Option Context → Bytes → W → Reply (Unit {0}) × W
  client_delete ctx key w = let r = conn.delete (or_background ctx) key w in (delete_reply r.0, r.1)

  -- PutWithTimeout
  unfoldable pub put_with_timeout : Bytes → Bytes → ℕ → W → Reply (Unit {0}) × W
  unfolding client_put
  put_with_timeout key value duration w = client_put (some (timeout duration)) key value w

  -- GetWithTimeout
  unfoldable pub get_with_timeout : Bytes → ℕ → W → Reply Bytes × W
  unfolding client_get
  get_with_timeout key duration w = client_get (some (timeout duration)) key w

  -- DeleteWithTimeout
  unfoldable pub delete_with_timeout : Bytes → ℕ → W → Reply (Unit {0}) × W
  unfolding client_delete
  delete_with_timeout key duration w = client_delete (some (timeout duration)) key w
