-- ===== src/Server/Start.antt =====
-- How the servers of server/server.go, server/raft_server.go and server/sharded_server.go are started. The
-- network and package grpc are a parameter: calls on a state `W`. The log is left out; that a context which is
-- done stops the server is the library's way to end `Serve`.
use titan_distributed_kv.Common.{◌≡◌, ◌⊎◌, inl, inr, refl, Bytes, Option, none, some}
use titan_distributed_kv.Common.Errors.{Error, wrap}

-- The service that is registered
pub data Service : Type 0 where
  kv_server : Service
  raft_kv_server : Service
  sharded_kv_server : Service

-- What `Serve` returns: nil, grpc.ErrServerStopped, which is `stopped` here, or another error
pub data Served : Type 0 where
  returned : Served
  stopped : Served
  failed : Error → Served

pub record Grpc (W : Type 0) : Type 0 where
  pub listen : Bytes → W → Option Error × W
  pub serve : Service → W → Served × W
  pub err_server_stopped : Error

module _ {W : Type 0} (grpc : Grpc W) where
  -- The end of a `Start` without a context, and with one
  start_result : Served × W → Option Error × W
  start_result (returned, w) = (none, w)
  start_result (stopped, w) = (some (wrap "failed to serve" grpc.err_server_stopped), w)
  start_result (failed e, w) = (some (wrap "failed to serve" e), w)

  context_result : Served × W → Option Error × W
  context_result (returned, w) = (none, w)
  context_result (stopped, w) = (none, w)
  context_result (failed e, w) = (some (wrap "failed to serve" e), w)

  listened : (Served × W → Option Error × W) → Service → Option Error × W → Option Error × W
  listened result service (some e, w) = (some (wrap "failed to listen" e), w)
  listened result service (none, w) = result (grpc.serve service w)

  -- StartServer
  unfoldable pub start_server : Bytes → W → Option Error × W
  unfolding listened start_result
  start_server address w = listened start_result kv_server (grpc.listen address w)

  -- StartServerWithContext
  unfoldable pub start_server_with_context : Bytes → W → Option Error × W
  unfolding listened context_result
  start_server_with_context address w = listened context_result kv_server (grpc.listen address w)

  -- StartRaftServer
  unfoldable pub start_raft_server : Bytes → W → Option Error × W
  unfolding listened start_result
  start_raft_server address w = listened start_result raft_kv_server (grpc.listen address w)

  -- StartRaftServerWithContext
  unfoldable pub start_raft_server_with_context : Bytes → W → Option Error × W
  unfolding listened context_result
  start_raft_server_with_context address w =
      listened context_result raft_kv_server (grpc.listen address w)

  -- StartShardedServer
  unfoldable pub start_sharded_server : Bytes → W → Option Error × W
  unfolding listened start_result
  start_sharded_server address w = listened start_result sharded_kv_server (grpc.listen address w)

  -- StartShardedServerWithContext
  unfoldable pub start_sharded_server_with_context : Bytes → W → Option Error × W
  unfolding listened context_result
  start_sharded_server_with_context address w =
      listened context_result sharded_kv_server (grpc.listen address w)

  -- A server that was stopped is no failure; any other outcome is as without a context.
  abbrev pub Forgives : Option Error × W → Option Error × W → Type 0
  Forgives with_context without =
      (with_context.1 ≡ without.1)
      × ((with_context ≡ without)
          ⊎ ((without.0 ≡ some (wrap "failed to serve" grpc.err_server_stopped))
              × (with_context.0 ≡ none)))

  result-Forgives : (r : Served × W) → Forgives (context_result r) (start_result r)
  unfolding context_result start_result
  result-Forgives (returned, w) = (refl, inl refl)
  result-Forgives (stopped, w) = (refl, inr (refl, refl))
  result-Forgives (failed e, w) = (refl, inl refl)

  listened-Forgives :
      (service : Service) (r : Option Error × W)
      → Forgives (listened context_result service r) (listened start_result service r)
  unfolding listened
  listened-Forgives service (some e, w) = (refl, inl refl)
  listened-Forgives service (none, w) = result-Forgives (grpc.serve service w)

  -- Each of the three servers with a context leaves the state that it leaves without one, and returns what it
  -- returns without one, or nil where that is grpc.ErrServerStopped from `Serve`.
  pub with_context-Forgives :
      (address : Bytes) (w : W)
      → Forgives (start_server_with_context address w) (start_server address w)
        × Forgives (start_raft_server_with_context address w) (start_raft_server address w)
        × Forgives (start_sharded_server_with_context address w) (start_sharded_server address w)
  unfolding start_server start_server_with_context start_raft_server start_raft_server_with_context
      start_sharded_server start_sharded_server_with_context
  with_context-Forgives address w = (
    listened-Forgives kv_server (grpc.listen address w),
    listened-Forgives raft_kv_server (grpc.listen address w),
    listened-Forgives sharded_kv_server (grpc.listen address w),
  )
