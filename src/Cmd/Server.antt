-- ===== src/Cmd/Server.antt =====
-- `main` of cmd/server/main.go. The Raft library, the network and package grpc are parameters: calls on a state
-- `W`. The log, the parsing of the flags, the tickers and the deferred calls are left out.
pub mod Ticks
pub mod Prepared
pub mod Session
pub mod Alone
use titan_distributed_kv.Common.{
  ℕ, Bytes, codes, bytes_key, Bool, true, false, Option, none, some, [], if◌then◌else◌,
}
use titan_distributed_kv.Common.Errors.{Error, Result, ok, err, wrap}
use titan_distributed_kv.Storage.Disk.{Disk}
use titan_distributed_kv.Storage.Exec.{Store}
use titan_distributed_kv.Storage.Recovery.{new_bitcask}
use titan_distributed_kv.Raft.{Fsm}
use titan_distributed_kv.Raft.Node.{Config, Calls, wrapped, node_is_leader, new_node}
use titan_distributed_kv.Sharding.Ring.{Nodes}
use titan_distributed_kv.Sharding.Membership.{Membership, update_leader, close}
use titan_distributed_kv.Server.Start.{Grpc, start_sharded_server_with_context}
use titan_distributed_kv.Cmd.Peers.{start_membership}

-- The values of the flags
pub record Flags : Type 0 where
  pub grpc_addr : Bytes
  pub raft_addr : Bytes
  pub node_id : Bytes
  pub data_dir : Bytes
  pub bootstrap : Bool
  pub peers : Bytes

abbrev pub default_flags : Flags
default_flags = record {
  grpc_addr = codes ":50051";
  raft_addr = codes ":12000";
  node_id = codes "node1";
  data_dir = codes "./data";
  bootstrap = false;
  peers = [];
}

abbrev pub raft_config : Flags → Config
raft_config flags = record {
  node_id = flags.node_id;
  bind_addr = flags.raft_addr;
  data_dir = flags.data_dir;
  bootstrap = flags.bootstrap;
}

-- What `main` has when it starts to serve: the state machine of its node, and its membership.
pub record Running : Type 0 where
  pub fsm : Fsm
  pub membership : Membership

-- The body of the ticker's loop
unfoldable pub update_own_leader : {W : Type 0} → Calls W → Flags → W → Running → Running
update_own_leader calls flags w node = record node {
  membership = update_leader flags.node_id (node_is_leader calls w) node.membership;
}

-- What a signal does to the node; the context that is cancelled then ends `Serve`.
unfoldable pub interrupt : Running → Running
interrupt node = record node { membership = close node.membership }

module _ (sum256 : Bytes → Bytes) (range : ℕ → Nodes → Nodes) (connect : Bytes → Option Error)
    {W : Type 0} (calls : Calls W) where
  with_membership : Fsm → Result Membership → Result Running
  with_membership f (err e) = err e
  with_membership f (ok m) = ok (record { fsm = f; membership = m })

  with_node : Flags → Result Fsm × W → Result Running × W
  unfolding with_membership
  with_node flags (err e, w) = (err (wrap "Failed to create RAFT node" e), w)
  with_node flags (ok f, w) = (
    with_membership f (
        start_membership sum256 range connect flags.node_id flags.grpc_addr flags.raft_addr
          flags.peers),
    w,
  )

  with_bitcask : Flags → W → Result (Unit {0}) × Store → Result Running × W
  unfolding with_node
  with_bitcask flags w (err e, s) = (err (wrap "Failed to create Bitcask" e), w)
  with_bitcask flags w (ok _, s) = with_node flags (new_node calls (raft_config flags) s w)

  -- `main`, to where it starts the server
  unfoldable pub prepare : Flags → Disk → W → Result Running × W
  unfolding with_bitcask
  prepare flags d w = with_bitcask flags w (new_bitcask d)

  serve_prepared : Grpc W → Flags → Result Running × W → Option Error × W
  serve_prepared grpc flags (err e, w) = (some e, w)
  serve_prepared grpc flags (ok node, w) =
      let r = start_sharded_server_with_context grpc flags.grpc_addr w in
      (wrapped r.0 (wrap "Server failed"), r.1)

  -- `main`, by the error that it ends with
  unfoldable pub server_main : Grpc W → Flags → Disk → W → Option Error × W
  unfolding serve_prepared
  server_main grpc flags d w = serve_prepared grpc flags (prepare flags d w)
