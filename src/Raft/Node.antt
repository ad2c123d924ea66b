-- ===== src/Raft/Node.antt =====
-- The methods of raft/node.go and raft/join.go that set up and change a cluster. The library hashicorp/raft, its
-- stores and the network are a parameter: calls on a state `W`. What a call returns beside an error is left
-- out, and so are options that are the same in each call.
pub mod Servers
pub mod Setup
use titan_distributed_kv.Common.{
  ℕ, ◌≡◌, refl, sym, ap, ◌∙◌, inl, inr, List, [], ◌∷◌, map, ◌++◌, Bytes, codes, Bool, true, false,
  Bool-cases, Option, none, some, if◌then◌else◌,
}
use titan_distributed_kv.Common.Errors.{Error, new, wrap, Result, ok, err}
use titan_distributed_kv.Common.Maps.{Map}
use titan_distributed_kv.Storage.Exec.{Store}
use titan_distributed_kv.Raft.{Fsm, new_fsm, Snapshot, get_last_index}

-- raft.Server
pub record Server : Type 0 where
  pub id : Bytes
  pub address : Bytes

-- Config
pub record Config : Type 0 where
  pub node_id : Bytes
  pub bind_addr : Bytes
  pub data_dir : Bytes
  pub bootstrap : Bool

-- A path is the list of the parts that `filepath.Join` joins.
pub record Calls (W : Type 0) : Type 0 where
  pub is_leader : W → Bool
  pub leader : W → Bytes
  pub resolve : Bytes → W → Option Error × W
  pub new_transport : Bytes → W → Option Error × W
  pub mkdir_all : List Bytes → W → Option Error × W
  pub new_bolt_store : List Bytes → W → Option Error × W
  pub new_snapshot_store : List Bytes → W → Option Error × W
  pub new_raft : Bytes → W → Option Error × W
  pub bootstrap_cluster : List Server → W → Option Error × W
  pub add_voter : Bytes → Bytes → W → Option Error × W
  pub remove_server : Bytes → W → Option Error × W
  pub shutdown : W → Option Error × W

-- An error as the source wraps it.
abbrev pub wrapped : Option Error → (Error → Error) → Option Error
wrapped none f = none
wrapped (some e) f = some (f e)

-- BootstrapClusterWithPeers: the servers. `range` is the order of visiting the map.
abbrev pub servers :
    (Map Bytes Bytes → Map Bytes Bytes) → Bytes → Bytes → Map Bytes Bytes → List Server
servers range id address peers =
    record { id = id; address = address }
    ∷ map (λ peer. record { id = peer.0; address = peer.1 }) (range peers)

module _ {W : Type 0} (calls : Calls W) where
  -- IsLeader
  abbrev pub node_is_leader : W → Bool
  node_is_leader w = calls.is_leader w

  -- Leader
  abbrev pub node_leader : W → Bytes
  node_leader w = calls.leader w

  -- AddPeer
  unfoldable pub add_peer : Bytes → Bytes → W → Option Error × W
  add_peer id address w =
      if node_is_leader w
      then calls.add_voter id address w
      else (some (new "only leader can add peers"), w)

  -- RemovePeer
  unfoldable pub remove_peer : Bytes → W → Option Error × W
  remove_peer id w =
      if node_is_leader w
      then calls.remove_server id w
      else (some (new "only leader can remove peers"), w)

  -- JoinCluster
  unfoldable pub join_cluster : Bytes → Bytes → W → Option Error × W
  join_cluster id address w =
      if node_is_leader w
      then (let r = calls.add_voter id address w in (wrapped r.0 (wrap "failed to add voter"), r.1))
      else (some (new "only leader can add nodes to cluster"), w)

  -- BootstrapClusterWithPeers, without its pause
  unfoldable pub bootstrap_cluster_with_peers :
      (Map Bytes Bytes → Map Bytes Bytes) → Bytes → Bytes → Map Bytes Bytes → W → Option Error × W
  bootstrap_cluster_with_peers range id address peers w =
      let r = calls.bootstrap_cluster (servers range id address peers) w in
      (wrapped r.0 (wrap "failed to bootstrap cluster"), r.1)

  -- The calls of a function that returns the error of the first one that fails, each with its wrapping.
  abbrev pub Steps : Type 0
  Steps = List ((Error → Error) × (W → Option Error × W))

  unfoldable pub run_steps : Steps → W → Option Error × W
  run_steps [] w = (none, w)
  run_steps ((wrapping, call) ∷ rest) w =
      let r = call w in
      let later = run_steps rest r.1 in
      elim r.0 [ some e ↦ (some (wrapping e), r.1) | none ↦ later ]

  -- NewNode, to the node itself
  abbrev pub node_steps : Config → Steps
  node_steps config =
      (wrap "failed to resolve address", calls.resolve config.bind_addr)
      ∷ (wrap "failed to create transport", calls.new_transport config.bind_addr)
      ∷ (
        wrap "failed to create log store directory",
        calls.mkdir_all (config.data_dir ∷ codes "raft" ∷ codes "log" ∷ []),
      )
      ∷ (
        wrap "failed to create log store",
        calls.new_bolt_store (config.data_dir ∷ codes "raft" ∷ codes "log" ∷ codes "raft.db" ∷ []),
      )
      ∷ (
        wrap "failed to create stable store directory",
        calls.mkdir_all (config.data_dir ∷ codes "raft" ∷ codes "stable" ∷ []),
      )
      ∷ (
        wrap "failed to create stable store",
        calls.new_bolt_store
            (config.data_dir ∷ codes "raft" ∷ codes "stable" ∷ codes "raft.db" ∷ []),
      )
      ∷ (
        wrap "failed to create snapshot store directory",
        calls.mkdir_all (config.data_dir ∷ codes "raft" ∷ codes "snapshots" ∷ []),
      )
      ∷ (
        wrap "failed to create snapshot store",
        calls.new_snapshot_store (config.data_dir ∷ codes "raft" ∷ codes "snapshots" ∷ []),
      )
      ∷ (wrap "failed to create raft", calls.new_raft config.node_id)
      ∷ []

  -- NewNode: the bootstrap
  abbrev pub bootstrap_steps : Config → Steps
  bootstrap_steps config =
      if config.bootstrap
      then (
        wrap "failed to bootstrap cluster",
        calls.bootstrap_cluster (record { id = config.node_id; address = config.bind_addr } ∷ []),
      )
        ∷ []
      else []

  -- The end of NewNode: the error, or the node, which is its state machine here.
  unfoldable pub node_result : Store → Option Error × W → Result Fsm × W
  node_result api (some e, w) = (err e, w)
  node_result api (none, w) = (ok (new_fsm api), w)

  -- NewNode, with the state machine of the node. The field `store` of the source, which a Node does not have, is
  -- left out.
  unfoldable pub new_node : Config → Store → W → Result Fsm × W
  unfolding run_steps node_result
  new_node config api w =
      node_result api (run_steps (node_steps config ++ bootstrap_steps config) w)

  -- Shutdown
  unfoldable pub shutdown : W → Option Error × W
  shutdown w = calls.shutdown w

-- GetLastIndex
unfoldable pub node_last_index : Fsm → ℕ
node_last_index f = get_last_index f

-- raft.SnapshotSink
pub record Sink (W : Type 0) : Type 0 where
  pub write : Bytes → W → Option Error × W
  pub close : W → Option Error × W
  pub cancel : W → W

module _ {W : Type 0} (sink : Sink W) where
  write_snapshot : Result Bytes → W → Option Error × W
  write_snapshot (err e) w = (some e, sink.cancel w)
  write_snapshot (ok bytes) w =
      let r = sink.write bytes w in
      let closed = sink.close r.1 in elim r.0 [ some e ↦ (some e, sink.cancel r.1) | none ↦ closed ]

  -- Persist. `encode` is `json.Marshal` of the index.
  unfoldable pub persist : (ℕ → Result Bytes) → Snapshot → W → Option Error × W
  unfolding write_snapshot
  persist encode s w = write_snapshot (encode s.snapshot_index) w
