-- ===== src/Cmd/Server/Prepared.antt =====
-- What `main` of cmd/server/main.go has made when it starts to serve.
use titan_distributed_kv.Common.{
  ℕ, ◌≡◌, refl, sym, ap, ◌∙◌, ◌++◌, List, Bytes, bytes_key, Bool, Option, none, some,
}
use titan_distributed_kv.Common.Errors.{Error, Result, ok, err}
use titan_distributed_kv.Common.Maps.{IsVisit}
use titan_distributed_kv.Storage.Disk.{Disk}
use titan_distributed_kv.Storage.Exec.{Store}
use titan_distributed_kv.Storage.Recovery.{new_bitcask}
use titan_distributed_kv.Raft.{new_fsm}
use titan_distributed_kv.Raft.Node.{
  Config, Calls, Steps, run_steps, node_steps, bootstrap_steps, new_node, node_result,
}
use titan_distributed_kv.Sharding.Ring.{NodeInfo, Nodes}
use titan_distributed_kv.Sharding.Membership.{Membership, get_target_node}
use titan_distributed_kv.Cmd.Peers.{start_membership}
use titan_distributed_kv.Cmd.Peers.Joined.{start_membership-IsJoined}
use titan_distributed_kv.Cmd.Peers.Routes.{Routed, IsJoined-Routed}
use titan_distributed_kv.Cmd.Server.Ticks.{ticked, ticked-IsJoined}
use titan_distributed_kv.Cmd.Server.{
  Flags, Running, raft_config, prepare, with_bitcask, with_node, with_membership,
}

module _ (sum256 : Bytes → Bytes) (range : ℕ → Nodes → Nodes) (connect : Bytes → Option Error)
    {W : Type 0} (calls : Calls W) (flags : Flags) where
  -- The node's parts, by what makes them.
  pub record Made (s : Store) (node : Running) : Type 0 where
    pub fsm : node.fsm ≡ new_fsm s
    pub membership :
        start_membership sum256 range connect flags.node_id flags.grpc_addr flags.raft_addr
          flags.peers
        ≡ ok node.membership

  with_membership-Made :
      (s : Store) (r : Result Membership) (node : Running)
      → start_membership sum256 range connect flags.node_id flags.grpc_addr flags.raft_addr
          flags.peers
        ≡ r
      → with_membership sum256 range connect calls (new_fsm s) r ≡ ok node
      → Made s node
  unfolding with_membership
  with_membership-Made s (err e) node made is = absurd (cc is)
  with_membership-Made s (ok m) node made is = record { fsm = cc is; membership = cc (made, is) }

  with_node-Made :
      (s : Store) (r : Option Error × W) (node : Running) (w : W)
      → with_node sum256 range connect calls flags (node_result calls s r) ≡ (ok node, w)
      → Made s node
  unfolding with_node node_result
  with_node-Made s (some e, w') node w is = absurd (cc is)
  with_node-Made s (none, w') node w is =
      with_membership-Made s
        (start_membership sum256 range connect flags.node_id flags.grpc_addr flags.raft_addr
          flags.peers)
        node refl (ap (λ p. p.0) is)

  -- A node that is made over a directory has the engine that `NewBitcask` gives there.
  pub prepare-Made :
      (d : Disk) (s : Store) (w w' : W) (node : Running)
      → new_bitcask d ≡ (ok tt, s)
      → prepare sum256 range connect calls flags d w ≡ (ok node, w')
      → Made s node
  unfolding prepare with_bitcask new_node
  prepare-Made d s w w' node opened is =
      with_node-Made s _ node w'
        (ap (with_bitcask sum256 range connect calls flags w) (sym opened) ∙ is)

-- The calls that NewNode makes.
abbrev pub node_calls : {W : Type 0} (calls : Calls W) → Config → Steps calls
node_calls calls config = node_steps calls config ++ bootstrap_steps calls config

-- Where every address has a client, every order visits the nodes of the ring, the engine opens on the directory
-- and no call of NewNode fails: whatever the flags say, `main` of cmd/server gets to where it serves, with
-- the engine as it was opened; and after any ticks of the leader status, each key has a target, which is the node itself or one that it
-- has a client for.
pub prepare-Routed :
    (sum256 : Bytes → Bytes) (range : ℕ → Nodes → Nodes) (connect : Bytes → Option Error)
    (W : Type 0) (calls : Calls W) (flags : Flags) (d : Disk) (s : Store) (w w' : W)
    (leads : List Bool) (order : Nodes → Nodes) (key : Bytes)
    → ((i : ℕ) → IsVisit (range i))
    → ((address : Bytes) → connect address ≡ none)
    → new_bitcask d ≡ (ok tt, s)
    → run_steps calls (node_calls calls (raft_config flags)) w ≡ (none, w')
    → IsVisit order
    → (node : Running) × (prepare sum256 range connect calls flags d w ≡ (ok node, w'))
      × (node.fsm ≡ new_fsm s)
      × ((target : NodeInfo) × (get_target_node sum256 order key
              (ticked flags.node_id leads node.membership)
            ≡ ok target)
          × Routed (ticked flags.node_id leads node.membership) target)
unfolding prepare with_bitcask with_node with_membership new_node node_result
prepare-Routed sum256 range connect W calls flags d s w w' leads order key visit reaches opened made
      in_order =
    let (m, started, joined) =
      start_membership-IsJoined sum256 range connect visit reaches flags.node_id flags.grpc_addr
        flags.raft_addr flags.peers in
    (
      record { fsm = new_fsm s; membership = m },
      rw (opened, made, started) refl,
      refl,
      IsJoined-Routed sum256 range connect visit reaches order key (ticked flags.node_id leads m)
          in_order
          (ticked-IsJoined sum256 range connect visit reaches flags.node_id leads m joined),
    )
