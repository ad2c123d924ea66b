-- ===== src/Cmd/Peers.antt =====
-- The membership that cmd/server/main.go starts with: the node itself and the nodes of the flag `-peers`. The log
-- is left out.
pub mod Joined
pub mod Own
pub mod Routes
pub mod Printed
use titan_distributed_kv.Common.{
  ℕ, suc, Bytes, bytes_key, same, Option, List, [], ◌∷◌, if◌then◌else◌,
}
use titan_distributed_kv.Common.Errors.{Error, Result, ok, err, wrap}
use titan_distributed_kv.Sharding.Ring.{Nodes}
use titan_distributed_kv.Sharding.Membership.{Membership, new_membership, add_node}
use titan_distributed_kv.Cmd.Text.{split, trim_space}

-- An order of visiting the ring's nodes for each call of AddNode, by its number
module _ (sum256 : Bytes → Bytes) (range : ℕ → Nodes → Nodes) (connect : Bytes → Option Error) where
  -- `strings.Split(peer, "|")`, when it has three parts
  unfoldable pub add_parts : ℕ → List Bytes → Membership → Membership
  add_parts i (id ∷ grpc_addr ∷ raft_addr ∷ []) m =
      (add_node sum256 (range i) connect id grpc_addr raft_addr m).1
  add_parts i _ m = m

  -- The body of the loop
  unfoldable pub add_peer : ℕ → Bytes → Membership → Membership
  unfolding add_parts
  add_peer i peer m =
      let trimmed = trim_space peer in
      if same trimmed [] then m else add_parts i (split 124 trimmed) m

  unfoldable pub add_peers : ℕ → List Bytes → Membership → Membership
  unfolding add_peer
  add_peers i [] m = m
  add_peers i (peer ∷ rest) m = add_peers (suc i) rest (add_peer i peer m)

  unfoldable pub with_peers : Bytes → Result (Unit {0}) × Membership → Result Membership
  unfolding add_peers
  with_peers peers (err e, m) = err (wrap "Failed to add local node to membership" e)
  with_peers peers (ok _, m) = ok (if same peers [] then m else add_peers 1 (split 44 peers) m)

  -- The part of `main` that makes the membership
  unfoldable pub start_membership : Bytes → Bytes → Bytes → Bytes → Result Membership
  unfolding with_peers
  start_membership node_id grpc_addr raft_addr peers = with_peers peers (
      add_node sum256 (range 0) connect node_id grpc_addr raft_addr
        (new_membership node_id grpc_addr))
