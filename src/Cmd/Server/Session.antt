-- ===== src/Cmd/Server/Session.antt =====
-- The states that a node of cmd/server/main.go gets to, when clients call its server.
use titan_distributed_kv.Common.{ℕ, ◌<◌, ◌≡◌, ◌≢◌, List, [], ◌∷◌, Bytes, bytes_key, Option, length}
use titan_distributed_kv.Common.Errors.{Error, Result, ok}
use titan_distributed_kv.Common.Maps.{IsVisit}
use titan_distributed_kv.Storage.Codec.{word}
use titan_distributed_kv.Storage.History.{Event, did_put, did_delete}
use titan_distributed_kv.Storage.Recovery.Restart.{empty_directory}
use titan_distributed_kv.Raft.{LogEntry, Library}
use titan_distributed_kv.Raft.Node.{Calls}
use titan_distributed_kv.Sharding.Ring.{Nodes}
use titan_distributed_kv.Server.Replicated.{put_entry, delete_entry, Commits}
use titan_distributed_kv.Server.Sharded.{Remote, sharded_put, sharded_delete}
use titan_distributed_kv.Cmd.Server.{Flags, Running, prepare, update_own_leader}

-- What the sessions of a server's clients share: the code's parameters, and the node's flags and its Raft library.
module _ (sum256 : Bytes → Bytes) (range : ℕ → Nodes → Nodes) (connect : Bytes → Option Error)
    {W : Type 0} (calls : Calls W) (flags : Flags) (remote : Remote)
    (decode : Bytes → Result LogEntry) where
  -- The states that a node gets to from the start on an empty directory on. The ticker updates its leader
  -- status, and clients call its server, with keys that are not empty and sizes that fit a uint32; the
  -- library commits the entry of each call.
  pub data Session : List Event → Running → Type 0 where
    starts :
        (w w' : W) (node : Running)
        → prepare sum256 range connect calls flags empty_directory w ≡ (ok node, w')
        → Session [] node
    ticks :
        {h : List Event} {node : Running} (w : W)
        → Session h node
        → Session h (update_own_leader calls flags w node)
    puts :
        {h : List Event} {node : Running} (order : Nodes → Nodes) (encode : LogEntry → Result Bytes)
        (raft : Library) (key value : Bytes)
        → IsVisit order
        → key ≢ []
        → length key < word
        → length value < word
        → Commits decode encode raft (put_entry key value) node.fsm
        → Session h node
        → Session (did_put key value ∷ h) (record {
          fsm = (sharded_put remote node.membership sum256 order encode raft key value node.fsm).1;
          membership = node.membership;
        })
    deletes :
        {h : List Event} {node : Running} (order : Nodes → Nodes) (encode : LogEntry → Result Bytes)
        (raft : Library) (key : Bytes)
        → IsVisit order
        → key ≢ []
        → Commits decode encode raft (delete_entry key) node.fsm
        → Session h node
        → Session (did_delete key ∷ h) (record {
          fsm = (sharded_delete remote node.membership sum256 order encode raft key node.fsm).1;
          membership = node.membership;
        })
