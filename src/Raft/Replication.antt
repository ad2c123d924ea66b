-- ===== src/Raft/Replication.antt =====
-- A cluster of the state machines of raft/fsm.go, as a relation between its states: the library hands each of
-- them the committed entries in their order, and a node may be compacted, or closed and opened again. A snapshot that
-- the library installs on a node that lags behind is no step here: Restored has what becomes of such a node.
pub mod Following
pub mod Reads
pub mod Restored
use titan_distributed_kv.Common.{
  ℕ, suc, ◌+◌, ◌≤◌, ◌<◌, ◌≡◌, List, [], ◌∷◌, ◌++◌, Bytes, bytes_key, same, ltb, false, some,
  if◌then◌else◌, get_elem?,
}
use titan_distributed_kv.Common.Errors.{Result}
use titan_distributed_kv.Common.Maps.{IsVisit}
use titan_distributed_kv.Storage.Codec.{word}
use titan_distributed_kv.Storage.Disk.{sort_entries}
use titan_distributed_kv.Storage.Exec.{KeyDir, Store}
use titan_distributed_kv.Storage.Bitcask
use titan_distributed_kv.Storage.Bitcask.Steps.{IsValid}
use titan_distributed_kv.Storage.Compaction.{max_file_id}
use titan_distributed_kv.Storage.Api
use titan_distributed_kv.Raft.{LogEntry, Fsm, Log, new_fsm, apply}
use titan_distributed_kv.Raft.Effects.{EntryFits}

-- A node: its state machine, how many of the committed entries the library has given it since it was opened
-- last, and the most it had of them at any time.
pub record Replica : Type 0 where
  pub fsm : Fsm
  pub applied : ℕ
  pub highest : ℕ

pub record Cluster : Type 0 where
  pub committed : List Log
  pub replicas : Bytes → Replica

abbrev pub change : Bytes → Replica → Cluster → Cluster
change id r c = record {
  committed = c.committed;
  replicas = λ j. if same j id then r else c.replicas j;
}

-- A node that has a new state of its engine, in the same process.
abbrev pub with_engine : Store → Replica → Replica
with_engine t r = record {
  fsm = record { api = t; index = r.fsm.index };
  applied = r.applied;
  highest = r.highest;
}

-- A node that was opened again over an engine, at an earlier place in the log.
abbrev pub opened : Store → ℕ → Replica → Replica
opened t k r = record { fsm = new_fsm t; applied = k; highest = r.highest }

module _ (decode : Bytes → Result LogEntry) where
  -- A node that got the next entry.
  abbrev pub delivered : Log → Replica → Replica
  delivered log r = record {
    fsm = (apply decode r.fsm log).1;
    applied = suc r.applied;
    highest = if ltb r.highest (suc r.applied) then suc r.applied else r.highest;
  }

  -- What can happen. An entry that is committed has keys and values of uint32 sizes. A compaction has a file id
  -- left. After a node was opened again the library gives it entries from some earlier place on, a snapshot's for one, and its
  -- engine answers as it did before.
  pub data Step : Cluster → Cluster → Type 0 where
    commits :
        (c : Cluster) (log : Log)
        → EntryFits (decode log.log_data)
        → Step c (record { committed = c.committed ++ log ∷ []; replicas = c.replicas })
    delivers :
        (c : Cluster) (id : Bytes) (log : Log)
        → get_elem? c.committed (c.replicas id).applied ≡ some log
        → Step c (change id (delivered log (c.replicas id)) c)
    compacts :
        (c : Cluster) (id : Bytes) (range : KeyDir → KeyDir)
        → IsVisit range
        → max_file_id (sort_entries (c.replicas id).fsm.api.disk.entries) 0 + 1 < word
        → Step c (
            change id
              (with_engine (Api.compact range false (c.replicas id).fsm.api).1.1 (c.replicas id))
              c)
    reopens :
        (c : Cluster) (id : Bytes) (k : ℕ) (t : Store)
        → k ≤ (c.replicas id).applied
        → IsValid t
        → ((key : Bytes) → Bitcask.get key t ≡ Bitcask.get key (c.replicas id).fsm.api)
        → Step c (change id (opened t k (c.replicas id)) c)

  -- The states that a cluster gets to from nodes on the given engines, with no entry committed.
  pub data Reachable (start : Bytes → Store) : Cluster → Type 0 where
    initial : Reachable start (record {
      committed = [];
      replicas = λ id. record { fsm = new_fsm (start id); applied = 0; highest = 0 };
    })
    next : {c d : Cluster} → Reachable start c → Step c d → Reachable start d
