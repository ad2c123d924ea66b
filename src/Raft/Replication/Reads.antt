-- ===== src/Raft/Replication/Reads.antt =====
-- What the nodes of a cluster answer: what a prefix of the committed log says of the key.
use titan_distributed_kv.Common.{ℕ, ◌≤◌, ◌≡◌, sym, ap, ◌∙◌, Bytes, bytes_key, Option, arith}
use titan_distributed_kv.Common.Errors.{Result}
use titan_distributed_kv.Storage.Exec.{Store}
use titan_distributed_kv.Storage.Bitcask
use titan_distributed_kv.Storage.Bitcask.Steps.{IsValid}
use titan_distributed_kv.Storage.History.{answer}
use titan_distributed_kv.Raft.{LogEntry}
use titan_distributed_kv.Raft.Replication.Following.{value_at, Reachable-IsFollowed}
use titan_distributed_kv.Raft.Replication.{Replica, Cluster, Reachable}

-- The engines that nodes start on: valid ones that answer as `view` says.
pub record Starts (view : Bytes → Option Bytes) (start : Bytes → Store) : Type 0 where
  pub valid : (id : Bytes) → IsValid (start id)
  pub answers : (id key : Bytes) → Bitcask.get key (start id) ≡ answer (view key)

-- A node with no entry left that it had before it was opened again.
abbrev pub CaughtUp : Replica → Type 0
CaughtUp r = r.applied ≡ r.highest

pub Reachable-reads :
    (decode : Bytes → Result LogEntry) (view : Bytes → Option Bytes) (start : Bytes → Store)
    (c : Cluster) (id key : Bytes)
    → Starts view start
    → Reachable decode start c
    → (m : ℕ) × ((c.replicas id).applied ≤ m)
      × (m ≤ (c.replicas id).highest)
      × (Bitcask.get key (c.replicas id).fsm.api ≡ answer (value_at decode view m c.committed key))
Reachable-reads decode view start c id key from r =
    ((Reachable-IsFollowed decode view start from.valid from.answers r).follows id).reads key

CaughtUp-reads :
    (decode : Bytes → Result LogEntry) (view : Bytes → Option Bytes) (start : Bytes → Store)
    (c : Cluster) (id key : Bytes)
    → Starts view start
    → Reachable decode start c
    → CaughtUp (c.replicas id)
    → Bitcask.get key (c.replicas id).fsm.api
      ≡ answer (value_at decode view (c.replicas id).applied c.committed key)
CaughtUp-reads decode view start c id key from r caught =
    let (m, low, high, e) = Reachable-reads decode view start c id key from r in
    let is : m ≡ (c.replicas id).applied = omega (arith, caught) in
    e ∙ ap (λ (n : ℕ). answer (value_at decode view n c.committed key)) is

pub CaughtUp-agree :
    (decode : Bytes → Result LogEntry) (view : Bytes → Option Bytes) (start : Bytes → Store)
    (c : Cluster) (i j key : Bytes)
    → Starts view start
    → Reachable decode start c
    → CaughtUp (c.replicas i)
    → CaughtUp (c.replicas j)
    → (c.replicas i).applied ≡ (c.replicas j).applied
    → Bitcask.get key (c.replicas i).fsm.api ≡ Bitcask.get key (c.replicas j).fsm.api
CaughtUp-agree decode view start c i j key from r ci cj equal =
    CaughtUp-reads decode view start c i key from r ci
    ∙ ap (λ (n : ℕ). answer (value_at decode view n c.committed key)) equal
    ∙ sym (CaughtUp-reads decode view start c j key from r cj)
