-- ===== src/Examples/Replication.antt =====
-- The theorems on clusters of state machines, at concrete clusters.
use titan_distributed_kv.Common.{
  ◌≡◌, ◌≤◌, ◌<◌, ℕ, refl, ap, subst, [], ◌∷◌, Bytes, codes, bytes_key, Option, none, length, arith,
}
use titan_distributed_kv.Common.Errors.{Result, ok, err}
use titan_distributed_kv.Common.Maps.{lookup-nil}
use titan_distributed_kv.Storage.Codec.{word}
use titan_distributed_kv.Storage.Exec.{RecordLocation, Store}
use titan_distributed_kv.Storage.Bitcask
use titan_distributed_kv.Storage.Bitcask.Answers.{get_missing}
use titan_distributed_kv.Storage.History.{answer}
use titan_distributed_kv.Raft.{LogEntry, Fsm, Log, new_fsm, restore}
use titan_distributed_kv.Raft.Agreement.{apply_all}
use titan_distributed_kv.Raft.Effects.{EntryFits, entry_write}
use titan_distributed_kv.Raft.Replication.{
  Cluster, change, delivered, commits, delivers, Reachable, initial, next,
}
use titan_distributed_kv.Raft.Replication.Following.{value_at}
use titan_distributed_kv.Raft.Replication.Reads.{Starts, Reachable-reads, CaughtUp-agree}
use titan_distributed_kv.Raft.Replication.Restored.{restore_misses}
use titan_distributed_kv.Examples.Engine.{
  a, b, one, start, start-IsValid, loaded, loaded-IsValid, get-loaded,
}

-- A reader of entries that takes every entry for a `PUT` of the key that it holds.
abbrev decode : Bytes → Result LogEntry
decode key = ok (record { operation = codes "PUT"; key = key; value = one })

abbrev read_entry : LogEntry → Result LogEntry → LogEntry
read_entry other (ok entry) = entry
read_entry other (err _) = other

-- The entries that write "a" and "b".
abbrev log_a : Log
log_a = record { log_data = a; log_index = 1 }

abbrev log_b : Log
log_b = record { log_data = b; log_index = 2 }

decode-fits : (key : Bytes) → length key < word → EntryFits (decode key)
decode-fits key h entry e =
    subst (λ n. (length n.key < word) × (length n.value < word)) (ap (read_entry entry) e)
      (h, omega arith)

log_a-fits : EntryFits (decode log_a.log_data)
log_a-fits = decode-fits a (omega arith)

log_b-fits : EntryFits (decode log_b.log_data)
log_b-fits = decode-fits b (omega arith)

-- Each node starts on an empty engine.
abbrev nothing : Bytes → Option Bytes
nothing key = none

abbrev engines : Bytes → Store
engines id = start

engines-Starts : Starts nothing engines
engines-Starts = record {
  valid = λ id. start-IsValid;
  answers = λ id key. get_missing start key (lookup-nil {V = RecordLocation} key);
}

abbrev one_committed : Cluster
one_committed = record {
  committed = log_a ∷ [];
  replicas = λ id. record { fsm = new_fsm start; applied = 0; highest = 0 };
}

one_committed-Reachable : Reachable decode engines one_committed
one_committed-Reachable = next initial (commits _ log_a log_a-fits)

abbrev a_has_it : Cluster
a_has_it = change a (delivered decode log_a (one_committed.replicas a)) one_committed

a_has_it-Reachable : Reachable decode engines a_has_it
a_has_it-Reachable = next one_committed-Reachable (delivers one_committed a log_a refl)

abbrev both_have_it : Cluster
both_have_it = change b (delivered decode log_a (a_has_it.replicas b)) a_has_it

both_have_it-Reachable : Reachable decode engines both_have_it
unfolding bytes_key
both_have_it-Reachable = next a_has_it-Reachable (delivers a_has_it b log_a refl)

CaughtUp-agree_example :
    Bitcask.get a (both_have_it.replicas a).fsm.api
    ≡ Bitcask.get a (both_have_it.replicas b).fsm.api
unfolding bytes_key
CaughtUp-agree_example =
    CaughtUp-agree decode nothing engines both_have_it a b a engines-Starts both_have_it-Reachable
      refl refl refl

Reachable-reads_example :
    (m : ℕ) × ((a_has_it.replicas a).applied ≤ m)
    × (m ≤ (a_has_it.replicas a).highest)
    × (Bitcask.get a (a_has_it.replicas a).fsm.api
        ≡ answer (value_at decode nothing m a_has_it.committed a))
Reachable-reads_example =
    Reachable-reads decode nothing engines a_has_it a a engines-Starts a_has_it-Reachable

-- A leader that has "a", and a node on an empty engine, which is restored and gets the entry that writes "b".
abbrev leader : Fsm
leader = record { api = loaded; index = 1 }

abbrev late : Fsm
late = record { api = start; index = 0 }

restore_misses_example :
    (Bitcask.get a (apply_all decode (log_b ∷ []) leader).1.api ≡ ok one)
    × (Bitcask.get a (apply_all decode (log_b ∷ []) (restore [] late).1).1.api
        ≡ err Bitcask.key_not_found)
unfolding entry_write bytes_key
restore_misses_example =
    restore_misses decode leader late [] a one (log_b ∷ []) loaded-IsValid start-IsValid get-loaded
      (get_missing start a (lookup-nil {V = RecordLocation} a)) (log_b-fits, tt) refl
