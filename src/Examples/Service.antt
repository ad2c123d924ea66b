-- ===== src/Examples/Service.antt =====
-- The theorems on the gRPC service and on the replicated state machine, at concrete engines.
use titan_distributed_kv.Common.{
  ◌≡◌, ◌≢◌, refl, sym, ap, subst, ◌<◌, List, [], ◌∷◌, Bytes, codes, false, length, arith,
}
use titan_distributed_kv.Common.Errors.{Result, ok, err}
use titan_distributed_kv.Storage.Codec.{word}
use titan_distributed_kv.Storage.Bitcask
use titan_distributed_kv.Storage.Bitcask.Steps.{set_value, drop_value}
use titan_distributed_kv.Storage.Compaction.{compact}
use titan_distributed_kv.Storage.Compaction.Refinement.{compact-Refines}
use titan_distributed_kv.Raft.{LogEntry, Fsm, Log}
use titan_distributed_kv.Raft.Agreement.{Agree, apply_all, apply_all-Agree}
use titan_distributed_kv.Server.{put, delete}
use titan_distributed_kv.Server.Client.{put_reply, delete_reply}
use titan_distributed_kv.Server.EndToEnd.{Serves, put-Serves, delete-Serves}
use titan_distributed_kv.Examples.Engine.{
  a, one, start, start-IsValid, loaded, loaded-IsValid, get-loaded, rotated, rotated-IsValid,
  rotated_max, in_order, in_order-IsVisit,
}

a_not_empty : a ≢ []
a_not_empty e = cc

put-Serves_example :
    Serves
      (put_reply (ok (put a one start).0))
      (put a one start).1
      (set_value a one (λ j. Bitcask.get j start))
put-Serves_example = put-Serves start a one start-IsValid a_not_empty (omega arith) (omega arith)

delete-Serves_example :
    Serves
      (delete_reply (ok (delete a loaded).0))
      (delete a loaded).1
      (drop_value a (λ j. Bitcask.get j loaded))
delete-Serves_example = delete-Serves loaded a one loaded-IsValid a_not_empty get-loaded

-- Two replicas with the same data: one of them has compacted its files.
abbrev left : Fsm
left = record { api = rotated; index = 2 }

abbrev right : Fsm
right = record { api = (compact in_order false rotated).1.1; index = 2 }

left-Agree : Agree left right
left-Agree =
    let h =
      (compact-Refines in_order rotated in_order-IsVisit rotated-IsValid
        (omega (arith, rotated_max))).0 in
    record {
      valid_left = rotated-IsValid;
      valid_right = h.valid;
      answers = λ key. sym (h.views key);
      index = refl;
    }

-- A reader of entries that takes every entry for a `DELETE` of the key that it holds.
abbrev decode : Bytes → Result LogEntry
decode key = ok (record { operation = codes "DELETE"; key = key; value = [] })

abbrev read_entry : LogEntry → Result LogEntry → LogEntry
read_entry other (ok entry) = entry
read_entry other (err _) = other

decode_fits :
    (key : Bytes)
    → length key < word
    → (entry : LogEntry) → decode key ≡ ok entry
    → (length entry.key < word) × (length entry.value < word)
decode_fits key h entry e =
    subst (λ n. (length n.key < word) × (length n.value < word)) (ap (read_entry entry) e)
      (h, omega arith)

abbrev logs : List Log
logs = record { log_data = a; log_index = 3 } ∷ record { log_data = codes "x"; log_index = 4 } ∷ []

apply_all-Agree_example :
    ((apply_all decode logs left).0 ≡ (apply_all decode logs right).0)
    × Agree (apply_all decode logs left).1 (apply_all decode logs right).1
apply_all-Agree_example =
    apply_all-Agree decode logs left right left-Agree
      (decode_fits a (omega arith), (decode_fits (codes "x") (omega arith), tt))
