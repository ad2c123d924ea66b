-- ===== src/Raft/Effects.antt =====
-- What the entries of a log do to the values of keys, and that `Apply` of raft/fsm.go does that.
use titan_distributed_kv.Common.{
  ◌<◌, ◌≡◌, refl, sym, ap, ◌∙◌, inl, inr, List, [], ◌∷◌, ◌++◌, Bytes, codes, bytes_key, same,
  Option, none, some, if◌then◌else◌, ℕ, length, arith, Bool-cases,
}
use titan_distributed_kv.Common.Errors.{Error, wrap, Result, ok, err}
use titan_distributed_kv.Storage.Codec.{word}
use titan_distributed_kv.Storage.Exec.{Store}
use titan_distributed_kv.Storage.Bitcask
use titan_distributed_kv.Storage.Bitcask.Steps.{IsValid}
use titan_distributed_kv.Storage.Bitcask.Refinement.{put-Refines, delete-Refines, delete_missing}
use titan_distributed_kv.Storage.Bitcask.Answers.{get_missing, get_cases}
use titan_distributed_kv.Storage.History.{answer}
use titan_distributed_kv.Storage.Api
use titan_distributed_kv.Raft.{LogEntry, Fsm, Log, finish, apply_entry, apply_decoded, apply}

-- A write to a key: nothing, a value, or its removal.
abbrev pub Write : Type 0
Write = Option (Option Bytes)

abbrev pub overlay : Write → Option Bytes → Option Bytes
overlay none before = before
overlay (some now) before = now

-- What an entry writes to a key. An empty key is never written.
unfoldable pub entry_write : LogEntry → Bytes → Write
entry_write entry key =
    if same entry.key []
    then none
    else if same entry.operation (codes "PUT")
    then (if same entry.key key then some (some entry.value) else none)
    else if same entry.operation (codes "DELETE")
    then (if same entry.key key then some none else none)
    else none

abbrev pub decoded_write : Result LogEntry → Bytes → Write
decoded_write (ok entry) key = entry_write entry key
decoded_write (err e) key = none

-- A later write hides an earlier one.
abbrev pub later : Write → Write → Write
later (some w) earlier = some w
later none earlier = earlier

-- The last write of a log to a key.
abbrev pub last_write : (Bytes → Result LogEntry) → List Log → Bytes → Write
last_write decode [] key = none
last_write decode (log ∷ logs) key =
    later (last_write decode logs key) (decoded_write (decode log.log_data) key)

-- A valid engine comes from one by what a write says of each key.
pub record Becomes (s t : Store) (write : Bytes → Write) : Type 0 where
  pub valid : IsValid t
  pub answers :
      (key : Bytes) (o : Option Bytes)
      → Bitcask.get key s ≡ answer o
      → Bitcask.get key t ≡ answer (overlay (write key) o)

pub Becomes-same :
    (s : Store) (write : Bytes → Write)
    → IsValid s
    → ((key : Bytes) → write key ≡ none)
    → Becomes s s write
Becomes-same s write v nothing = record {
  valid = v;
  answers = λ key o e. e ∙ ap (λ w. answer (overlay w o)) (sym (nothing key));
}

pub finish-api :
    (f : Fsm) (index : ℕ) (failure : Error → Error) (r : Result (Unit {0}) × Store)
    → (finish f index failure r).1.api ≡ r.1
unfolding finish
finish-api f index failure (ok _, s) = refl
finish-api f index failure (err e, s) = refl

module _ (s : Store) (v : IsValid s) where
  put-Becomes :
      (key value : Bytes) (write : Bytes → Write)
      → length key < word
      → length value < word
      → ((j : Bytes)
          → write j
            ≡ (if same key [] then none else if same key j then some (some value) else none))
      → Becomes s (Api.put key value s).1 write
  unfolding Api.put
  put-Becomes key value write hk hv is = elim (Bool-cases (same key [])) [
    | inl e ↦ rw e (Becomes-same s write v (λ j. ground (arith, is j)))
    | inr e ↦
        let h = put-Refines s key value v hk hv in
        rw e (record {
          valid = h.valid;
          answers = λ j o before. h.views j ∙ ground (arith, is j, before);
        })
  ]

  delete-Becomes :
      (key : Bytes) (write : Bytes → Write)
      → ((j : Bytes)
          → write j ≡ (if same key [] then none else if same key j then some none else none))
      → Becomes s (Api.delete key s).1 write
  unfolding Api.delete
  delete-Becomes key write is = elim (Bool-cases (same key [])) [
    | inl e ↦ rw e (Becomes-same s write v (λ j. ground (arith, is j)))
    | inr e ↦ rw e (elim (get_cases s v key) [
      | inl (value, found) ↦
          let h = delete-Refines s key value v found in
          record {
            valid = h.valid;
            answers = λ j o before. h.views j ∙ ground (arith, is j, before);
          }
      | inr absent ↦ rw (delete_missing s key absent) (record {
        valid = v;
        answers = λ j o before. ground (arith, is j, before, get_missing s key absent);
      })
    ])
  ]

apply_entry-Becomes :
    (f : Fsm) (index : ℕ) (entry : LogEntry)
    → IsValid f.api
    → length entry.key < word
    → length entry.value < word
    → Becomes f.api (apply_entry f index entry).1.api (entry_write entry)
unfolding apply_entry entry_write
apply_entry-Becomes f index entry v hk hv = elim (Bool-cases (same entry.operation (codes "PUT"))) [
  | inl e ↦
      rw (e, finish-api f index (wrap "failed to apply PUT") (Api.put entry.key entry.value f.api))
        (put-Becomes f.api v entry.key entry.value _ hk hv (λ j. rw e refl))
  | inr not_put ↦ elim (Bool-cases (same entry.operation (codes "DELETE"))) [
    | inl e ↦
        rw
          (
            not_put,
            e,
            finish-api f index (wrap "failed to apply DELETE") (Api.delete entry.key f.api),
          )
          (delete-Becomes f.api v entry.key _ (λ j. rw (not_put, e) refl))
    | inr e ↦ rw (not_put, e) (Becomes-same f.api _ v (λ j. ground (arith)))
  ]
]

-- The keys and the values of an entry of the log fit a uint32 size, if it can be decoded.
abbrev pub EntryFits : Result LogEntry → Type 0
EntryFits d =
    (entry : LogEntry) → d ≡ ok entry → (length entry.key < word) × (length entry.value < word)

apply_decoded-Becomes :
    (f : Fsm) (index : ℕ) (d : Result LogEntry)
    → IsValid f.api
    → EntryFits d
    → Becomes f.api (apply_decoded f index d).1.api (decoded_write d)
unfolding apply_decoded
apply_decoded-Becomes f index (ok entry) v fits =
    let (hk, hv) = fits entry refl in apply_entry-Becomes f index entry v hk hv
apply_decoded-Becomes f index (err e) v fits = Becomes-same f.api _ v (λ j. refl)

pub apply-Becomes :
    (decode : Bytes → Result LogEntry) (f : Fsm) (log : Log)
    → IsValid f.api
    → EntryFits (decode log.log_data)
    → Becomes f.api (apply decode f log).1.api (decoded_write (decode log.log_data))
unfolding apply
apply-Becomes decode f log = apply_decoded-Becomes f log.log_index (decode log.log_data)

pub later-overlay :
    (w v : Write) (o : Option Bytes) → overlay (later w v) o ≡ overlay w (overlay v o)
later-overlay none v o = refl
later-overlay (some w) v o = refl

pub later_assoc : (w v u : Write) → later (later w v) u ≡ later w (later v u)
later_assoc none v u = refl
later_assoc (some w) v u = refl

pub last_write-append :
    (decode : Bytes → Result LogEntry) (p q : List Log) (key : Bytes)
    → last_write decode (p ++ q) key ≡ later (last_write decode q key) (last_write decode p key)
last_write-append decode [] q key = ground (arith)
last_write-append decode (log ∷ p) q key = rw (last_write-append decode p q key) (
    later_assoc (last_write decode q key) (last_write decode p key)
      (decoded_write (decode log.log_data) key))
