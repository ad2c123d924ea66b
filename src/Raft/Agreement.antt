-- ===== src/Raft/Agreement.antt =====
-- Replicas of raft/fsm.go that answer alike, whatever their files look like, still answer alike after
-- they have applied the same entries of the log.
use titan_distributed_kv.Common.{
  ℕ, ◌<◌, ◌≡◌, refl, sym, ap, ap₂, String, ◌∙◌, inl, inr, List, [], ◌∷◌, Bytes, codes, bytes_key,
  same, Option, arith, Bool-cases, length,
}
use titan_distributed_kv.Common.Errors.{Error, wrap, Result, ok, err}
use titan_distributed_kv.Storage.Codec.{word}
use titan_distributed_kv.Storage.Exec.{Store, M, wrapping}
use titan_distributed_kv.Storage.Bitcask
use titan_distributed_kv.Storage.Bitcask.Steps.{IsValid, Refines, set_value, drop_value}
use titan_distributed_kv.Storage.Bitcask.Answers.{get_missing, get_cases}
use titan_distributed_kv.Storage.Bitcask.Refinement.{put-Refines, delete-Refines, delete_missing}
use titan_distributed_kv.Storage.Api
use titan_distributed_kv.Raft.{LogEntry, Fsm, Log, finish, apply_entry, apply_decoded, apply}

-- Two valid engines that answer `Get` alike, in state machines at the same index.
pub record Agree (f g : Fsm) : Type 0 where
  pub valid_left : IsValid f.api
  pub valid_right : IsValid g.api
  pub answers : (key : Bytes) → Bitcask.get key f.api ≡ Bitcask.get key g.api
  pub index : f.index ≡ g.index

-- The outcomes of one method on two engines: the same result, and engines that answer alike.
record Alike (r s : Result (Unit {0}) × Store) : Type 0 where
  pub outcome : r.0 ≡ s.0
  pub valid_left : IsValid r.1
  pub valid_right : IsValid s.1
  pub answers : (key : Bytes) → Bitcask.get key r.1 ≡ Bitcask.get key s.1

Refines-Alike :
    (r s : Result (Unit {0}) × Store) (view view' : Bytes → Result Bytes)
    → Refines r view
    → Refines s view'
    → ((key : Bytes) → view key ≡ view' key)
    → Alike r s
Refines-Alike r s view view' hr hs e = record {
  outcome = hr.succeeds ∙ sym hs.succeeds;
  valid_left = hr.valid;
  valid_right = hs.valid;
  answers = λ key. hr.views key ∙ e key ∙ sym (hs.views key);
}

set_value-agree :
    (key value : Bytes) (view view' : Bytes → Result Bytes)
    → ((j : Bytes) → view j ≡ view' j)
    → (j : Bytes) → set_value key value view j ≡ set_value key value view' j
set_value-agree key value view view' e j = ground (arith, e j)

drop_value-agree :
    (key : Bytes) (view view' : Bytes → Result Bytes)
    → ((j : Bytes) → view j ≡ view' j)
    → (j : Bytes) → drop_value key view j ≡ drop_value key view' j
drop_value-agree key view view' e j = ground (arith, e j)

module _ (s t : Store) (vs : IsValid s) (vt : IsValid t)
    (alike : (key : Bytes) → Bitcask.get key s ≡ Bitcask.get key t) where
  unchanged-Alike : (e : Error) → Alike (err e, s) (err e, t)
  unchanged-Alike e = record { outcome = refl; valid_left = vs; valid_right = vt; answers = alike }

  put-Alike :
      (key value : Bytes)
      → length key < word
      → length value < word
      → Alike (Bitcask.put key value s) (Bitcask.put key value t)
  put-Alike key value hk hv =
      Refines-Alike (Bitcask.put key value s) (Bitcask.put key value t)
        (set_value key value (λ j. Bitcask.get j s)) (set_value key value (λ j. Bitcask.get j t))
        (put-Refines s key value vs hk hv) (put-Refines t key value vt hk hv)
        (set_value-agree key value (λ j. Bitcask.get j s) (λ j. Bitcask.get j t) alike)

  delete_found-Alike :
      (key value : Bytes)
      → Bitcask.get key s ≡ ok value
      → Alike (Bitcask.delete key s) (Bitcask.delete key t)
  delete_found-Alike key value found =
      Refines-Alike (Bitcask.delete key s) (Bitcask.delete key t)
        (drop_value key (λ j. Bitcask.get j s)) (drop_value key (λ j. Bitcask.get j t))
        (delete-Refines s key value vs found)
        (delete-Refines t key value vt (sym (alike key) ∙ found))
        (drop_value-agree key (λ j. Bitcask.get j s) (λ j. Bitcask.get j t) alike)

  delete-Alike : (key : Bytes) → Alike (Bitcask.delete key s) (Bitcask.delete key t)
  delete-Alike key = elim (get_cases s vs key) [
    | inl (value, found) ↦ delete_found-Alike key value found
    | inr none_s ↦ elim (get_cases t vt key) [
      | inl (value, found) ↦ absurd (cc (alike key, get_missing s key none_s, found))
      | inr none_t ↦
          rw (delete_missing s key none_s, delete_missing t key none_t)
            (unchanged-Alike Bitcask.key_not_found)
    ]
  ]

-- The outcomes of an entry on two state machines.
abbrev Agreed : Option Error × Fsm → Option Error × Fsm → Type 0
Agreed r s = (r.0 ≡ s.0) × Agree r.1 s.1

module _ (f g : Fsm) (agree : Agree f g) where
  finish-Agree :
      (index : ℕ) (failure : Error → Error) (a b : Result (Unit {0})) (s t : Store)
      → Alike (a, s) (b, t)
      → Agreed (finish f index failure (a, s)) (finish g index failure (b, t))
  unfolding finish
  finish-Agree index failure (ok _) (ok _) s t h = (
    refl,
    record {
      valid_left = h.valid_left;
      valid_right = h.valid_right;
      answers = h.answers;
      index = refl;
    },
  )
  finish-Agree index failure (ok _) (err e) s t h = absurd (cc (h.outcome))
  finish-Agree index failure (err e) (ok _) s t h = absurd (cc (h.outcome))
  finish-Agree index failure (err e) (err e') s t h = (
    cc (h.outcome),
    record {
      valid_left = h.valid_left;
      valid_right = h.valid_right;
      answers = h.answers;
      index = agree.index;
    },
  )

  wrapping-Alike :
      (message : String) (m : M (Unit {0}))
      → Alike (m f.api) (m g.api)
      → Alike (wrapping message m f.api) (wrapping message m g.api)
  wrapping-Alike message m h = record {
    outcome = ap (λ r. (wrapping message (λ x. (r, x)) f.api).0) h.outcome;
    valid_left = h.valid_left;
    valid_right = h.valid_right;
    answers = h.answers;
  }

  api_put-Alike :
      (key value : Bytes)
      → length key < word
      → length value < word
      → Alike (Api.put key value f.api) (Api.put key value g.api)
  unfolding Api.put
  api_put-Alike key value hk hv = elim (Bool-cases (same key [])) [
    | inl e ↦
        rw e (
          unchanged-Alike f.api g.api agree.valid_left agree.valid_right agree.answers
            Api.key_empty)
    | inr e ↦ rw e (
        wrapping-Alike "put operation failed" (Bitcask.put key value)
          (put-Alike f.api g.api agree.valid_left agree.valid_right agree.answers key value hk hv))
  ]

  api_delete-Alike : (key : Bytes) → Alike (Api.delete key f.api) (Api.delete key g.api)
  unfolding Api.delete
  api_delete-Alike key = elim (Bool-cases (same key [])) [
    | inl e ↦
        rw e (
          unchanged-Alike f.api g.api agree.valid_left agree.valid_right agree.answers
            Api.key_empty)
    | inr e ↦ rw e (
        wrapping-Alike "delete operation failed" (Bitcask.delete key)
          (delete-Alike f.api g.api agree.valid_left agree.valid_right agree.answers key))
  ]

  apply_entry-Agree :
      (index : ℕ) (entry : LogEntry)
      → length entry.key < word
      → length entry.value < word
      → Agreed (apply_entry f index entry) (apply_entry g index entry)
  unfolding apply_entry
  apply_entry-Agree index entry hk hv = elim (Bool-cases (same entry.operation (codes "PUT"))) [
    | inl e ↦ rw e (
        finish-Agree index (wrap "failed to apply PUT") _ _ _ _
          (api_put-Alike entry.key entry.value hk hv))
    | inr not_put ↦ elim (Bool-cases (same entry.operation (codes "DELETE"))) [
      | inl e ↦
          rw (not_put, e)
            (finish-Agree index (wrap "failed to apply DELETE") _ _ _ _
              (api_delete-Alike entry.key))
      | inr e ↦ rw (not_put, e) (refl, agree)
    ]
  ]

-- What the log holds: `decode` gives entries whose sizes fit a uint32, or fails.
abbrev pub Fits : (Bytes → Result LogEntry) → List Log → Type 0
Fits decode [] = Unit
Fits decode (log ∷ logs) =
    ((entry : LogEntry)
      → decode log.log_data ≡ ok entry
      → (length entry.key < word) × (length entry.value < word))
    × Fits decode logs

-- The log entries that the library hands over, one by one, with what `Apply` returns for each.
abbrev pub apply_all : (Bytes → Result LogEntry) → List Log → Fsm → List (Option Error) × Fsm
apply_all decode [] f = ([], f)
apply_all decode (log ∷ logs) f =
    let (r, f') = apply decode f log in let (rs, f'') = apply_all decode logs f' in (r ∷ rs, f'')

apply-Agree :
    (decode : Bytes → Result LogEntry) (f g : Fsm) (log : Log) (d : Result LogEntry)
    → decode log.log_data ≡ d
    → Agree f g
    → ((entry : LogEntry) → d ≡ ok entry → (length entry.key < word) × (length entry.value < word))
    → Agreed (apply_decoded f log.log_index d) (apply_decoded g log.log_index d)
unfolding apply_decoded
apply-Agree decode f g log (ok entry) e agree fits =
    let (hk, hv) = fits entry refl in apply_entry-Agree f g agree log.log_index entry hk hv
apply-Agree decode f g log (err _) e agree fits = (refl, agree)

-- Two replicas at the same index, whose valid engines have no faults ahead and answer alike, apply a log
-- whose keys and values fit a uint32 size: they return the same for each entry, and end at the same
-- index with valid engines that answer alike, whatever files they started with.
pub apply_all-Agree :
    (decode : Bytes → Result LogEntry) (logs : List Log) (f g : Fsm)
    → Agree f g
    → Fits decode logs
    → ((apply_all decode logs f).0 ≡ (apply_all decode logs g).0)
      × Agree (apply_all decode logs f).1 (apply_all decode logs g).1
unfolding apply
apply_all-Agree decode [] f g agree fits = (refl, agree)
apply_all-Agree decode (log ∷ logs) f g agree (fits, rest) =
    let (same_result, agree') = apply-Agree decode f g log (decode log.log_data) refl agree fits in
    let (same_results, last) =
      apply_all-Agree decode logs (apply decode f log).1 (apply decode g log).1 agree' rest in
    (ap₂ ◌∷◌ same_result same_results, last)
