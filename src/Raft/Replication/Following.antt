-- ===== src/Raft/Replication/Following.antt =====
-- How the nodes of a cluster follow the committed log, whatever happens to them.
use mathlib.Core.Option.{some-injective}
use titan_distributed_kv.Common.{
  ℕ, zero, suc, ◌≤◌, ◌<◌, ◌≡◌, refl, sym, ap, subst, ◌∙◌, ◌⊎◌, inl, inr, List, [], ◌∷◌, ◌++◌, Bytes,
  bytes_key, same, ltb, false, Option, none, some, take, length, get_elem?, arith, Bool-cases,
  length-append,
}
use titan_distributed_kv.Common.Errors.{Result}
use titan_distributed_kv.Storage.Exec.{Store}
use titan_distributed_kv.Storage.Bitcask
use titan_distributed_kv.Storage.Bitcask.Steps.{IsValid}
use titan_distributed_kv.Storage.Compaction.Refinement.{compact-Refines}
use titan_distributed_kv.Storage.History.{answer}
use titan_distributed_kv.Storage.Api
use titan_distributed_kv.Raft.{LogEntry, Fsm, Log, new_fsm, apply}
use titan_distributed_kv.Raft.Effects.{
  EntryFits, Write, overlay, last_write, decoded_write, apply-Becomes, later-overlay,
  last_write-append,
}
use titan_distributed_kv.Raft.Replication.{
  Replica, Cluster, change, with_engine, opened, delivered, Step, commits, delivers, compacts,
  reopens, Reachable, initial, next,
}

take-append : {A : Type 0} (m : ℕ) (xs ys : List A) → m ≤ length xs → take m (xs ++ ys) ≡ take m xs
take-append zero xs ys h = refl
take-append (suc m) [] ys h = absurd (omega arith)
take-append (suc m) (x ∷ xs) ys h = ap (λ t. x ∷ t) (take-append m xs ys (omega arith))

take-suc :
    {A : Type 0} (m : ℕ) (xs : List A) (x : A)
    → get_elem? xs m ≡ some x
    → take (suc m) xs ≡ take m xs ++ x ∷ []
take-suc m [] x e = absurd (cc e)
take-suc zero (y ∷ xs) x e = ground (arith, e)
take-suc (suc m) (y ∷ xs) x e = ap (λ t. y ∷ t) (take-suc m xs x e)

get_elem?-bound :
    {A : Type 0} (m : ℕ) (xs : List A) (x : A) → get_elem? xs m ≡ some x → m < length xs
get_elem?-bound m [] x e = absurd (cc e)
get_elem?-bound zero (y ∷ xs) x e = omega arith
get_elem?-bound (suc m) (y ∷ xs) x e = omega (arith, get_elem?-bound m xs x e)

-- Every entry of a log fits.
abbrev pub AllFit : (Bytes → Result LogEntry) → List Log → Type 0
AllFit decode logs =
    (i : ℕ) (log : Log) → get_elem? logs i ≡ some log → EntryFits (decode log.log_data)

AllFit-append :
    (decode : Bytes → Result LogEntry) (logs : List Log) (new : Log)
    → EntryFits (decode new.log_data)
    → AllFit decode logs
    → AllFit decode (logs ++ new ∷ [])
AllFit-append decode [] new h fits zero log e =
    subst (λ l. EntryFits (decode l.log_data)) (some-injective new log e) h
AllFit-append decode [] new h fits (suc i) log e = absurd (cc e)
AllFit-append decode (x ∷ logs) new h fits zero log e = fits 0 log e
AllFit-append decode (x ∷ logs) new h fits (suc i) log e =
    AllFit-append decode logs new h (λ j. fits (suc j)) i log e

le_cases : (a b : ℕ) → a ≤ b → (a < b) ⊎ (b ≡ a)
le_cases a b h = elim (Bool-cases (ltb a b)) [
  | inl e ↦ inl (ground arith)
  | inr e ↦ inr (ground arith)
]

module _ (decode : Bytes → Result LogEntry) (view : Bytes → Option Bytes) where
  -- What a committed log says of a key, after so many of its entries.
  abbrev pub value_at : ℕ → List Log → Bytes → Option Bytes
  value_at m committed key = overlay (last_write decode (take m committed) key) (view key)

  -- A node answers each key as the committed log does somewhere between the entry that it has applied last
  -- and the last one that it ever applied.
  pub record Follows (committed : List Log) (r : Replica) : Type 0 where
    pub valid : IsValid r.fsm.api
    pub behind : r.applied ≤ r.highest
    pub bounded : r.highest ≤ length committed
    pub reads :
        (key : Bytes)
        → (m : ℕ) × (r.applied ≤ m)
          × (m ≤ r.highest)
          × (Bitcask.get key r.fsm.api ≡ answer (value_at m committed key))

  -- Entries that are committed later.
  Follows-commits :
      (committed more : List Log) (r : Replica)
      → Follows committed r
      → Follows (committed ++ more) r
  Follows-commits committed more r h = record {
    valid = h.valid;
    behind = h.behind;
    bounded = omega (arith, h.bounded, length-append committed more);
    reads = λ key.
        let (m, low, high, e) = h.reads key in
        (
          m,
          low,
          high,
          e
              ∙ ap (λ l. answer (overlay (last_write decode l key) (view key)))
                  (sym (take-append m committed more (omega (arith, h.bounded)))),
        );
  }

  -- Another engine with the same answers, at the same place or an earlier one.
  Follows-engine :
      (committed : List Log) (r : Replica) (f : Fsm) (k : ℕ)
      → k ≤ r.applied
      → IsValid f.api
      → ((key : Bytes) → Bitcask.get key f.api ≡ Bitcask.get key r.fsm.api)
      → Follows committed r
      → Follows committed (record { fsm = f; applied = k; highest = r.highest })
  Follows-engine committed r f k low v alike h = record {
    valid = v;
    behind = omega (arith, h.behind);
    bounded = h.bounded;
    reads = λ key.
        let (m, least, most, e) = h.reads key in (m, omega (arith, least), most, alike key ∙ e);
  }

  value_at-suc :
      (m : ℕ) (committed : List Log) (log : Log) (key : Bytes)
      → get_elem? committed m ≡ some log
      → value_at (suc m) committed key
        ≡ overlay (decoded_write (decode log.log_data) key) (value_at m committed key)
  value_at-suc m committed log key e =
      ap (λ l. overlay (last_write decode l key) (view key)) (take-suc m committed log e)
      ∙ ap (λ w. overlay w (view key)) (last_write-append decode (take m committed) (log ∷ []) key)
      ∙ later-overlay (decoded_write (decode log.log_data) key)
          (last_write decode (take m committed) key) (view key)

  -- Where the answer of a key stands after the next entry.
  module _ (committed : List Log) (r : Replica) (log : Log)
      (is : get_elem? committed r.applied ≡ some log) (fits : EntryFits (decode log.log_data))
      (h : Follows committed r) where
    reads-delivers :
        (key : Bytes) (w : Write)
        → decoded_write (decode log.log_data) key ≡ w
        → (m : ℕ) × (r.applied < m)
          × (m ≤ (delivered decode log r).highest)
          × (Bitcask.get key (apply decode r.fsm log).1.api ≡ answer (value_at m committed key))
    reads-delivers key (some x) e =
        let after = apply-Becomes decode r.fsm log h.valid fits in
        let (m, low, high, at) = h.reads key in
        (
          suc r.applied,
          omega arith,
          ground arith,
          after.answers key (value_at m committed key) at
              ∙ ap (λ w. answer (overlay w (value_at m committed key))) e
              ∙ ap (λ w. answer (overlay w (value_at r.applied committed key))) (sym e)
              ∙ ap answer (sym (value_at-suc r.applied committed log key is)),
        )
    reads-delivers key none e =
        let after = apply-Becomes decode r.fsm log h.valid fits in
        let (m, low, high, at) = h.reads key in
        let now = after.answers key (value_at m committed key) at in
        elim (le_cases r.applied m low) [
          | inl later_one ↦ (
            m,
            later_one,
            ground arith,
            now ∙ ap (λ w. answer (overlay w (value_at m committed key))) e,
          )
          | inr same_one ↦ (
            suc r.applied,
            omega arith,
            ground arith,
            now
                ∙ ap
                    (λ (n : ℕ). answer (
                      overlay (decoded_write (decode log.log_data) key) (value_at n committed key)))
                    same_one
                ∙ ap answer (sym (value_at-suc r.applied committed log key is)),
          )
        ]

    Follows-delivers : Follows committed (delivered decode log r)
    Follows-delivers = record {
      valid = (apply-Becomes decode r.fsm log h.valid fits).valid;
      behind = ground arith;
      bounded = ground (arith, h.bounded, get_elem?-bound r.applied committed log is);
      reads = λ key. reads-delivers key (decoded_write (decode log.log_data) key) refl;
    }

  -- Every node of a cluster follows the log, whose entries fit.
  pub record IsFollowed (c : Cluster) : Type 0 where
    pub fits : AllFit decode c.committed
    pub follows : (id : Bytes) → Follows c.committed (c.replicas id)

  change-IsFollowed :
      (c : Cluster) (id : Bytes) (r : Replica)
      → IsFollowed c
      → Follows c.committed r
      → IsFollowed (change id r c)
  change-IsFollowed c id r h new = record {
    fits = h.fits;
    follows = λ j. elim (Bool-cases (same j id)) [ inl e ↦ rw e new | inr e ↦ rw e (h.follows j) ];
  }

  Step-IsFollowed : {c d : Cluster} → Step decode c d → IsFollowed c → IsFollowed d
  unfolding Api.compact new_fsm
  Step-IsFollowed (commits c log fits) h = record {
    fits = AllFit-append decode c.committed log fits h.fits;
    follows = λ id. Follows-commits c.committed (log ∷ []) (c.replicas id) (h.follows id);
  }
  Step-IsFollowed (delivers c id log e) h =
      change-IsFollowed c id (delivered decode log (c.replicas id)) h
        (Follows-delivers c.committed (c.replicas id) log e (h.fits _ log e) (h.follows id))
  Step-IsFollowed (compacts c id range visit room) h =
      let r = c.replicas id in
      let (kept, _) = compact-Refines range r.fsm.api visit (h.follows id).valid room in
      let after = with_engine (Api.compact range false r.fsm.api).1.1 r in
      change-IsFollowed c id after h (
        Follows-engine c.committed r after.fsm (c.replicas id).applied (omega arith) kept.valid
          kept.views (h.follows id))
  Step-IsFollowed (reopens c id k t low v alike) h =
      change-IsFollowed c id (opened t k (c.replicas id)) h
        (Follows-engine c.committed (c.replicas id) (new_fsm t) k low v alike (h.follows id))

  module _ (start : Bytes → Store) (valid : (id : Bytes) → IsValid (start id))
      (alike : (id key : Bytes) → Bitcask.get key (start id) ≡ answer (view key)) where
    pub Reachable-IsFollowed : {c : Cluster} → Reachable decode start c → IsFollowed c
    unfolding new_fsm
    Reachable-IsFollowed initial = record {
      fits = λ i log e. absurd (cc e);
      follows = λ id. record {
        valid = valid id;
        behind = omega arith;
        bounded = omega arith;
        reads = λ key. (0, omega arith, omega arith, alike id key);
      };
    }
    Reachable-IsFollowed (next r s) = Step-IsFollowed s (Reachable-IsFollowed r)
