-- ===== src/Storage/History.antt =====
-- What a client of storage/api.go reads after any sequence of its calls, with compactions between them, as
-- the server of cmd/kv/main.go runs them.
use titan_distributed_kv.Common.{
  ◌+◌, ◌<◌, ◌≡◌, ◌≢◌, refl, ◌∙◌, inl, inr, List, [], ◌∷◌, Bytes, bytes_key, same, same_ne, false,
  Option, none, some, length, arith, if◌then◌else◌,
}
use titan_distributed_kv.Common.Maps.{IsVisit, lookup-nil, lookup-cons}
use titan_distributed_kv.Storage.Codec.{word}
use titan_distributed_kv.Storage.Names.{data_name}
use titan_distributed_kv.Storage.Disk.{Node, file, content, wrap, Result, ok, err, sort_entries}
use titan_distributed_kv.Storage.Exec.{RecordLocation, KeyDir, Store}
use titan_distributed_kv.Storage.Bitcask
use titan_distributed_kv.Storage.Bitcask.{default_max_file_size}
use titan_distributed_kv.Storage.Bitcask.Healthy.{healthy}
use titan_distributed_kv.Storage.Bitcask.Invariant.{Sound}
use titan_distributed_kv.Storage.Bitcask.Steps.{
  IsValid, healthy-IsValid, Refines, set_value, drop_value,
}
use titan_distributed_kv.Storage.Bitcask.Refinement.{put-Refines, delete-Refines, delete_missing}
use titan_distributed_kv.Storage.Bitcask.Answers.{get_missing, get_cases}
use titan_distributed_kv.Storage.Compaction.{max_file_id}
use titan_distributed_kv.Storage.Compaction.Refinement.{compact-Refines}
use titan_distributed_kv.Storage.Api
use titan_distributed_kv.Storage.Recovery.{new_bitcask}
use titan_distributed_kv.Storage.Recovery.Restart.{empty_directory, new_bitcask-empty, first_file}

-- A call that a client made, or a compaction.
pub data Event : Type 0 where
  did_put : Bytes → Bytes → Event
  did_delete : Bytes → Event
  did_compact : Event

-- The value that a key has after a history, whose last event comes first.
unfoldable pub current : List Event → Bytes → Option Bytes
current [] key = none
current (did_put j value ∷ h) key =
    let before = current h key in if same j key then some value else before
current (did_delete j ∷ h) key = let before = current h key in if same j key then none else before
current (did_compact ∷ h) key = current h key

-- The engines that a history leads to, from `NewBitcask` on an empty directory on. Keys are not empty and
-- sizes fit a uint32; a compaction takes the keys in any order and has a file id left.
pub data Runs : List Event → Store → Type 0 where
  started : Runs [] (new_bitcask empty_directory).1
  puts :
      {h : List Event} {s : Store} (key value : Bytes)
      → key ≢ []
      → length key < word
      → length value < word
      → Runs h s
      → Runs (did_put key value ∷ h) (Api.put key value s).1
  deletes :
      {h : List Event} {s : Store} (key : Bytes)
      → key ≢ []
      → Runs h s
      → Runs (did_delete key ∷ h) (Api.delete key s).1
  compacts :
      {h : List Event} {s : Store} (range : KeyDir → KeyDir)
      → IsVisit range
      → max_file_id (sort_entries s.disk.entries) 0 + 1 < word
      → Runs h s
      → Runs (did_compact ∷ h) (Api.compact range false s).1.1

-- The answer of the engine for a value, or for none.
abbrev pub answer : Option Bytes → Result Bytes
answer none = err Bitcask.key_not_found
answer (some value) = ok value

-- The engine is valid, and holds what the history says.
pub record Holds (h : List Event) (s : Store) : Type 0 where
  pub valid : IsValid s
  pub holds : (key : Bytes) → Bitcask.get key s ≡ answer (current h key)

Refines-Holds :
    (h : List Event) (r : Result (Unit {0}) × Store) (view : Bytes → Result Bytes)
    → Refines r view
    → ((key : Bytes) → view key ≡ answer (current h key))
    → Holds h r.1
Refines-Holds h r view f e = record { valid = f.valid; holds = λ key. f.views key ∙ e key }

pub put-Holds :
    (h : List Event) (s : Store) (key value : Bytes)
    → key ≢ []
    → length key < word
    → length value < word
    → Holds h s
    → Holds (did_put key value ∷ h) (Api.put key value s).1
unfolding Api.put
put-Holds h s key value ne hk hv before = rw (same_ne key [] ne) (
    Refines-Holds (did_put key value ∷ h) (Bitcask.put key value s)
      (set_value key value (λ j. Bitcask.get j s)) (put-Refines s key value before.valid hk hv)
      (λ j. unfold current in ground (arith, before.holds j)))

pub delete-Holds :
    (h : List Event) (s : Store) (key : Bytes)
    → key ≢ []
    → Holds h s
    → Holds (did_delete key ∷ h) (Api.delete key s).1
unfolding Api.delete
delete-Holds h s key ne before = rw (same_ne key [] ne) (elim (get_cases s before.valid key) [
  | inl (value, found) ↦
      Refines-Holds (did_delete key ∷ h) (Bitcask.delete key s)
        (drop_value key (λ j. Bitcask.get j s)) (delete-Refines s key value before.valid found)
        (λ j. unfold current in ground (arith, before.holds j))
  | inr absent ↦ rw (delete_missing s key absent) (record {
    valid = before.valid;
    holds = λ j. unfold current in ground (arith, before.holds j, get_missing s key absent);
  })
])

compact-Holds :
    (h : List Event) (s : Store) (range : KeyDir → KeyDir)
    → IsVisit range
    → max_file_id (sort_entries s.disk.entries) 0 + 1 < word
    → Holds h s
    → Holds (did_compact ∷ h) (Api.compact range false s).1.1
unfolding Api.compact
compact-Holds h s range visit room before =
    let (f, _) = compact-Refines range s visit before.valid room in
    record { valid = f.valid; holds = λ key. unfold current in f.views key ∙ before.holds key }

empty-Sound : Sound [] 0 (first_file []) 0
unfolding content
empty-Sound = record {
  distinct = tt;
  located = λ key loc found. absurd (cc (lookup-nil {V = RecordLocation} key, found));
  current = ([], ground (arith, lookup-cons (data_name 0) (data_name 0) (file []) []), refl);
  id_fits = omega arith;
  plain = λ i e. ground (
    arith,
    lookup-cons (data_name i) (data_name 0) (file []) [],
    lookup-nil {V = Node} (data_name i),
  );
}

pub started-Holds : Holds [] (new_bitcask empty_directory).1
started-Holds = rw new_bitcask-empty (record {
  valid = healthy-IsValid [] 0 (first_file []) 0 default_max_file_size empty-Sound;
  holds = λ key.
      unfold current in
      get_missing (healthy [] 0 (first_file []) 0 default_max_file_size) key
        (lookup-nil {V = RecordLocation} key);
})

Runs-Holds : {h : List Event} {s : Store} → Runs h s → Holds h s
Runs-Holds started = started-Holds
Runs-Holds (puts {h} {s} key value ne hk hv r) = put-Holds h s key value ne hk hv (Runs-Holds r)
Runs-Holds (deletes {h} {s} key ne r) = delete-Holds h s key ne (Runs-Holds r)
Runs-Holds (compacts {h} {s} range visit room r) = compact-Holds h s range visit room (Runs-Holds r)

-- What `Get` of the API returns for a value, or for none.
abbrev pub served : Option Bytes → Result Bytes
served none = err (wrap "get operation failed" Bitcask.key_not_found)
served (some value) = ok value

pub api_get-served :
    (s : Store) (key : Bytes) (o : Option Bytes)
    → key ≢ []
    → Bitcask.get key s ≡ answer o
    → Api.get key s ≡ served o
unfolding Api.get
api_get-served s key none ne e = rw (same_ne key [] ne, e) refl
api_get-served s key (some value) ne e = rw (same_ne key [] ne, e) refl

pub Runs-get :
    (h : List Event) (s : Store) (key : Bytes)
    → Runs h s
    → key ≢ []
    → Api.get key s ≡ served (current h key)
Runs-get h s key r ne = api_get-served s key (current h key) ne ((Runs-Holds r).holds key)
