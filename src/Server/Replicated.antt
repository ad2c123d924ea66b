-- ===== src/Server/Replicated.antt =====
-- What a client of server/raft_server.go sees of a leader, when the Raft library commits what it is given.
use titan_distributed_kv.Common.{
  ℕ, ◌<◌, ◌≡◌, ◌≢◌, refl, ap, ◌∙◌, [], Bytes, codes, bytes_key, same_ne, same_refl, true, none,
  length,
}
use titan_distributed_kv.Common.Errors.{Error, wrap, Result, ok}
use titan_distributed_kv.Storage.Codec.{word}
use titan_distributed_kv.Storage.Exec.{Store}
use titan_distributed_kv.Storage.Bitcask
use titan_distributed_kv.Storage.Bitcask.Steps.{IsValid, Refines, set_value, drop_value}
use titan_distributed_kv.Storage.Bitcask.Refinement.{put-Refines, delete-Refines}
use titan_distributed_kv.Storage.Api
use titan_distributed_kv.Raft.{LogEntry, Fsm, Library, apply, apply_entry, finish, apply_log_entry}
use titan_distributed_kv.Server.{success, replicate, raft_put, raft_get, raft_delete, get}
use titan_distributed_kv.Server.Client.{get_reply}
use titan_distributed_kv.Server.EndToEnd.{shown, get_reply-get}

abbrev pub put_entry : Bytes → Bytes → LogEntry
put_entry key value = record { operation = codes "PUT"; key = key; value = value }

abbrev pub delete_entry : Bytes → LogEntry
delete_entry key = record { operation = codes "DELETE"; key = key; value = [] }

-- The node leads, the entry survives its way through JSON, and the library commits it: `Apply` returns what
-- the state machine returned for it.
pub record Commits (decode : Bytes → Result LogEntry) (encode : LogEntry → Result Bytes)
    (raft : Library) (entry : LogEntry) (f : Fsm) : Type 0 where
  pub leads : raft.is_leader ≡ true
  pub bytes : Bytes
  pub index : ℕ
  pub encoded : encode entry ≡ ok bytes
  pub decoded : decode bytes ≡ ok entry
  pub submitted : raft.submit bytes f ≡ (
    ok (apply decode f (record { log_data = bytes; log_index = index })).0,
    (apply decode f (record { log_data = bytes; log_index = index })).1,
  )

module _ (decode : Bytes → Result LogEntry) (encode : LogEntry → Result Bytes) (raft : Library)
    (f : Fsm) where
  finish_ok :
      (index : ℕ) (failure : Error → Error) (r : Result (Unit {0})) (s : Store)
      → r ≡ ok tt
      → finish f index failure (r, s) ≡ (none, record { api = s; index = index })
  unfolding finish
  finish_ok index failure r s e = rw e refl

  -- A committed entry that the state machine applied without an error is a success.
  replicate_applied :
      (entry : LogEntry) (c : Commits decode encode raft entry f) (g : Fsm)
      → apply_entry f c.index entry ≡ (none, g)
      → replicate encode raft entry f ≡ (success, g)
  unfolding replicate apply_log_entry apply
  replicate_applied entry c g e = rw (c.leads, c.encoded, c.submitted, c.decoded, e) refl

  pub replicate_put :
      (key value : Bytes) (c : Commits decode encode raft (put_entry key value) f)
      → (Api.put key value f.api).0 ≡ ok tt
      → replicate encode raft (put_entry key value) f
        ≡ (success, record { api = (Api.put key value f.api).1; index = c.index })
  replicate_put key value c e =
      replicate_applied (put_entry key value) c
        (record { api = (Api.put key value f.api).1; index = c.index })
        (unfold apply_entry in
          rw (same_refl (codes "PUT")) (
            finish_ok c.index (wrap "failed to apply PUT") (Api.put key value f.api).0
              (Api.put key value f.api).1 e))

  pub replicate_delete :
      (key : Bytes) (c : Commits decode encode raft (delete_entry key) f)
      → (Api.delete key f.api).0 ≡ ok tt
      → replicate encode raft (delete_entry key) f
        ≡ (success, record { api = (Api.delete key f.api).1; index = c.index })
  replicate_delete key c e =
      replicate_applied (delete_entry key) c
        (record { api = (Api.delete key f.api).1; index = c.index })
        (unfold apply_entry bytes_key in
          finish_ok c.index (wrap "failed to apply DELETE") (Api.delete key f.api).0
            (Api.delete key f.api).1 e)

pub api_put_ok :
    (key value : Bytes) (s : Store)
    → key ≢ []
    → (Bitcask.put key value s).0 ≡ ok tt
    → Api.put key value s ≡ (ok tt, (Bitcask.put key value s).1)
unfolding Api.put
api_put_ok key value s ne e = rw (same_ne key [] ne, e) refl

pub api_delete_ok :
    (key : Bytes) (s : Store)
    → key ≢ []
    → (Bitcask.delete key s).0 ≡ ok tt
    → Api.delete key s ≡ (ok tt, (Bitcask.delete key s).1)
unfolding Api.delete
api_delete_ok key s ne e = rw (same_ne key [] ne, e) refl

-- A state machine behind a server: its engine is valid and gives what `view` says, and `Client.Get` of every key that is not empty, from
-- a server on it whose RPC succeeds, shows what `view` says.
pub record Shows (f : Fsm) (view : Bytes → Result Bytes) : Type 0 where
  pub valid : IsValid f.api
  pub gets : (key : Bytes) → Bitcask.get key f.api ≡ view key
  pub shows : (key : Bytes) → key ≢ [] → get_reply (ok (raft_get key f)) ≡ shown (view key)

raft_get-get : (key : Bytes) (f : Fsm) → raft_get key f ≡ get key f.api
unfolding raft_get get
raft_get-get key f = refl

Shows-Refines :
    (index : ℕ) (r : Result (Unit {0}) × Store) (view : Bytes → Result Bytes)
    → Refines r view
    → Shows (record { api = r.1; index = index }) view
Shows-Refines index r view h = record {
  valid = h.valid;
  gets = h.views;
  shows = λ key ne.
      ap (λ resp. get_reply (ok resp)) (raft_get-get key (record { api = r.1; index = index }))
      ∙ get_reply-get r.1 key ne
      ∙ ap shown (h.views key);
}

module _ (decode : Bytes → Result LogEntry) (encode : LogEntry → Result Bytes) (raft : Library)
    (f : Fsm) (valid : IsValid f.api) where
  pub replicated_put :
      (key value : Bytes)
      → key ≢ []
      → length key < word
      → length value < word
      → Commits decode encode raft (put_entry key value) f
      → ((replicate encode raft (put_entry key value) f).0 ≡ success)
        × Shows
            (replicate encode raft (put_entry key value) f).1
            (set_value key value (λ j. Bitcask.get j f.api))
  replicated_put key value ne hk hv c =
      let h = put-Refines f.api key value valid hk hv in
      let stored = api_put_ok key value f.api ne h.succeeds in
      rw (replicate_put decode encode raft f key value c (ap (λ r. r.0) stored), stored)
        (
          refl,
          Shows-Refines c.index (Bitcask.put key value f.api)
              (set_value key value (λ j. Bitcask.get j f.api)) h,
        )

  pub replicated_delete :
      (key value : Bytes)
      → key ≢ []
      → Bitcask.get key f.api ≡ ok value
      → Commits decode encode raft (delete_entry key) f
      → ((replicate encode raft (delete_entry key) f).0 ≡ success)
        × Shows
            (replicate encode raft (delete_entry key) f).1
            (drop_value key (λ j. Bitcask.get j f.api))
  replicated_delete key value ne found c =
      let h = delete-Refines f.api key value valid found in
      let stored = api_delete_ok key f.api ne h.succeeds in
      rw (replicate_delete decode encode raft f key c (ap (λ r. r.0) stored), stored)
        (
          refl,
          Shows-Refines c.index (Bitcask.delete key f.api)
              (drop_value key (λ j. Bitcask.get j f.api)) h,
        )

  -- On a leader whose library commits the entry, with a valid engine and no faults ahead: `RaftKVServer.Put`
  -- of a key that is not empty, of uint32 sizes, answers with a success and keeps the engine valid; then a
  -- client is shown the value for the key, and what the engine held before for every other key.
  pub raft_put-Shows :
      (key value : Bytes)
      → key ≢ []
      → length key < word
      → length value < word
      → Commits decode encode raft (put_entry key value) f
      → ((raft_put encode raft key value f).0 ≡ success)
        × Shows
            (raft_put encode raft key value f).1
            (set_value key value (λ j. Bitcask.get j f.api))
  unfolding raft_put
  raft_put-Shows key value ne hk hv c = rw (same_ne key [] ne) (replicated_put key value ne hk hv c)

  -- On a leader whose library commits the entry, with a valid engine and no faults ahead: `RaftKVServer.Delete`
  -- of a key that is not empty and that the engine has answers with a success and keeps the engine valid; then a client is shown "key not found" for the key, and what the
  -- engine held before for every other key.
  pub raft_delete-Shows :
      (key value : Bytes)
      → key ≢ []
      → Bitcask.get key f.api ≡ ok value
      → Commits decode encode raft (delete_entry key) f
      → ((raft_delete encode raft key f).0 ≡ success)
        × Shows (raft_delete encode raft key f).1 (drop_value key (λ j. Bitcask.get j f.api))
  unfolding raft_delete
  raft_delete-Shows key value ne found c =
      rw (same_ne key [] ne) (replicated_delete key value ne found c)
