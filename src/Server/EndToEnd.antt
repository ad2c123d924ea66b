-- ===== src/Server/EndToEnd.antt =====
-- What a client of client/client.go sees of a server of server/server.go when no RPC fails.
use titan_distributed_kv.Common.{
  ◌<◌, ◌≡◌, ◌≢◌, refl, ap, ◌∙◌, inl, inr, [], Bytes, codes, bytes_key, same, same_ne, same_refl,
  Bool-cases, length,
}
use titan_distributed_kv.Common.Errors.{text, Result, ok, err}
use titan_distributed_kv.Storage.Codec.{word}
use titan_distributed_kv.Storage.Exec.{Store}
use titan_distributed_kv.Storage.Bitcask
use titan_distributed_kv.Storage.Bitcask.Steps.{IsValid, set_value, drop_value}
use titan_distributed_kv.Storage.Bitcask.Refinement.{put-Refines, delete-Refines}
use titan_distributed_kv.Storage.Api
use titan_distributed_kv.Server.{
  put, get, delete, put_response, get_response, delete_response, success, failure,
}
use titan_distributed_kv.Server.Client.{Reply, done, failed, put_reply, get_reply, delete_reply}

-- What the client shows of the engine's answer.
abbrev pub shown : Result Bytes → Reply Bytes
shown (ok value) = done value
shown (err _) = failed (codes "key not found")

get_reply-response : (r : Result Bytes) → get_reply (ok (get_response r)) ≡ shown r
unfolding get_reply get_response
get_reply-response (ok value) = rw (same_refl {A = Bytes} []) refl
get_reply-response (err e) =
    elim (Bool-cases (same (text e) (codes "get operation failed: key not found"))) [
      | inl t ↦ rw t refl
      | inr t ↦ rw t refl
    ]

shown-api :
    (s : Store) (key : Bytes) (r : Result Bytes)
    → key ≢ []
    → Bitcask.get key s ≡ r
    → shown (Api.get key s) ≡ shown r
unfolding Api.get
shown-api s key (ok value) ne e = rw (same_ne key [] ne, e) refl
shown-api s key (err _) ne e = rw (same_ne key [] ne, e) refl

-- `Client.Get` of a key that is not empty, from a server whose RPC succeeds, shows the value of the
-- engine, and every error of it as "key not found".
pub get_reply-get :
    (s : Store) (key : Bytes) → key ≢ [] → get_reply (ok (get key s)) ≡ shown (Bitcask.get key s)
unfolding get
get_reply-get s key ne =
    rw (same_ne key [] ne)
      (get_reply-response (Api.get key s) ∙ shown-api s key (Bitcask.get key s) ne refl)

-- What a client sees after a call: its reply, and `Client.Get` of every key that is not empty.
pub record Serves (reply : Reply (Unit {0})) (s : Store) (view : Bytes → Result Bytes)
    : Type 0 where
  pub replied : reply ≡ done tt
  pub valid : IsValid s
  pub served : (key : Bytes) → key ≢ [] → get_reply (ok (get key s)) ≡ shown (view key)

wrapped_put :
    (key value : Bytes) (s : Store)
    → key ≢ []
    → (Bitcask.put key value s).0 ≡ ok tt
    → put key value s ≡ (success, (Bitcask.put key value s).1)
unfolding put Api.put put_response
wrapped_put key value s ne e = rw (same_ne key [] ne, e) refl

wrapped_delete :
    (key : Bytes) (s : Store)
    → key ≢ []
    → (Bitcask.delete key s).0 ≡ ok tt
    → delete key s ≡ (success, (Bitcask.delete key s).1)
unfolding delete Api.delete delete_response
wrapped_delete key s ne e = rw (same_ne key [] ne, e) refl

-- On a server with a valid engine and no faults ahead, where no RPC fails, `Client.Put` of a key that is
-- not empty and a value, of uint32 sizes, succeeds and keeps the engine valid; then `Client.Get` shows
-- the value for the key, and what the engine held before for every other key that is not empty.
pub put-Serves :
    (s : Store) (key value : Bytes)
    → IsValid s
    → key ≢ []
    → length key < word
    → length value < word
    → Serves
        (put_reply (ok (put key value s).0))
        (put key value s).1
        (set_value key value (λ j. Bitcask.get j s))
unfolding put_reply
put-Serves s key value v ne hk hv =
    let h = put-Refines s key value v hk hv in
    rw (wrapped_put key value s ne h.succeeds) (record {
      replied = refl;
      valid = h.valid;
      served = λ j nj. get_reply-get (Bitcask.put key value s).1 j nj ∙ ap shown (h.views j);
    })

-- On a server with a valid engine and no faults ahead, where no RPC fails, `Client.Delete` of a key that
-- is not empty and that the engine has succeeds and keeps the engine valid; then `Client.Get` shows "key
-- not found" for the key, and what the engine held before for every other key that is not empty.
pub delete-Serves :
    (s : Store) (key value : Bytes)
    → IsValid s
    → key ≢ []
    → Bitcask.get key s ≡ ok value
    → Serves
        (delete_reply (ok (delete key s).0))
        (delete key s).1
        (drop_value key (λ j. Bitcask.get j s))
unfolding delete_reply
delete-Serves s key value v ne found =
    let h = delete-Refines s key value v found in
    rw (wrapped_delete key s ne h.succeeds) (record {
      replied = refl;
      valid = h.valid;
      served = λ j nj. get_reply-get (Bitcask.delete key s).1 j nj ∙ ap shown (h.views j);
    })

put_response_state : (r : Result (Unit {0}) × Store) → (put_response r).1 ≡ r.1
unfolding put_response
put_response_state (ok _, s) = refl
put_response_state (err _, s) = refl

delete_response_state : (r : Result (Unit {0}) × Store) → (delete_response r).1 ≡ r.1
unfolding delete_response
delete_response_state (ok _, s) = refl
delete_response_state (err e, s) =
    elim (Bool-cases (same (text e) (codes "delete operation failed: key not found"))) [
      | inl t ↦ rw t refl
      | inr t ↦ rw t refl
    ]

-- The servers leave the engine as the API does.
pub put_state :
    (key value : Bytes) (s : Store) → key ≢ [] → (put key value s).1 ≡ (Api.put key value s).1
unfolding put
put_state key value s ne = rw (same_ne key [] ne) (put_response_state (Api.put key value s))

pub delete_state : (key : Bytes) (s : Store) → key ≢ [] → (delete key s).1 ≡ (Api.delete key s).1
unfolding delete
delete_state key s ne = rw (same_ne key [] ne) (delete_response_state (Api.delete key s))

-- A key that the engine does not have: the server answers "key not found", and the engine stays as it was.
pub delete_absent :
    (key : Bytes) (s : Store)
    → key ≢ []
    → Bitcask.delete key s ≡ (err Bitcask.key_not_found, s)
    → delete key s ≡ (failure (codes "key not found"), s)
unfolding delete delete_response Api.delete bytes_key text
delete_absent key s ne e = rw (same_ne key [] ne, e) refl
