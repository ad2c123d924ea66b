-- ===== src/Cmd/Cli/Session.antt =====
-- A session of cmd/cli/main.go with the server of cmd/kv/main.go, where no RPC fails, shows what a map would.
use titan_distributed_kv.Common.{
  ◌≡◌, ◌≢◌, refl, sym, ap, ◌∙◌, inl, inr, Bytes, codes, bytes_key, same_ne, same_refl, Option, none,
  some, List, [], ◌∷◌, ◌++◌, map, subst, ℕ, ◌<◌, true, false, leb, length, length-append, arith,
  ◌⊎◌,
}
use titan_distributed_kv.Common.Errors.{Error, ok, err}
use titan_distributed_kv.Storage.Codec.{word}
use titan_distributed_kv.Storage.Exec.{Store}
use titan_distributed_kv.Storage.Bitcask
use titan_distributed_kv.Storage.Bitcask.Answers.{get_missing, get_cases}
use titan_distributed_kv.Storage.Bitcask.Refinement.{delete_missing}
use titan_distributed_kv.Storage.History.{
  Event, did_put, did_delete, current, answer, Holds, put-Holds, delete-Holds,
}
use titan_distributed_kv.Server
use titan_distributed_kv.Server.Client.{Reply, done, failed, put_reply, get_reply, delete_reply}
use titan_distributed_kv.Server.EndToEnd.{
  shown, get_reply-get, put-Serves, delete-Serves, put_state, delete_state, delete_absent,
}
use titan_distributed_kv.Server.Connection.{client_put, client_get, client_delete}
use titan_distributed_kv.Cmd.Text.{join, to_upper}
use titan_distributed_kv.Cmd.Text.Words.{
  IsWord, AllWords, IsTrim-≢, trim_space-IsTrim, join-IsTrim, fields-join,
}
use titan_distributed_kv.Cmd.Cli.{
  Turn, Ended, max_scan_token_size, prompt, stored, retrieved, deleted, says, quoted, put_command,
  get_command, delete_command, run_command, run_words, run_line, session,
}
use titan_distributed_kv.Cmd.Cli.Transcript.{
  engine_calls, Request, put_line, get_line, delete_line, words_of, typed, value_of, IsTyped,
  AllTyped, then_request, value_line, deleted_line, answered, transcript,
}

-- A session ends as a transcript says, with an engine that holds what the transcript's history says.
pub record IsShown (expected : Ended (List Event)) (actual : Ended Store) : Type 0 where
  pub shown_alike : actual.shown ≡ expected.shown
  pub problem_alike : actual.problem ≡ expected.problem
  pub holds : Holds expected.last actual.last

-- A key and a value on a line that the scanner returns fit a uint32.
put_line_fits :
    (key w : Bytes) (ws : List Bytes)
    → length (typed (put_line key w ws)) < max_scan_token_size
    → (length key < word) × (length (value_of w ws) < word)
unfolding join
put_line_fits key w ws short =
    let behind = length-append key ((32 ∷ []) ++ value_of w ws) in
    (omega (arith, behind), omega (arith, behind))

leb_cases : (m n : ℕ) → (leb m n ≡ true) ⊎ ((leb m n ≡ false) × (n < m))
leb_cases m n = ground arith

IsWord-≢ : (key : Bytes) → IsWord key → key ≢ []
IsWord-≢ [] h e = absurd h
IsWord-≢ (c ∷ cs) h e = cc e

words_put : IsWord (codes "PUT")
words_put = ((refl, refl), ((refl, refl), ((refl, refl), tt)))

words_get : IsWord (codes "GET")
words_get = ((refl, refl), ((refl, refl), ((refl, refl), tt)))

words_delete : IsWord (codes "DELETE")
words_delete = (
  (refl, refl),
  ((refl, refl), ((refl, refl), ((refl, refl), ((refl, refl), ((refl, refl), tt))))),
)

typed_words : (r : Request) → IsTyped r → AllWords (words_of r)
typed_words (put_line key w ws) (k, v) = (words_put, (k, v))
typed_words (get_line key) k = (words_get, (k, tt))
typed_words (delete_line key) k = (words_delete, (k, tt))

module _ (unicode : Bytes → Bytes) where
  run_line_words :
      (w : Bytes) (ws : List Bytes) (s : Store)
      → AllWords (w ∷ ws)
      → run_line engine_calls unicode (join (w ∷ ws) (32 ∷ [])) s
        ≡ run_command engine_calls (to_upper unicode w) ws s
  unfolding run_line run_words
  run_line_words w ws s h =
      let t = join-IsTrim w ws (32 ∷ []) h in
      rw
        (
          trim_space-IsTrim (join (w ∷ ws) (32 ∷ [])) t,
          same_ne (join (w ∷ ws) (32 ∷ [])) [] (IsTrim-≢ (join (w ∷ ws) (32 ∷ [])) t),
          fields-join (w ∷ ws) h,
        )
        refl

  upper_put : to_upper unicode (codes "PUT") ≡ codes "PUT"
  unfolding to_upper
  upper_put = refl

  upper_get : to_upper unicode (codes "GET") ≡ codes "GET"
  unfolding to_upper
  upper_get = refl

  upper_delete : to_upper unicode (codes "DELETE") ≡ codes "DELETE"
  unfolding to_upper
  upper_delete = refl

  turn_put :
      (key w : Bytes) (ws : List Bytes) (s : Store)
      → put_reply (ok (Server.put key (value_of w ws) s).0) ≡ done tt
      → run_command engine_calls (codes "PUT") (key ∷ w ∷ ws) s
        ≡ says (quoted (codes "OK: Stored key") key) (Server.put key (value_of w ws) s).1
  unfolding run_command put_command stored client_put
  turn_put key w ws s e = rw (same_refl (codes "PUT"), e) refl

  turn_get :
      (key : Bytes) (s : Store) (o : Option Bytes)
      → get_reply (ok (Server.get key s)) ≡ shown (answer o)
      → run_command engine_calls (codes "GET") (key ∷ []) s ≡ says (value_line o) s
  unfolding run_command get_command retrieved bytes_key client_get
  turn_get key s none e = rw e refl
  turn_get key s (some value) e = rw e refl

  turn_delete :
      (key : Bytes) (s : Store) (o : Option Bytes) (r : Reply (Unit {0}))
      → delete_reply (ok (Server.delete key s).0) ≡ r
      → deleted key r ≡ deleted_line key o
      → run_command engine_calls (codes "DELETE") (key ∷ []) s
        ≡ says (deleted_line key o) (Server.delete key s).1
  unfolding run_command delete_command bytes_key client_delete
  turn_delete key s o r e e' = rw (e, e') refl

  -- A turn of the session: what it prints, and an engine that holds what the history says then.
  record Turned (r : Request) (h : List Event) (t : Turn Store) : Type 0 where
    after : Store
    turn : t ≡ says (answered r h) after
    holds : Holds (then_request r h) after

  run_put :
      (key w : Bytes) (ws : List Bytes) (h : List Event) (s : Store)
      → IsTyped (put_line key w ws)
      → length (typed (put_line key w ws)) < max_scan_token_size
      → Holds h s
      → Turned (put_line key w ws) h (run_command engine_calls (codes "PUT") (key ∷ w ∷ ws) s)
  run_put key w ws h s (k, v) short before =
      let value = value_of w ws in
      let (hk, hv) = put_line_fits key w ws short in
      let ne = IsWord-≢ key k in
      record {
        after = (Server.put key value s).1;
        turn = turn_put key w ws s (put-Serves s key value before.valid ne hk hv).replied;
        holds =
            subst (Holds (did_put key value ∷ h)) (sym (put_state key value s ne))
              (put-Holds h s key value ne hk hv before);
      }

  run_get :
      (key : Bytes) (h : List Event) (s : Store)
      → IsWord key
      → Holds h s
      → Turned (get_line key) h (run_command engine_calls (codes "GET") (key ∷ []) s)
  run_get key h s k before = record {
    after = s;
    turn =
        turn_get key s (current h key)
          (get_reply-get s key (IsWord-≢ key k) ∙ ap shown (before.holds key));
    holds = before;
  }

  deleted_found :
      (key value : Bytes) (o : Option Bytes)
      → answer o ≡ ok value
      → deleted key (done tt) ≡ deleted_line key o
  unfolding deleted
  deleted_found key value none e = absurd (cc e)
  deleted_found key value (some _) e = refl

  deleted_absent :
      (key : Bytes) (o : Option Bytes)
      → answer o ≡ err Bitcask.key_not_found
      → deleted key (failed (codes "delete failed: key not found")) ≡ deleted_line key o
  unfolding deleted
  deleted_absent key none e = refl
  deleted_absent key (some _) e = absurd (cc e)

  absent_reply :
      (key : Bytes) (s : Store)
      → key ≢ []
      → Bitcask.delete key s ≡ (err Bitcask.key_not_found, s)
      → delete_reply (ok (Server.delete key s).0) ≡ failed (codes "delete failed: key not found")
  unfolding delete_reply
  absent_reply key s ne e = rw (delete_absent key s ne e) refl

  run_delete :
      (key : Bytes) (h : List Event) (s : Store)
      → IsWord key
      → Holds h s
      → Turned (delete_line key) h (run_command engine_calls (codes "DELETE") (key ∷ []) s)
  run_delete key h s k before =
      let ne = IsWord-≢ key k in
      record {
        after = (Server.delete key s).1;
        turn = elim (get_cases s before.valid key) [
          | inl (value, found) ↦
              turn_delete key s (current h key) (done tt)
                (delete-Serves s key value before.valid ne found).replied
                (deleted_found key value (current h key) (sym (before.holds key) ∙ found))
          | inr absent ↦
              turn_delete key s (current h key) (failed (codes "delete failed: key not found"))
                (absent_reply key s ne (delete_missing s key absent))
                (deleted_absent key (current h key)
                  (sym (before.holds key) ∙ get_missing s key absent))
        ];
        holds =
            subst (Holds (did_delete key ∷ h)) (sym (delete_state key s ne))
              (delete-Holds h s key ne before);
      }

  run_typed :
      (r : Request) (h : List Event) (s : Store)
      → IsTyped r
      → length (typed r) < max_scan_token_size
      → Holds h s
      → Turned r h (run_line engine_calls unicode (typed r) s)
  run_typed (put_line key w ws) h s i short before =
      rw
        (
          run_line_words (codes "PUT") (key ∷ w ∷ ws) s (typed_words (put_line key w ws) i),
          upper_put,
        )
        (run_put key w ws h s i short before)
  run_typed (get_line key) h s i short before =
      rw (run_line_words (codes "GET") (key ∷ []) s (typed_words (get_line key) i), upper_get)
        (run_get key h s i before)
  run_typed (delete_line key) h s i short before =
      rw
        (
          run_line_words (codes "DELETE") (key ∷ []) s (typed_words (delete_line key) i),
          upper_delete,
        )
        (run_delete key h s i before)

  -- A user types any sequence of PUT, GET and DELETE with keys and values of plain words, in a session with the
  -- server over an engine without faults that holds what a history of calls says, and no RPC fails. Up to the first
  -- line of 64 KiB or more, the session prints what a map with that history's values would, and the engine
  -- holds what the history with the calls of these lines says. At such a line the session ends with the
  -- scanner's error; without one it ends behind all lines, with the error that ended the input, if any.
  pub session-transcript :
      (failure : Option Error) (rs : List Request) (h : List Event) (s : Store)
      → AllTyped rs
      → Holds h s
      → IsShown (transcript failure rs h) (session engine_calls unicode failure (map typed rs) s)
  unfolding session transcript
  session-transcript failure [] h s i before = record {
    shown_alike = refl;
    problem_alike = refl;
    holds = before;
  }
  session-transcript failure (r ∷ rs) h s (i, is) before =
      elim (leb_cases max_scan_token_size (length (typed r))) [
        | inl long ↦ rw long (record { shown_alike = refl; problem_alike = refl; holds = before })
        | inr (short, fits) ↦
            let t = run_typed r h s i fits before in
            let rest = session-transcript failure rs (then_request r h) t.after is t.holds in
            rw (short, t.turn)
              (record {
                shown_alike = ap (λ x. prompt ++ (answered r h ++ x)) rest.shown_alike;
                problem_alike = rest.problem_alike;
                holds = rest.holds;
              })
      ]
