-- ===== src/Cmd/Demo/Shown.antt =====
-- The demonstration of cmd/kv/main.go, from any history of the engine on.
use titan_distributed_kv.Common.{
  ◌<◌, ◌≡◌, ◌≢◌, refl, ap, ◌∙◌, Bytes, codes, bytes_key, none, some, List, [], ◌∷◌, ◌++◌, map,
  length, arith,
}
use titan_distributed_kv.Common.Errors.{text}
use titan_distributed_kv.Storage.Codec.{word}
use titan_distributed_kv.Storage.Exec.{Store}
use titan_distributed_kv.Storage.Bitcask.Refinement.{put-Refines, delete-Refines}
use titan_distributed_kv.Storage.History.{
  Event, did_put, did_delete, current, answer, Holds, put-Holds, delete-Holds, api_get-served,
}
use titan_distributed_kv.Server.Replicated.{api_put_ok, api_delete_ok}
use titan_distributed_kv.Cmd.Demo.{
  Line, printed, noted, shown_value, shown_error, demo_put, demo_delete, demo_get, demo_miss,
  demo_print, demo_steps, run_demo, user_1, user_2, user_999, newline,
}

-- A step that prints the lines on every engine that holds the first history, and leaves one that holds the second.
abbrev pub Yields : List Event → (Store → List Line × Store) → List Line → List Event → Type 0
Yields h step lines h' = (s : Store) → Holds h s → ((step s).0 ≡ lines) × Holds h' (step s).1

put-Yields :
    (h : List Event) (key value note : Bytes)
    → key ≢ []
    → length key < word
    → length value < word
    → Yields h (demo_put key value note) (printed note ∷ []) (did_put key value ∷ h)
unfolding demo_put noted
put-Yields h key value note ne hk hv s before = (
  rw (api_put_ok key value s ne (put-Refines s key value before.valid hk hv).succeeds) refl,
  put-Holds h s key value ne hk hv before,
)

delete-Yields :
    (h : List Event) (key note value : Bytes)
    → key ≢ []
    → current h key ≡ some value
    → Yields h (demo_delete key note) (printed note ∷ []) (did_delete key ∷ h)
unfolding demo_delete noted
delete-Yields h key note value ne there s before = (
  rw
      (api_delete_ok key s ne
        (delete-Refines s key value before.valid (before.holds key ∙ ap answer there)).succeeds)
      refl,
  delete-Holds h s key ne before,
)

get-Yields :
    (h : List Event) (key value : Bytes)
    → key ≢ []
    → current h key ≡ some value
    → Yields h (demo_get key) (printed (codes "  GET " ++ (key ++ (codes " = " ++ value))) ∷ []) h
unfolding demo_get shown_value
get-Yields h key value ne there s before =
    (rw (api_get-served s key (some value) ne (before.holds key ∙ ap answer there)) refl, before)

miss-Yields :
    (h : List Event) (key note : Bytes)
    → key ≢ []
    → current h key ≡ none
    → Yields h
        (demo_miss key note)
        (printed (
            codes "  GET "
            ++ (key
                ++ (codes " = Error: " ++ (codes "get operation failed: key not found" ++ note))))
          ∷ [])
        h
unfolding demo_miss shown_error text
miss-Yields h key note ne gone s before =
    (rw (api_get-served s key none ne (before.holds key ∙ ap answer gone)) refl, before)

print-Yields :
    (h : List Event) (texts : List Bytes) → Yields h (demo_print texts) (map printed texts) h
print-Yields h texts s before = (refl, before)

nothing-Yields : (h : List Event) → Yields h (run_demo []) [] h
unfolding run_demo
nothing-Yields h s before = (refl, before)

then-Yields :
    {h h' h'' : List Event} {step : Store → List Line × Store} {lines rest : List Line}
    (steps : List (Store → List Line × Store))
    → Yields h step lines h'
    → Yields h' (run_demo steps) rest h''
    → Yields h (run_demo (step ∷ steps)) (lines ++ rest) h''
unfolding run_demo
then-Yields {h} {h'} {h''} {step} {lines} {rest} steps first later s before =
    let (a, after) = first s before in
    let (b, last) = later (step s).1 after in
    (ap (λ x. x ++ (run_demo steps (step s).1).0) a ∙ ap (λ x. lines ++ x) b, last)

-- What the demonstration prints.
abbrev pub demo_lines : List Line
demo_lines =
    printed (codes "Titan-KV Storage Engine Demo")
    ∷ printed (codes "============================")
    ∷ printed (newline ++ codes "1. PUT operations:")
    ∷ printed (codes "  PUT user:1 = Alice")
    ∷ printed (codes "  PUT user:2 = Bob")
    ∷ printed (codes "  PUT user:1 = Alice Updated (update)")
    ∷ printed (newline ++ codes "2. GET operations:")
    ∷ printed (codes "  GET user:1 = Alice Updated")
    ∷ printed (codes "  GET user:2 = Bob")
    ∷ printed (codes "  GET user:999 = Error: get operation failed: key not found (expected)")
    ∷ printed (newline ++ codes "3. DELETE operation:")
    ∷ printed (codes "  DELETE user:2")
    ∷ printed
        (codes "  GET user:2 = Error: get operation failed: key not found (expected after delete)")
    ∷ printed (newline ++ codes "Storage engine is running. Press Ctrl+C to exit.")
    ∷ printed (codes "Compaction will run automatically every 5 minutes.")
    ∷ []

-- The history of the keys behind the demonstration, and before its `Delete`
abbrev pub after_puts : List Event → List Event
after_puts h =
    did_put user_1 (codes "Alice Updated")
    ∷ did_put user_2 (codes "Bob")
    ∷ did_put user_1 (codes "Alice")
    ∷ h

abbrev pub after_demo : List Event → List Event
after_demo h = did_delete user_2 ∷ after_puts h

-- From every history with which the engine has no "user:999", on an engine without faults: the demonstration
-- prints the same lines, without an error in the log, and leaves the history with its three `Put`s and its
-- `Delete`.
pub run_demo-lines :
    (h : List Event) (s : Store)
    → current h user_999 ≡ none
    → Holds h s
    → ((run_demo demo_steps s).0 ≡ demo_lines) × Holds (after_demo h) (run_demo demo_steps s).1
unfolding current bytes_key
run_demo-lines h s absent =
    then-Yields _
      (print-Yields h (
        codes "Titan-KV Storage Engine Demo"
        ∷ codes "============================"
        ∷ (newline ++ codes "1. PUT operations:")
        ∷ []))
      (then-Yields _
        (put-Yields h user_1 (codes "Alice") (codes "  PUT user:1 = Alice") (λ e. cc e)
          (omega arith) (omega arith))
        (then-Yields _
          (put-Yields (did_put user_1 (codes "Alice") ∷ h) user_2 (codes "Bob")
            (codes "  PUT user:2 = Bob") (λ e. cc e) (omega arith) (omega arith))
          (then-Yields _
            (put-Yields (did_put user_2 (codes "Bob") ∷ did_put user_1 (codes "Alice") ∷ h) user_1
              (codes "Alice Updated") (codes "  PUT user:1 = Alice Updated (update)") (λ e. cc e)
              (omega arith) (omega arith))
            (then-Yields _
              (print-Yields (after_puts h) ((newline ++ codes "2. GET operations:") ∷ []))
              (then-Yields _
                (get-Yields (after_puts h) user_1 (codes "Alice Updated") (λ e. cc e) refl)
                (then-Yields _ (get-Yields (after_puts h) user_2 (codes "Bob") (λ e. cc e) refl) (
                  then-Yields _
                    (miss-Yields (after_puts h) user_999 (codes " (expected)") (λ e. cc e) absent)
                    (then-Yields _
                      (print-Yields (after_puts h) ((newline ++ codes "3. DELETE operation:") ∷ []))
                      (then-Yields _
                        (delete-Yields (after_puts h) user_2 (codes "  DELETE user:2") (codes "Bob")
                          (λ e. cc e) refl)
                        (then-Yields _
                          (miss-Yields (after_demo h) user_2 (codes " (expected after delete)")
                            (λ e. cc e) refl)
                          (then-Yields _
                            (print-Yields (after_demo h) (
                              (newline ++ codes "Storage engine is running. Press Ctrl+C to exit.")
                              ∷ codes "Compaction will run automatically every 5 minutes."
                              ∷ []))
                            (nothing-Yields (after_demo h)))))))))))))
      s
