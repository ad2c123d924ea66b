-- ===== src/Cmd/Demo.antt =====
-- cmd/kv/main.go: the calls of its demonstration and the lines that it prints. Its compactions, which start after
-- five minutes, are the histories of Storage/History.
pub mod Shown
use titan_distributed_kv.Common.{Bytes, codes, List, [], ◌∷◌, ◌++◌, map}
use titan_distributed_kv.Common.Errors.{Error, text, Result, ok, err, wrap}
use titan_distributed_kv.Storage.Disk.{Disk}
use titan_distributed_kv.Storage.Exec.{Store}
use titan_distributed_kv.Storage.Api
use titan_distributed_kv.Storage.Recovery.{new_bitcask}

-- A line on the standard output, or one of the log.
pub data Line : Type 0 where
  printed : Bytes → Line
  logged : Bytes → Line

abbrev pub log_error : Error → Line
log_error e = logged (codes "Error: " ++ text e)

noted : Bytes → Result (Unit {0}) → Line
noted note (ok _) = printed note
noted note (err e) = log_error e

-- A `Put` with the line of its success
unfoldable pub demo_put : Bytes → Bytes → Bytes → Store → List Line × Store
unfolding noted
demo_put key value note s = let r = Api.put key value s in (noted note r.0 ∷ [], r.1)

-- The `Delete`
unfoldable pub demo_delete : Bytes → Bytes → Store → List Line × Store
unfolding noted
demo_delete key note s = let r = Api.delete key s in (noted note r.0 ∷ [], r.1)

shown_value : Bytes → Result Bytes → Line
shown_value key (ok value) = printed (codes "  GET " ++ (key ++ (codes " = " ++ value)))
shown_value key (err e) = log_error e

-- A `Get` of a key that should be there
unfoldable pub demo_get : Bytes → Store → List Line × Store
unfolding shown_value
demo_get key s = (shown_value key (Api.get key s) ∷ [], s)

shown_error : Bytes → Bytes → Result Bytes → List Line
shown_error key note (ok _) = []
shown_error key note (err e) =
    printed (codes "  GET " ++ (key ++ (codes " = Error: " ++ (text e ++ note)))) ∷ []

-- A `Get` of a key that should not be there
unfoldable pub demo_miss : Bytes → Bytes → Store → List Line × Store
unfolding shown_error
demo_miss key note s = (shown_error key note (Api.get key s), s)

abbrev pub demo_print : List Bytes → Store → List Line × Store
demo_print texts s = (map printed texts, s)

abbrev pub user_1 : Bytes
user_1 = codes "user:1"

abbrev pub user_2 : Bytes
user_2 = codes "user:2"

abbrev pub user_999 : Bytes
user_999 = codes "user:999"

abbrev pub newline : Bytes
newline = 10 ∷ []

-- The steps of `main` behind the opening of the engine, to the end of its demonstration
abbrev pub demo_steps : List (Store → List Line × Store)
demo_steps =
    demo_print (
      codes "Titan-KV Storage Engine Demo"
      ∷ codes "============================"
      ∷ (newline ++ codes "1. PUT operations:")
      ∷ [])
    ∷ demo_put user_1 (codes "Alice") (codes "  PUT user:1 = Alice")
    ∷ demo_put user_2 (codes "Bob") (codes "  PUT user:2 = Bob")
    ∷ demo_put user_1 (codes "Alice Updated") (codes "  PUT user:1 = Alice Updated (update)")
    ∷ demo_print ((newline ++ codes "2. GET operations:") ∷ [])
    ∷ demo_get user_1
    ∷ demo_get user_2
    ∷ demo_miss user_999 (codes " (expected)")
    ∷ demo_print ((newline ++ codes "3. DELETE operation:") ∷ [])
    ∷ demo_delete user_2 (codes "  DELETE user:2")
    ∷ demo_miss user_2 (codes " (expected after delete)")
    ∷ demo_print (
        (newline ++ codes "Storage engine is running. Press Ctrl+C to exit.")
        ∷ codes "Compaction will run automatically every 5 minutes."
        ∷ [])
    ∷ []

unfoldable pub run_demo : List (Store → List Line × Store) → Store → List Line × Store
run_demo [] s = ([], s)
run_demo (step ∷ steps) s =
    let r = step s in let rest = run_demo steps r.1 in (r.0 ++ rest.0, rest.1)

demo_opened : Result (Unit {0}) × Store → List Line × Store
unfolding run_demo
demo_opened (err e, s) = (logged (codes "Failed to create Bitcask: " ++ text e) ∷ [], s)
demo_opened (ok _, s) = run_demo demo_steps s

-- `main`, to where it waits for a signal
unfoldable pub demo_main : Disk → List Line × Store
unfolding demo_opened
demo_main d = demo_opened (new_bitcask d)
