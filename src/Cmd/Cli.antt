-- ===== src/Cmd/Cli.antt =====
-- cmd/cli/main.go: the session of a user with a server, from the lines that are typed to the text that is printed.
-- A line is what stands between two newlines of the input.
pub mod Transcript
pub mod Session
use titan_distributed_kv.Common.{
  ℕ, Bytes, codes, bytes_key, same, Bool, true, false, ◌||◌, Option, none, some, List, [], ◌∷◌,
  ◌++◌, if◌then◌else◌, leb, length,
}
use titan_distributed_kv.Common.Errors.{Error, new, Result, ok, err, wrap}
use titan_distributed_kv.Server.Client.{Reply, done, failed}
use titan_distributed_kv.Server.Connection.{Connection, client_put, client_get, client_delete}
use titan_distributed_kv.Cmd.Text.{trim_space, fields, join, to_upper}

-- The calls of a client, on a state `S` of the servers
pub record Calls (S : Type 0) : Type 0 where
  pub put : Bytes → Bytes → S → Reply (Unit {0}) × S
  pub get : Bytes → S → Reply Bytes × S
  pub delete : Bytes → S → Reply (Unit {0}) × S

-- The calls of client/client.go without a context
abbrev pub client_calls : {W : Type 0} → Connection W → Calls W
client_calls conn = record {
  put = λ key value w. client_put conn none key value w;
  get = λ key w. client_get conn none key w;
  delete = λ key w. client_delete conn none key w;
}

-- bufio.MaxScanTokenSize: a line and its newline have to fit a buffer of this size.
abbrev pub max_scan_token_size : ℕ
max_scan_token_size = 65536

-- bufio.ErrTooLong
abbrev pub token_too_long : Error
token_too_long = new "bufio.Scanner: token too long"

-- The end of the loop: what was printed, the error that `log.Printf` reports behind it, and the state.
pub record Ended (S : Type 0) : Type 0 where
  pub shown : Bytes
  pub problem : Option Error
  pub last : S

-- What a line leads to.
pub record Turn (S : Type 0) : Type 0 where
  pub printed : Bytes
  pub quits : Bool
  pub state : S

abbrev pub line : Bytes → Bytes
line text = text ++ (10 ∷ [])

abbrev pub prompt : Bytes
prompt = codes "titan-kv> "

abbrev pub commands : Bytes
commands =
    (10 ∷ [])
    ++ (line (codes "Commands:")
        ++ (line (codes "  PUT <key> <value>  - Store a key-value pair")
            ++ (line (codes "  GET <key>          - Retrieve a value by key")
                ++ (line (codes "  DELETE <key>       - Delete a key-value pair")
                    ++ (line (codes "  QUIT               - Exit the client") ++ (10 ∷ []))))))

abbrev pub says : {S : Type 0} → Bytes → S → Turn S
says text s = record { printed = text; quits = false; state = s }

abbrev pub error_line : Bytes → Bytes
error_line message = line (codes "Error: " ++ message)

abbrev pub quoted : Bytes → Bytes → Bytes
quoted before key = line (before ++ (codes " '" ++ (key ++ codes "'")))

unfoldable pub stored : Bytes → Reply (Unit {0}) → Bytes
stored key (done _) = quoted (codes "OK: Stored key") key
stored key (failed message) = error_line message

unfoldable pub retrieved : Reply Bytes → Bytes
retrieved (done value) = line (codes "Value: " ++ value)
retrieved (failed message) = error_line message

unfoldable pub deleted : Bytes → Reply (Unit {0}) → Bytes
deleted key (done _) = quoted (codes "OK: Deleted key") key
deleted key (failed message) = error_line message

module _ {S : Type 0} (calls : Calls S) where
  -- The case "PUT", on the words behind the command
  unfoldable pub put_command : List Bytes → S → Turn S
  unfolding stored
  put_command (key ∷ word ∷ words) s =
      let r = calls.put key (join (word ∷ words) (32 ∷ [])) s in says (stored key r.0) r.1
  put_command _ s =
      says
        (error_line (codes "PUT requires key and value") ++ line (codes "Usage: PUT <key> <value>"))
        s

  -- The case "GET"
  unfoldable pub get_command : List Bytes → S → Turn S
  unfolding retrieved
  get_command (key ∷ _) s = let r = calls.get key s in says (retrieved r.0) r.1
  get_command [] s =
      says (error_line (codes "GET requires a key") ++ line (codes "Usage: GET <key>")) s

  -- The case "DELETE"
  unfoldable pub delete_command : List Bytes → S → Turn S
  unfolding deleted
  delete_command (key ∷ _) s = let r = calls.delete key s in says (deleted key r.0) r.1
  delete_command [] s =
      says (error_line (codes "DELETE requires a key") ++ line (codes "Usage: DELETE <key>")) s

  -- The `switch`
  unfoldable pub run_command : Bytes → List Bytes → S → Turn S
  unfolding put_command get_command delete_command
  run_command command words s =
      if same command (codes "PUT")
      then put_command words s
      else if same command (codes "GET")
      then get_command words s
      else if same command (codes "DELETE")
      then delete_command words s
      else if same command (codes "QUIT") || same command (codes "EXIT")
      then record { printed = line (codes "Goodbye!"); quits = true; state = s }
      else if same command (codes "HELP")
      then says commands s
      else says
          (line (codes "Unknown command: " ++ command)
            ++ line (codes "Type HELP for available commands"))
          s

  -- `unicode` is ToUpper of a text that is not all ASCII.
  module _ (unicode : Bytes → Bytes) where
    run_words : List Bytes → S → Turn S
    unfolding run_command to_upper
    run_words [] s = says [] s
    run_words (command ∷ words) s = run_command (to_upper unicode command) words s

    -- The body of the loop, on the text of a line
    unfoldable pub run_line : Bytes → S → Turn S
    unfolding run_words
    run_line text s =
        let trimmed = trim_space text in
        if same trimmed [] then says [] s else run_words (fields trimmed) s

    -- The loop, to the end of the input, to QUIT, or to a line that is too long for the scanner. `failure`
    -- is the error of a read of the input behind the last line; there is none at the end of a file.
    unfoldable pub session : Option Error → List Bytes → S → Ended S
    unfolding run_line
    session failure [] s = record { shown = prompt; problem = failure; last = s }
    session failure (text ∷ texts) s =
        let turn = run_line text s in
        let rest = session failure texts turn.state in
        if leb max_scan_token_size (length text)
        then record { shown = prompt; problem = some token_too_long; last = s }
        else if turn.quits
        then record { shown = prompt ++ turn.printed; problem = none; last = turn.state }
        else record {
          shown = prompt ++ (turn.printed ++ rest.shown);
          problem = rest.problem;
          last = rest.last;
        }

    -- The text of `log.Printf` for the scanner's error, as an error
    logged : Option Error → Option Error
    logged none = none
    logged (some e) = some (wrap "Error reading input" e)

    -- `main`, where `connect` is `grpc.NewClient`, by the error that it returns: what is printed, and what is
    -- logged at the end
    unfoldable pub main :
        (Bytes → Option Error)
        → Bytes
        → Option Error
        → List Bytes
        → S
        → Result (Bytes × Option Error) × S
    unfolding session logged
    main connect address failure texts s = elim (connect address) [
      | some e ↦ (err (wrap "Failed to create client" (wrap "failed to connect" e)), s)
      | none ↦
          let r = session failure texts s in
          (
            ok (
                (
                  line (codes "Titan-KV CLI Client")
                      ++ (line (codes "===================")
                          ++ (line (codes "Connected to server at " ++ address)
                              ++ (commands ++ r.shown))),
                  logged r.problem,
                )),
            r.last,
          )
    ]
