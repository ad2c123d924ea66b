-- ===== src/Cmd/Cli/Transcript.antt =====
-- The requests that a user types in a session of cmd/cli/main.go, and what a map would print for them.
use titan_distributed_kv.Common.{
  Bytes, leb, if◌then◌else◌, codes, bytes_key, Option, none, some, List, [], ◌∷◌, ◌++◌, length,
}
use titan_distributed_kv.Common.Errors.{Error, ok}
use titan_distributed_kv.Storage.Exec.{Store}
use titan_distributed_kv.Storage.History.{Event, did_put, did_delete, current}
use titan_distributed_kv.Server
use titan_distributed_kv.Cmd.Text.{join}
use titan_distributed_kv.Cmd.Text.Words.{IsWord, AllWords}
use titan_distributed_kv.Server.Connection.{Connection}
use titan_distributed_kv.Cmd.Cli.{
  client_calls, Calls, Ended, max_scan_token_size, token_too_long, line, prompt, error_line, quoted,
}

-- A connection to the server of server/server.go, where no RPC fails
abbrev pub engine_connection : Connection Store
engine_connection = record {
  put = λ ctx key value s. (ok (Server.put key value s).0, (Server.put key value s).1);
  get = λ ctx key s. (ok (Server.get key s), s);
  delete = λ ctx key s. (ok (Server.delete key s).0, (Server.delete key s).1);
  close = λ s. (none, s);
}

abbrev pub engine_calls : Calls Store
engine_calls = client_calls engine_connection

-- What a user asks for; a value is a word and more of them.
pub data Request : Type 0 where
  put_line : Bytes → Bytes → List Bytes → Request
  get_line : Bytes → Request
  delete_line : Bytes → Request

abbrev pub words_of : Request → List Bytes
words_of (put_line key w ws) = codes "PUT" ∷ key ∷ w ∷ ws
words_of (get_line key) = codes "GET" ∷ key ∷ []
words_of (delete_line key) = codes "DELETE" ∷ key ∷ []

-- The words with a space between two
abbrev pub typed : Request → Bytes
typed r = join (words_of r) (32 ∷ [])

abbrev pub value_of : Bytes → List Bytes → Bytes
value_of w ws = join (w ∷ ws) (32 ∷ [])

-- The words are plain.
abbrev pub IsTyped : Request → Type 0
IsTyped (put_line key w ws) = IsWord key × AllWords (w ∷ ws)
IsTyped (get_line key) = IsWord key
IsTyped (delete_line key) = IsWord key

abbrev pub AllTyped : List Request → Type 0
AllTyped [] = Unit
AllTyped (r ∷ rs) = IsTyped r × AllTyped rs

-- The history of the keys behind a request
abbrev pub then_request : Request → List Event → List Event
then_request (put_line key w ws) h = did_put key (value_of w ws) ∷ h
then_request (get_line key) h = h
then_request (delete_line key) h = did_delete key ∷ h

abbrev pub value_line : Option Bytes → Bytes
value_line none = error_line (codes "key not found")
value_line (some value) = line (codes "Value: " ++ value)

abbrev pub deleted_line : Bytes → Option Bytes → Bytes
deleted_line key none = error_line (codes "delete failed: key not found")
deleted_line key (some _) = quoted (codes "OK: Deleted key") key

-- What a map with the history's values would print.
abbrev pub answered : Request → List Event → Bytes
answered (put_line key w ws) h = quoted (codes "OK: Stored key") key
answered (get_line key) h = value_line (current h key)
answered (delete_line key) h = deleted_line key (current h key)

-- What the user is to see of a session, whose state is the history: it ends at the first line of 64 KiB.
unfoldable pub transcript : Option Error → List Request → List Event → Ended (List Event)
transcript failure [] h = record { shown = prompt; problem = failure; last = h }
transcript failure (r ∷ rs) h =
    let rest = transcript failure rs (then_request r h) in
    if leb max_scan_token_size (length (typed r))
    then record { shown = prompt; problem = some token_too_long; last = h }
    else record {
      shown = prompt ++ (answered r h ++ rest.shown);
      problem = rest.problem;
      last = rest.last;
    }
