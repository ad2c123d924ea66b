-- ===== src/Examples/Cmd.antt =====
-- The theorems on the programs, at a flag of two peers a session of four lines and the demonstration.
use titan_distributed_kv.Common.{◌≡◌, refl, List, [], ◌∷◌, codes, none, map, arith}
use titan_distributed_kv.Common.Errors.{ok}
use titan_distributed_kv.Storage.Recovery.{new_bitcask}
use titan_distributed_kv.Storage.Recovery.Restart.{empty_directory}
use titan_distributed_kv.Storage.History.{current, Holds, started-Holds}
use titan_distributed_kv.Sharding.Membership.{new_membership, add_node}
use titan_distributed_kv.Cmd.Text.{join}
use titan_distributed_kv.Cmd.Peers.{start_membership}
use titan_distributed_kv.Cmd.Peers.Printed.{
  Peer, print_peers, IsWritten, AllWritten, add_all, start_membership-print,
}
use titan_distributed_kv.Cmd.Demo.{demo_steps, run_demo}
use titan_distributed_kv.Cmd.Demo.Shown.{demo_lines, after_demo, run_demo-lines}
use titan_distributed_kv.Cmd.Cli.{session}
use titan_distributed_kv.Cmd.Cli.Session.{IsShown, session-transcript}
use titan_distributed_kv.Cmd.Cli.Transcript.{
  Request, put_line, get_line, delete_line, typed, AllTyped, engine_calls, transcript,
}
use titan_distributed_kv.Examples.Engine.{a}
use titan_distributed_kv.Examples.Ring.{sum256, in_order}

abbrev peers : List Peer
peers =
    record { node_id = codes "b"; grpc_addr = codes "b:1"; raft_addr = codes "b:2" }
    ∷ record { node_id = codes "c"; grpc_addr = codes "c:1"; raft_addr = codes "c:2" }
    ∷ []

b-IsWritten :
    IsWritten (record { node_id = codes "b"; grpc_addr = codes "b:1"; raft_addr = codes "b:2" })
b-IsWritten = record {
  words = (
    ((refl, refl), tt),
    (
      ((refl, refl), ((refl, refl), ((refl, refl), tt))),
      (((refl, refl), ((refl, refl), ((refl, refl), tt))), tt),
    ),
  );
  no_bars = (
    (λ e. omega (arith, e), tt),
    (
      (λ e. omega (arith, e), (λ e. omega (arith, e), (λ e. omega (arith, e), tt))),
      ((λ e. omega (arith, e), (λ e. omega (arith, e), (λ e. omega (arith, e), tt))), tt),
    ),
  );
  no_commas = (
    (λ e. omega (arith, e), tt),
    (
      (λ e. omega (arith, e), (λ e. omega (arith, e), (λ e. omega (arith, e), tt))),
      ((λ e. omega (arith, e), (λ e. omega (arith, e), (λ e. omega (arith, e), tt))), tt),
    ),
  );
}

c-IsWritten :
    IsWritten (record { node_id = codes "c"; grpc_addr = codes "c:1"; raft_addr = codes "c:2" })
c-IsWritten = record {
  words = (
    ((refl, refl), tt),
    (
      ((refl, refl), ((refl, refl), ((refl, refl), tt))),
      (((refl, refl), ((refl, refl), ((refl, refl), tt))), tt),
    ),
  );
  no_bars = (
    (λ e. omega (arith, e), tt),
    (
      (λ e. omega (arith, e), (λ e. omega (arith, e), (λ e. omega (arith, e), tt))),
      ((λ e. omega (arith, e), (λ e. omega (arith, e), (λ e. omega (arith, e), tt))), tt),
    ),
  );
  no_commas = (
    (λ e. omega (arith, e), tt),
    (
      (λ e. omega (arith, e), (λ e. omega (arith, e), (λ e. omega (arith, e), tt))),
      ((λ e. omega (arith, e), (λ e. omega (arith, e), (λ e. omega (arith, e), tt))), tt),
    ),
  );
}

peers-AllWritten : AllWritten peers
peers-AllWritten = (b-IsWritten, (c-IsWritten, tt))

abbrev lines : List Request
lines =
    put_line (codes "k") (codes "v") (codes "w" ∷ [])
    ∷ get_line (codes "k")
    ∷ delete_line (codes "k")
    ∷ get_line (codes "k")
    ∷ []

lines-AllTyped : AllTyped lines
unfolding join
lines-AllTyped = (
  (((refl, refl), tt), (((refl, refl), tt), (((refl, refl), tt), tt))),
  (((refl, refl), tt), (((refl, refl), tt), (((refl, refl), tt), tt))),
)

session-transcript_example :
    IsShown
      (transcript none lines [])
      (session engine_calls (λ text. text) none (map typed lines) (new_bitcask empty_directory).1)
session-transcript_example =
    session-transcript (λ text. text) none lines [] (new_bitcask empty_directory).1 lines-AllTyped
      started-Holds

start_membership-print_example :
    start_membership sum256
      (λ i. in_order)
      (λ address. none)
      a
      (codes "a:1")
      (codes "a:2")
      (print_peers peers)
    ≡ ok (
        add_all sum256
          (λ i. in_order)
          (λ address. none)
          1
          peers
          (add_node sum256 in_order
            (λ address. none)
            a
            (codes "a:1")
            (codes "a:2")
            (new_membership a (codes "a:1"))).1)
start_membership-print_example =
    start_membership-print sum256 (λ i. in_order) (λ address. none) a (codes "a:1") (codes "a:2")
      peers peers-AllWritten

started : Unit {0}
unfolding current
started = tt

-- The demonstration on a new engine.
run_demo-lines_example :
    ((run_demo demo_steps (new_bitcask empty_directory).1).0 ≡ demo_lines)
    × Holds (after_demo []) (run_demo demo_steps (new_bitcask empty_directory).1).1
unfolding started
run_demo-lines_example = run_demo-lines [] (new_bitcask empty_directory).1 refl started-Holds
