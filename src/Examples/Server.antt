-- ===== src/Examples/Server.antt =====
-- The theorems on the node of cmd/server, at the flags that it has by default.
use titan_distributed_kv.Common.{
  ◌≡◌, refl, sym, ap, ◌∙◌, [], ◌∷◌, Bytes, codes, bytes_key, true, false, Option, none, arith, List,
}
use titan_distributed_kv.Common.Errors.{Error, ok}
use titan_distributed_kv.Storage.Recovery.{new_bitcask}
use titan_distributed_kv.Storage.Recovery.Restart.{empty_directory, new_bitcask-empty}
use titan_distributed_kv.Storage.History.{did_put, current}
use titan_distributed_kv.Raft.{new_fsm}
use titan_distributed_kv.Raft.Node.{Server, run_steps}
use titan_distributed_kv.Sharding.Ring.{NodeInfo}
use titan_distributed_kv.Sharding.Membership.{get_target_node}
use titan_distributed_kv.Server.Client.{get_reply}
use titan_distributed_kv.Server.EndToEnd.{shown}
use titan_distributed_kv.Server.Sharded.{sharded_put, sharded_get}
use titan_distributed_kv.Cmd.Peers.Routes.{Routed}
use titan_distributed_kv.Cmd.Server.{Running, default_flags, prepare, update_own_leader}
use titan_distributed_kv.Cmd.Server.Ticks.{ticked}
use titan_distributed_kv.Cmd.Server.Prepared.{prepare-Routed}
use titan_distributed_kv.Cmd.Server.Session.{Session, starts, ticks, puts}
use titan_distributed_kv.Cmd.Server.Alone.{Session-get}
use titan_distributed_kv.Examples.Engine.{one}
use titan_distributed_kv.Examples.Ring.{sum256, in_order, in_order-IsVisit}
use titan_distributed_kv.Examples.Setup.{library}
use titan_distributed_kv.Examples.Cluster.{marshal, committing, commits, key_c, entry_c, silent}

abbrev reachable : Bytes → Option Error
reachable address = none

opens : new_bitcask empty_directory ≡ (ok tt, (new_bitcask empty_directory).1)
opens = new_bitcask-empty ∙ ap (λ r. (ok tt, r.1)) (sym new_bitcask-empty)

prepare-Routed_example :
    (node : Running) × (prepare sum256
        (λ i. in_order)
        reachable
        library
        default_flags
        empty_directory
        []
      ≡ (ok node, []))
    × (node.fsm ≡ new_fsm (new_bitcask empty_directory).1)
    × ((target : NodeInfo) × (get_target_node sum256 in_order key_c
            (ticked (codes "node1") (true ∷ false ∷ []) node.membership)
          ≡ ok target)
        × Routed (ticked (codes "node1") (true ∷ false ∷ []) node.membership) target)
unfolding run_steps
prepare-Routed_example =
    prepare-Routed sum256 (λ i. in_order) reachable (List Server) library default_flags
      empty_directory (new_bitcask empty_directory).1 [] [] (true ∷ false ∷ []) in_order key_c
      (λ i. in_order-IsVisit) (λ address. refl) opens refl in_order-IsVisit

-- The node that starts, and the one behind a tick and a `Put`.
prepared :
    (node : Running) × (prepare sum256
        (λ i. in_order)
        reachable
        library
        default_flags
        empty_directory
        []
      ≡ (ok node, []))
unfolding run_steps
prepared =
    let p =
      prepare-Routed sum256 (λ i. in_order) reachable (List Server) library default_flags
        empty_directory (new_bitcask empty_directory).1 [] [] [] in_order key_c
        (λ i. in_order-IsVisit) (λ address. refl) opens refl in_order-IsVisit in
    (p.0, p.1)

abbrev first : Running
first = prepared.0

first-Session :
    Session sum256
      (λ i. in_order)
      reachable
      library
      default_flags
      silent
      (λ bytes. ok entry_c)
      []
      first
first-Session = starts [] [] first prepared.1

abbrev ticked_once : Running
ticked_once = update_own_leader library default_flags [] first

abbrev behind_put : Running
behind_put = record {
  fsm =
      (sharded_put silent ticked_once.membership sum256 in_order marshal (committing entry_c) key_c
        one ticked_once.fsm).1;
  membership = ticked_once.membership;
}

behind_put-Session :
    Session sum256
      (λ i. in_order)
      reachable
      library
      default_flags
      silent
      (λ bytes. ok entry_c)
      (did_put key_c one ∷ [])
      behind_put
behind_put-Session =
    puts in_order marshal (committing entry_c) key_c one in_order-IsVisit (λ e. cc e) (omega arith)
      (omega arith) (commits entry_c ticked_once.fsm) (ticks [] first-Session)

Session-get_example :
    get_reply (ok (sharded_get silent behind_put.membership sum256 in_order key_c behind_put.fsm))
    ≡ shown (ok one)
unfolding current bytes_key
Session-get_example =
    Session-get sum256 (λ i. in_order) reachable (List Server) library default_flags silent
      (λ bytes. ok entry_c) (did_put key_c one ∷ []) behind_put in_order key_c
      (λ i. in_order-IsVisit) (λ address. refl) refl behind_put-Session in_order-IsVisit (λ e. cc e)
