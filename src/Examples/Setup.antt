-- ===== src/Examples/Setup.antt =====
-- A Raft library that keeps the servers of its configuration, and the theorems on what a node starts with.
use titan_distributed_kv.Common.{
  ◌≡◌, refl, codes, List, [], ◌∷◌, bytes_key, true, false, Option, none, some,
}
use titan_distributed_kv.Common.Errors.{Error, new, ok}
use titan_distributed_kv.Raft.Node.{Server, Config, Calls, new_node}
use titan_distributed_kv.Raft.Node.Setup.{then_bootstrap, new_node-bootstrap}
use titan_distributed_kv.Sharding.Membership
use titan_distributed_kv.Sharding.Membership.{Membership, new_membership}
use titan_distributed_kv.Sharding.Membership.Connected.{
  IsConnected, new_membership-IsConnected, add_node-IsConnected,
}
use titan_distributed_kv.Examples.Engine.{a, b, start}
use titan_distributed_kv.Examples.Ring.{sum256, in_order}

abbrev pub done : List Server → Option Error × List Server
done servers = (none, servers)

-- It leads when it has a server, and no two may start it.
abbrev pub library : Calls (List Server)
library = record {
  is_leader = λ w. elim w [ [] ↦ false | _ ∷ _ ↦ true ];
  leader = λ w. [];
  resolve = λ address w. done w;
  new_transport = λ address w. done w;
  mkdir_all = λ path w. done w;
  new_bolt_store = λ path w. done w;
  new_snapshot_store = λ path w. done w;
  new_raft = λ id w. done w;
  bootstrap_cluster = λ servers w. elim w [
    | [] ↦ done servers
    | x ∷ xs ↦ (some (new "bootstrap only works on new clusters"), x ∷ xs)
  ];
  add_voter = λ id address w. done (record { id = id; address = address } ∷ w);
  remove_server = λ id w. done w;
  shutdown = λ w. done [];
}

abbrev config : Config
config = record { node_id = a; bind_addr = codes "a:2"; data_dir = codes "data"; bootstrap = false }

new_node-bootstrap_example :
    new_node library (record config { bootstrap = true }) start []
    ≡ then_bootstrap library config
        (new_node library (record config { bootstrap = false }) start [])
new_node-bootstrap_example = new_node-bootstrap library config start []

abbrev members : Membership
members =
    (Membership.add_node sum256 in_order (λ address. none) b (codes "b:1") (codes "b:2")
      (new_membership a (codes "a:1"))).1

joins :
    (Membership.add_node sum256 in_order
      (λ address. none)
      b
      (codes "b:1")
      (codes "b:2")
      (new_membership a (codes "a:1"))).0
    ≡ ok tt
unfolding Membership.add_node new_membership bytes_key
joins = refl

add_node-IsConnected_example : IsConnected members
add_node-IsConnected_example =
    add_node-IsConnected sum256 in_order (λ address. none) b (codes "b:1") (codes "b:2")
      (new_membership a (codes "a:1")) (new_membership-IsConnected sum256 in_order a (codes "a:1"))
      joins
