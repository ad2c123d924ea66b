-- ===== src/Examples/Ring.antt =====
-- The theorems on the ring, at two nodes with a virtual node each, and a sum in place of SHA-256.
use titan_distributed_kv.Common.{
  none, false, ℕ, ◌+◌, ◌%◌, ◌≡◌, ◌≢◌, ◌⊎◌, inl, inr, refl, sym, ap, ◌∙◌, [], ◌∷◌, Bytes, codes,
  bytes_key, some, arith,
}
use titan_distributed_kv.Common.Int.{pos}
use titan_distributed_kv.Common.Errors.{ok}
use titan_distributed_kv.Common.Maps
use titan_distributed_kv.Common.Maps.{IsVisit, lookup-cons, lookup-nil}
use titan_distributed_kv.Storage.Names.{decimal}
use titan_distributed_kv.Sharding.Sorted.{sort_search, search_between, sort_slice}
use titan_distributed_kv.Sharding.Ring.{
  NodeInfo, joining, Nodes, HashRing, new_hash_ring, default_replicas, hash_key, hash_node,
  node_keys, all_keys, rebuild_sorted_keys, add_if_absent, add_node, remove_if_present, remove_node,
  search_key, first_index, has_key, find_node, get_node,
}
use titan_distributed_kv.Sharding.Ring.Points.{
  Point, IsRing, new_hash_ring-IsRing, add_node-IsRing, remove_node-IsRing,
}
use titan_distributed_kv.Sharding.Ring.Owner.{IsOwner, get_node-IsOwner}
use titan_distributed_kv.Sharding.Membership
use titan_distributed_kv.Sharding.Membership.{
  Membership, new_membership, is_local_node, get_client, get_target_node,
}
use titan_distributed_kv.Storage.Bitcask
use titan_distributed_kv.Raft.{Fsm}
use titan_distributed_kv.Server
use titan_distributed_kv.Server.{failure}
use titan_distributed_kv.Server.Sharded.{Remote, sharded_get}
use titan_distributed_kv.Server.Routing.{relay, sharded_get-forwarded}
use titan_distributed_kv.Examples.Engine.{loaded, start}
use titan_distributed_kv.Sharding.Ring.Part.{NoCollision}
use titan_distributed_kv.Sharding.Ring.Movement.{remove_node-keeps, add_node_moves}

abbrev total : Bytes → ℕ
total [] = 0
total (x ∷ xs) = x + total xs

abbrev pub sum256 : Bytes → Bytes
sum256 key = 0 ∷ 0 ∷ 0 ∷ total key % 256 ∷ []

abbrev pub in_order : Nodes → Nodes
in_order nodes = nodes

pub in_order-IsVisit : IsVisit in_order
in_order-IsVisit = record { lookup-range = λ m j. refl; range-NodupKeys = λ m h. h }

abbrev a : Bytes
a = codes "a"

abbrev b : Bytes
b = codes "b"

abbrev alone : HashRing
alone = add_node sum256 in_order a (codes "a:1") (codes "a:2") (new_hash_ring (pos 1))

abbrev pub both : HashRing
both = add_node sum256 in_order b (codes "b:1") (codes "b:2") alone

unfoldable pub ring : Unit {0}
unfolding get_node hash_key hash_node node_keys all_keys rebuild_sorted_keys add_if_absent add_node
    new_hash_ring default_replicas remove_if_present remove_node search_key first_index has_key
    find_node sort_search search_between sort_slice bytes_key Maps.lookup Maps.insert Maps.erase
    decimal
ring = tt

both_keys : both.sorted_keys ≡ 203 ∷ 204 ∷ []
unfolding ring
both_keys = refl

alone-IsRing : IsRing sum256 alone
alone-IsRing =
    add_node-IsRing sum256 in_order a (codes "a:1") (codes "a:2") (new_hash_ring (pos 1))
      in_order-IsVisit (new_hash_ring-IsRing sum256 (pos 1))

pub both-IsRing : IsRing sum256 both
both-IsRing =
    add_node-IsRing sum256 in_order b (codes "b:1") (codes "b:2") alone in_order-IsVisit
      alone-IsRing

add_node-IsRing_example : IsRing sum256 both
add_node-IsRing_example =
    add_node-IsRing sum256 in_order b (codes "b:1") (codes "b:2") alone in_order-IsVisit
      alone-IsRing

remove_node-IsRing_example : IsRing sum256 (remove_node sum256 in_order a both)
remove_node-IsRing_example = remove_node-IsRing sum256 in_order a both in_order-IsVisit both-IsRing

pub both_a : Maps.lookup a both.nodes ≡ some (joining a (codes "a:1") (codes "a:2"))
unfolding ring
both_a = refl

-- The key "c" hashes to 99, from where the node "a" at 203 is the nearest.
get_node-IsOwner_example :
    (info : NodeInfo) × (get_node sum256 in_order (codes "c") both ≡ ok info)
    × IsOwner sum256 both (codes "c") info
get_node-IsOwner_example =
    get_node-IsOwner sum256 in_order (codes "c") both a (joining a (codes "a:1") (codes "a:2"))
      in_order-IsVisit both-IsRing both_a

pub get_node_c :
    get_node sum256 in_order (codes "c") both ≡ ok (joining a (codes "a:1") (codes "a:2"))
unfolding ring
get_node_c = refl

abbrev pub node_a : NodeInfo
node_a = joining a (codes "a:1") (codes "a:2")

abbrev pub node_b : NodeInfo
node_b = joining b (codes "b:1") (codes "b:2")

pub both_nodes : both.nodes ≡ (a, node_a) ∷ (b, node_b) ∷ []
unfolding ring
both_nodes = refl

both_replicas : both.replicas ≡ 1
unfolding ring
both_replicas = refl

hash_a : hash_node sum256 a 0 ≡ 203
unfolding ring
hash_a = refl

hash_b : hash_node sum256 b 0 ≡ 204
unfolding ring
hash_b = refl

pub two_names :
    (j : Bytes) (info : NodeInfo)
    → Maps.lookup j ((a, node_a) ∷ (b, node_b) ∷ []) ≡ some info
    → (j ≡ a) ⊎ (j ≡ b)
two_names j info e = elim (bytes_key.dec j a) [
  | yes p ↦ inl p
  | no q ↦ elim (bytes_key.dec j b) [
    | yes p ↦ inr p
    | no q' ↦ absurd (
        ground (
          arith,
          lookup-cons j a node_a ((b, node_b) ∷ []),
          lookup-cons j b node_b [],
          lookup-nil {V = NodeInfo} j,
          e,
        ))
  ]
]

-- The hash of a point of the two nodes tells its owner.
Point-hash :
    (p : ℕ) (x : Point sum256 both.replicas both.nodes p)
    → ((x.owner ≡ a) × (p ≡ 203)) ⊎ ((x.owner ≡ b) × (p ≡ 204))
Point-hash p x =
    let zeroth =
      ap (hash_node sum256 x.owner) {x = x.replica} {y = 0}
        (omega (arith, x.in_range, both_replicas)) in
    elim (two_names x.owner x.info (ap (Maps.lookup x.owner) (sym both_nodes) ∙ x.member)) [
      | inl e ↦ inl (e, sym x.hash ∙ zeroth ∙ ap (λ j. hash_node sum256 j 0) e ∙ hash_a)
      | inr e ↦ inr (e, sym x.hash ∙ zeroth ∙ ap (λ j. hash_node sum256 j 0) e ∙ hash_b)
    ]

pub both-NoCollision : NoCollision sum256 both
both-NoCollision p x y = elim (Point-hash p x) [
  | inl (xa, pa) ↦ elim (Point-hash p y) [
    | inl (ya, _) ↦ xa ∙ sym ya
    | inr (_, pb) ↦ absurd (omega arith)
  ]
  | inr (xb, pb) ↦ elim (Point-hash p y) [
    | inr (yb, _) ↦ xb ∙ sym yb
    | inl (_, pa) ↦ absurd (omega arith)
  ]
]

b_not_a : Maps.lookup b both.nodes ≢ some node_a
unfolding ring
b_not_a e = cc

remove_node-keeps_example :
    get_node sum256 in_order (codes "c") (remove_node sum256 in_order b both) ≡ ok node_a
remove_node-keeps_example =
    remove_node-keeps sum256 in_order in_order in_order b (codes "c") both node_a in_order-IsVisit
      in_order-IsVisit in_order-IsVisit both-IsRing both-NoCollision b_not_a get_node_c

alone_c : get_node sum256 in_order (codes "c") alone ≡ ok node_a
unfolding ring
alone_c = refl

add_node_moves_example : (node_a ≡ node_b) ⊎ (node_a ≡ node_a)
add_node_moves_example =
    add_node_moves sum256 in_order in_order in_order b (codes "b:1") (codes "b:2") (codes "c") alone
      node_a node_a in_order-IsVisit in_order-IsVisit in_order-IsVisit alone-IsRing both-NoCollision
      alone_c get_node_c

abbrev members : Membership
members =
    (Membership.add_node sum256 in_order (λ address. none) b (codes "b:1") (codes "b:2")
      (new_membership a (codes "a:1"))).1

joins :
    (Membership.add_node sum256 in_order
      (λ address. none)
      b
      (codes "b:1")
      (codes "b:2")
      (new_membership a (codes "a:1"))).0
    ≡ ok tt
unfolding Membership.add_node new_membership bytes_key
joins = refl

-- The service of the node "b" of the two, where "a" serves from an engine that has the key "a".
abbrev pub service : Membership
service = record {
  ring = both;
  local_node_id = b;
  local_addr = codes "b:1";
  clients = (a, codes "a:1") ∷ [];
}

abbrev pub remote : Remote
remote = record {
  put = λ client key value. ok (failure []);
  get = λ client key. ok (Server.get key loaded);
  delete = λ client key. ok (failure []);
}

abbrev local_state : Fsm
local_state = record { api = start; index = 0 }

target_a : get_target_node sum256 in_order a service ≡ ok node_a
unfolding ring get_target_node
target_a = refl

a_is_away : is_local_node node_a.node_id service ≡ false
unfolding is_local_node bytes_key
a_is_away = refl

a_has_client : get_client node_a.node_id service ≡ ok (codes "a:1")
unfolding get_client bytes_key Maps.lookup
a_has_client = refl

sharded_get-forwarded_example :
    sharded_get remote service sum256 in_order a local_state ≡ relay (Bitcask.get a loaded)
sharded_get-forwarded_example =
    sharded_get-forwarded remote service sum256 in_order a local_state node_a (codes "a:1") loaded
      (λ e. cc) target_a a_is_away a_has_client refl
