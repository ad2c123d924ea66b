-- ===== src/Examples/Cluster.antt =====
-- A cluster of two nodes that forward to each other, whose rings were filled in opposite orders.
use titan_distributed_kv.Common.{
  ◌≡◌, ◌≢◌, refl, sym, ap, ◌∙◌, inl, inr, ◌⊎◌, [], ◌∷◌, Bytes, codes, bytes_key, some, true, arith,
  get_or,
}
use titan_distributed_kv.Common.Int.{pos}
use titan_distributed_kv.Common.Errors.{Result, ok, err, new}
use titan_distributed_kv.Common.Maps
use titan_distributed_kv.Common.Maps.{lookup-cons, lookup-nil}
use titan_distributed_kv.Raft.{LogEntry, Fsm, Library, apply}
use titan_distributed_kv.Sharding.Ring.{NodeInfo, HashRing, new_hash_ring, add_node, get_node}
use titan_distributed_kv.Sharding.Ring.Points.{IsRing, new_hash_ring-IsRing, add_node-IsRing}
use titan_distributed_kv.Sharding.Ring.Agreement.{
  IsNamed, new_hash_ring-IsNamed, add_node-IsNamed, HasIds, get_node-agree,
}
use titan_distributed_kv.Sharding.Membership.{Membership, get_client, get_target_node}
use titan_distributed_kv.Storage.Bitcask
use titan_distributed_kv.Storage.Bitcask.Steps.{set_value, drop_value}
use titan_distributed_kv.Server.{success, raft_put, raft_delete}
use titan_distributed_kv.Server.Sharded.{Remote, sharded_put, sharded_get}
use titan_distributed_kv.Server.Replicated.{
  put_entry, delete_entry, Commits, Shows, raft_put-Shows, raft_delete-Shows,
}
use titan_distributed_kv.Server.Cluster.{Owns, Peer, sharded_put-get}
use titan_distributed_kv.Examples.Engine.{
  a, b, one, start, start-IsValid, loaded, loaded-IsValid, get-loaded,
}
use titan_distributed_kv.Examples.Ring.{
  sum256, in_order, in_order-IsVisit, both, both-IsRing, both-NoCollision, both_a, both_nodes,
  two_names, node_a, node_b, get_node_c, service, ring,
}

abbrev only_b : HashRing
only_b = add_node sum256 in_order b (codes "b:1") (codes "b:2") (new_hash_ring (pos 1))

-- The ring to which "b" was added first.
abbrev swapped : HashRing
swapped = add_node sum256 in_order a (codes "a:1") (codes "a:2") only_b

swapped-IsRing : IsRing sum256 swapped
swapped-IsRing =
    add_node-IsRing sum256 in_order a (codes "a:1") (codes "a:2") only_b in_order-IsVisit (
      add_node-IsRing sum256 in_order b (codes "b:1") (codes "b:2") (new_hash_ring (pos 1))
        in_order-IsVisit (new_hash_ring-IsRing sum256 (pos 1)))

swapped-IsNamed : IsNamed swapped
swapped-IsNamed = add_node-IsNamed sum256 in_order a (codes "a:1") (codes "a:2") only_b (
    add_node-IsNamed sum256 in_order b (codes "b:1") (codes "b:2") (new_hash_ring (pos 1))
      (new_hash_ring-IsNamed (pos 1)))

both-IsNamed : IsNamed both
both-IsNamed =
    add_node-IsNamed sum256 in_order b (codes "b:1") (codes "b:2")
      (add_node sum256 in_order a (codes "a:1") (codes "a:2") (new_hash_ring (pos 1)))
      (add_node-IsNamed sum256 in_order a (codes "a:1") (codes "a:2") (new_hash_ring (pos 1))
        (new_hash_ring-IsNamed (pos 1)))

swapped_nodes : swapped.nodes ≡ (b, node_b) ∷ (a, node_a) ∷ []
unfolding ring
swapped_nodes = refl

same_replicas : both.replicas ≡ swapped.replicas
unfolding ring
same_replicas = refl

swapped_a : Maps.lookup a swapped.nodes ≡ some node_a
unfolding ring
swapped_a = refl

swapped_b : Maps.lookup b swapped.nodes ≡ some node_b
unfolding ring
swapped_b = refl

both_b : Maps.lookup b both.nodes ≡ some node_b
unfolding ring
both_b = refl

to_swapped : HasIds swapped both
to_swapped id info e = elim (two_names id info (ap (Maps.lookup id) (sym both_nodes) ∙ e)) [
  | inl is_a ↦ (node_a, ap (λ j. Maps.lookup j swapped.nodes) is_a ∙ swapped_a)
  | inr is_b ↦ (node_b, ap (λ j. Maps.lookup j swapped.nodes) is_b ∙ swapped_b)
]

swapped_names :
    (j : Bytes) (info : NodeInfo)
    → Maps.lookup j ((b, node_b) ∷ (a, node_a) ∷ []) ≡ some info
    → (j ≡ a) ⊎ (j ≡ b)
swapped_names j info e = elim (bytes_key.dec j a) [
  | yes p ↦ inl p
  | no q ↦ elim (bytes_key.dec j b) [
    | yes p ↦ inr p
    | no q' ↦ absurd (
        ground (
          arith,
          lookup-cons j b node_b ((a, node_a) ∷ []),
          lookup-cons j a node_a [],
          lookup-nil {V = NodeInfo} j,
          e,
        ))
  ]
]

to_both : HasIds both swapped
to_both id info e = elim (swapped_names id info (ap (Maps.lookup id) (sym swapped_nodes) ∙ e)) [
  | inl is_a ↦ (node_a, ap (λ j. Maps.lookup j both.nodes) is_a ∙ both_a)
  | inr is_b ↦ (node_b, ap (λ j. Maps.lookup j both.nodes) is_b ∙ both_b)
]

get_node-agree_example :
    (other : NodeInfo) × (get_node sum256 in_order (codes "c") swapped ≡ ok other)
    × (other.node_id ≡ node_a.node_id)
get_node-agree_example =
    get_node-agree sum256 both swapped both-IsRing swapped-IsRing same_replicas to_swapped to_both
      both-NoCollision in_order in_order (codes "c") node_a in_order-IsVisit in_order-IsVisit
      both-IsNamed swapped-IsNamed get_node_c

-- The node "a" owns the key "c".
abbrev owner : Membership
owner = record { ring = both; local_node_id = a; local_addr = codes "a:1"; clients = [] }

owner-Owns : Owns sum256 owner (codes "c")
unfolding get_target_node
owner-Owns = record {
  visit = in_order;
  visits = in_order-IsVisit;
  ring = both-IsRing;
  named = both-IsNamed;
  distinct = both-NoCollision;
  info = node_a;
  found = get_node_c;
  local = refl;
}

-- Two services of the node "b": one with the owner's ring, one with the other.
b_apart : a ≢ b
b_apart e = omega (arith, ap (λ l. get_or l 0 0) e)

service-Peer : Peer sum256 owner service
unfolding get_client bytes_key Maps.lookup
service-Peer = record {
  ring = both-IsRing;
  named = both-IsNamed;
  replicas = refl;
  knows = λ id info e. (info, e);
  known = λ id info e. (info, e);
  apart = b_apart;
  client = codes "a:1";
  connected = refl;
}

abbrev other_service : Membership
other_service = record service { ring = swapped }

other-Peer : Peer sum256 owner other_service
unfolding get_client bytes_key Maps.lookup
other-Peer = record {
  ring = swapped-IsRing;
  named = swapped-IsNamed;
  replicas = same_replicas;
  knows = to_swapped;
  known = to_both;
  apart = b_apart;
  client = codes "a:1";
  connected = refl;
}

-- A library that commits one entry, whose bytes do not matter.
abbrev pub marshal : LogEntry → Result Bytes
marshal entry = ok []

abbrev pub committing : LogEntry → Library
committing entry = record {
  is_leader = true;
  leader = a;
  submit = λ bytes f. (
    ok (apply (λ bytes'. ok entry) f (record { log_data = bytes; log_index = 1 })).0,
    (apply (λ bytes'. ok entry) f (record { log_data = bytes; log_index = 1 })).1,
  );
}

pub commits :
    (entry : LogEntry) (f : Fsm) → Commits (λ bytes. ok entry) marshal (committing entry) entry f
commits entry f = record {
  leads = refl;
  bytes = [];
  index = 1;
  encoded = refl;
  decoded = refl;
  submitted = refl;
}

abbrev pub key_c : Bytes
key_c = codes "c"

abbrev pub entry_c : LogEntry
entry_c = put_entry key_c one

abbrev empty_state : Fsm
empty_state = record { api = start; index = 0 }

abbrev pub silent : Remote
silent = record {
  put = λ client key value. err (new "unavailable");
  get = λ client key. err (new "unavailable");
  delete = λ client key. err (new "unavailable");
}

-- The answers of the owner's server, before and after the entry.
abbrev at_first : Remote
at_first = record silent {
  put = λ client key value.
      ok
        (sharded_put silent owner sum256 in_order marshal (committing entry_c) key value
          empty_state).0;
}

abbrev at_last : Remote
at_last = record silent {
  get = λ client key. ok (
      sharded_get silent owner sum256 in_order key
        (sharded_put silent owner sum256 in_order marshal (committing entry_c) key_c one
          empty_state).1);
}

sharded_put-get_example :
    (sharded_put at_first service sum256 in_order marshal (committing entry_c) key_c one empty_state
      ≡ (success, empty_state))
    × (sharded_get at_last other_service sum256 in_order key_c empty_state
        ≡ record { found = true; value = one; error = [] })
sharded_put-get_example =
    sharded_put-get sum256 owner service other_service at_first silent at_last (λ i. in_order)
      (λ bytes. ok entry_c) marshal marshal (committing entry_c) (committing entry_c) key_c one
      empty_state empty_state empty_state owner-Owns service-Peer other-Peer (λ i. in_order-IsVisit)
      (λ e. cc e) (omega arith) (omega arith) start-IsValid (commits entry_c empty_state) refl refl

raft_put-Shows_example :
    ((raft_put marshal (committing entry_c) key_c one empty_state).0 ≡ success)
    × Shows
        (raft_put marshal (committing entry_c) key_c one empty_state).1
        (set_value key_c one (λ j. Bitcask.get j start))
raft_put-Shows_example =
    raft_put-Shows (λ bytes. ok entry_c) marshal (committing entry_c) empty_state start-IsValid
      key_c one (λ e. cc e) (omega arith) (omega arith) (commits entry_c empty_state)

abbrev loaded_state : Fsm
loaded_state = record { api = loaded; index = 0 }

raft_delete-Shows_example :
    ((raft_delete marshal (committing (delete_entry a)) a loaded_state).0 ≡ success)
    × Shows
        (raft_delete marshal (committing (delete_entry a)) a loaded_state).1
        (drop_value a (λ j. Bitcask.get j loaded))
raft_delete-Shows_example =
    raft_delete-Shows (λ bytes. ok (delete_entry a)) marshal (committing (delete_entry a))
      loaded_state loaded-IsValid a one (λ e. cc e) get-loaded
      (commits (delete_entry a) loaded_state)
