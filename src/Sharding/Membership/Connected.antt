-- ===== src/Sharding/Membership/Connected.antt =====
-- The clients that sharding/membership.go holds: one for every node of the ring but the local one.
use titan_distributed_kv.Common.{
  ◌≡◌, ◌≢◌, refl, sym, ap, ◌∙◌, Bytes, bytes_key, same, eq_of_same, Bool, true, false, Option, none,
  some, arith, if◌then◌else◌,
}
use titan_distributed_kv.Common.Errors.{Error, ok}
use titan_distributed_kv.Common.Maps
use titan_distributed_kv.Common.Maps.{lookup-insert, lookup-erase, lookup-erase_cases, lookup-nil}
use titan_distributed_kv.Sharding.Ring
use titan_distributed_kv.Sharding.Ring.{NodeInfo, Nodes, HashRing, joining}
use titan_distributed_kv.Sharding.Membership.{
  Membership, new_membership, add_node, add_client, remove_node,
}

-- Every node of the ring but the local one has a client.
abbrev pub IsConnected : Membership → Type 0
IsConnected m =
    (id : Bytes) (info : NodeInfo)
    → Maps.lookup id m.ring.nodes ≡ some info
    → id ≢ m.local_node_id
    → (client : Bytes) × (Maps.lookup id m.clients ≡ some client)

lookup-insert_other {ℓ} :
    {V : Type ℓ} (j k : Bytes) (v : V) (m : Maps.Map Bytes V)
    → j ≢ k
    → Maps.lookup j m ≡ Maps.lookup j (Maps.insert k v m)
lookup-insert_other j k v m ne = ground (arith, lookup-insert j k v m)

module _ (sum256 : Bytes → Bytes) (range : Nodes → Nodes) where
  add_if_absent-member :
      (new address raft_addr id : Bytes) (r : HashRing) (info : NodeInfo) (o : Option NodeInfo)
      → id ≢ new
      → Maps.lookup id (Ring.add_if_absent sum256 range new address raft_addr r o).nodes ≡ some info
      → Maps.lookup id r.nodes ≡ some info
  unfolding Ring.add_if_absent Ring.rebuild_sorted_keys
  add_if_absent-member new address raft_addr id r info (some _) ne e = e
  add_if_absent-member new address raft_addr id r info none ne e =
      (lookup-insert_other id new (joining new address raft_addr) r.nodes ne) ∙ e

  add_node-member :
      (new address raft_addr id : Bytes) (r : HashRing) (info : NodeInfo)
      → id ≢ new
      → Maps.lookup id (Ring.add_node sum256 range new address raft_addr r).nodes ≡ some info
      → Maps.lookup id r.nodes ≡ some info
  unfolding Ring.add_node
  add_node-member new address raft_addr id r info ne e =
      add_if_absent-member new address raft_addr id r info (Maps.lookup new r.nodes) ne e

  remove_if_present-member :
      (gone id : Bytes) (r : HashRing) (info : NodeInfo) (o : Option NodeInfo)
      → Maps.lookup gone r.nodes ≡ o
      → Maps.lookup id (Ring.remove_if_present sum256 range gone r o).nodes ≡ some info
      → (id ≢ gone) × (Maps.lookup id r.nodes ≡ some info)
  unfolding Ring.remove_if_present Ring.rebuild_sorted_keys
  remove_if_present-member gone id r info none absent e = (λ eq. cc (absent, e, eq), e)
  remove_if_present-member gone id r info (some _) there e =
      let (ne, e') = lookup-erase_cases id gone info r.nodes e in (λ eq. ne (sym eq), e')

  remove_node-member :
      (gone id : Bytes) (r : HashRing) (info : NodeInfo)
      → Maps.lookup id (Ring.remove_node sum256 range gone r).nodes ≡ some info
      → (id ≢ gone) × (Maps.lookup id r.nodes ≡ some info)
  unfolding Ring.remove_node
  remove_node-member gone id r info e =
      remove_if_present-member gone id r info (Maps.lookup gone r.nodes) refl e

  add_client-IsConnected :
      (connect : Bytes → Option Error) (id address : Bytes) (before m : Membership)
      (o : Option Error)
      → IsConnected before
      → before.clients ≡ m.clients
      → before.local_node_id ≡ m.local_node_id
      → ((j : Bytes) (info : NodeInfo)
          → j ≢ id
          → Maps.lookup j m.ring.nodes ≡ some info
          → Maps.lookup j before.ring.nodes ≡ some info)
      → (add_client sum256 range connect id address m o).0 ≡ ok tt
      → IsConnected (add_client sum256 range connect id address m o).1
  unfolding add_client
  add_client-IsConnected connect id address before m (some e) c same_clients same_local old
        succeeded j info member away =
      absurd (cc (succeeded))
  add_client-IsConnected connect id address before m none c same_clients same_local old succeeded j
        info member away =
      elim (bytes_key.dec j id) [
        | yes eq ↦ (address, rw (lookup-insert j id address m.clients) (ground arith))
        | no ne ↦
            let (client, found) = c j info (old j info ne member) (λ eq. away (eq ∙ same_local)) in
            (
              client,
              sym (lookup-insert_other j id address m.clients ne)
                  ∙ ap (Maps.lookup j) (sym same_clients)
                  ∙ found,
            )
      ]

  -- A new service holds a client for every node of the ring but the local one.
  pub new_membership-IsConnected : (id address : Bytes) → IsConnected (new_membership id address)
  unfolding new_membership Ring.new_hash_ring
  new_membership-IsConnected id address j info member away =
      absurd (cc (lookup-nil {V = NodeInfo} j, member))

  if_local-IsConnected :
      (connect : Bytes → Option Error) (id address raft_addr : Bytes) (m : Membership)
      (is_local : Bool)
      → same id m.local_node_id ≡ is_local
      → IsConnected m
      → (if is_local
          then (ok tt, record m { ring = Ring.add_node sum256 range id address raft_addr m.ring })
          else add_client sum256 range connect id address
              (record m { ring = Ring.add_node sum256 range id address raft_addr m.ring })
              (connect address)).0
        ≡ ok tt
      → IsConnected
          (if is_local
            then (ok tt, record m { ring = Ring.add_node sum256 range id address raft_addr m.ring })
            else add_client sum256 range connect id address
                (record m { ring = Ring.add_node sum256 range id address raft_addr m.ring })
                (connect address)).1
  if_local-IsConnected connect id address raft_addr m true here c succeeded = λ j info member away.
      c j info
        (add_node-member id address raft_addr j m.ring info
          (λ eq. away (eq ∙ eq_of_same id m.local_node_id here)) member)
        away
  if_local-IsConnected connect id address raft_addr m false here c succeeded =
      add_client-IsConnected connect id address m
        (record m { ring = Ring.add_node sum256 range id address raft_addr m.ring })
        (connect address) c refl refl
        (λ j info ne member. add_node-member id address raft_addr j m.ring info ne member) succeeded

  -- `AddNode`, where it succeeds, keeps a client for every node of the ring but the local one.
  pub add_node-IsConnected :
      (connect : Bytes → Option Error) (id address raft_addr : Bytes) (m : Membership)
      → IsConnected m
      → (add_node sum256 range connect id address raft_addr m).0 ≡ ok tt
      → IsConnected (add_node sum256 range connect id address raft_addr m).1
  unfolding add_node
  add_node-IsConnected connect id address raft_addr m c succeeded =
      if_local-IsConnected connect id address raft_addr m (same id m.local_node_id) refl c succeeded

  -- `RemoveNode` keeps a client for every node of the ring but the local one.
  pub remove_node-IsConnected :
      (gone : Bytes) (m : Membership)
      → IsConnected m
      → IsConnected (remove_node sum256 range gone m)
  unfolding remove_node
  remove_node-IsConnected gone m c id info member away =
      let (ne, old) = remove_node-member gone id m.ring info member in
      let (client, found) = c id info old away in
      (client, ground (arith, lookup-erase id gone m.clients))
