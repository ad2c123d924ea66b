-- ===== src/Server/Cluster.antt =====
-- What a client of the servers of server/sharded_server.go sees, when they forward to each other: a key that is
-- written through one node is read through any other.
use titan_distributed_kv.Common.{
  ℕ, ◌<◌, ◌≡◌, ◌≢◌, refl, ap, ◌∙◌, [], Bytes, bytes_key, same_ne, same_refl, false, true, length,
}
use titan_distributed_kv.Common.Errors.{Result, ok}
use titan_distributed_kv.Common.Maps.{IsVisit}
use titan_distributed_kv.Storage.Codec.{word}
use titan_distributed_kv.Storage.Bitcask
use titan_distributed_kv.Storage.Bitcask.Steps.{IsValid, set_value}
use titan_distributed_kv.Raft.{LogEntry, Fsm, Library}
use titan_distributed_kv.Sharding.Ring.{NodeInfo, Nodes}
use titan_distributed_kv.Sharding.Ring.Points.{IsRing}
use titan_distributed_kv.Sharding.Ring.Part.{NoCollision, get_node_orders}
use titan_distributed_kv.Sharding.Ring.Agreement.{IsNamed, HasIds, get_node-agree}
use titan_distributed_kv.Sharding.Membership.{
  Membership, is_local_node, get_client, get_target_node,
}
use titan_distributed_kv.Server.{success, replicate, get}
use titan_distributed_kv.Server.Sharded.{Remote, forwarded, forward_put, sharded_put, sharded_get}
use titan_distributed_kv.Server.Client.{put_reply}
use titan_distributed_kv.Server.Replicated.{put_entry, Commits, replicated_put}
use titan_distributed_kv.Server.Routing.{relay, sharded_get-forwarded}

set_value_same :
    (key value : Bytes) (view : Bytes → Result Bytes) → set_value key value view key ≡ ok value
set_value_same key value view = rw (same_refl key) refl

module _ (sum256 : Bytes → Bytes) (b : Membership) where
  -- The node whose service is `b` knows a ring of its own under proper names, without collisions, which gives
  -- it the key.
  pub record Owns (key : Bytes) : Type 0 where
    pub visit : Nodes → Nodes
    pub visits : IsVisit visit
    pub ring : IsRing sum256 b.ring
    pub named : IsNamed b.ring
    pub distinct : NoCollision sum256 b.ring
    pub info : NodeInfo
    pub found : get_target_node sum256 visit key b ≡ ok info
    pub local : info.node_id ≡ b.local_node_id

  -- A node that is not `b`, whose ring has the same ids, and that has a client for `b`.
  pub record Peer (m : Membership) : Type 0 where
    pub ring : IsRing sum256 m.ring
    pub named : IsNamed m.ring
    pub replicas : b.ring.replicas ≡ m.ring.replicas
    pub knows : HasIds m.ring b.ring
    pub known : HasIds b.ring m.ring
    pub apart : b.local_node_id ≢ m.local_node_id
    pub client : Bytes
    pub connected : get_client b.local_node_id m ≡ ok client

  module _ (key : Bytes) (owns : Owns key) (ne : key ≢ []) where
    peer_target :
        (m : Membership) (range : Nodes → Nodes)
        → Peer m
        → IsVisit range
        → (other : NodeInfo) × (get_target_node sum256 range key m ≡ ok other)
          × (other.node_id ≡ b.local_node_id)
    unfolding get_target_node
    peer_target m range p visit =
        let (other, at, agrees) =
          get_node-agree sum256 b.ring m.ring owns.ring p.ring p.replicas p.knows p.known
            owns.distinct owns.visit range key owns.info owns.visits visit owns.named p.named
            owns.found in
        (other, at, agrees ∙ owns.local)

    own_target :
        (range : Nodes → Nodes) → IsVisit range → get_target_node sum256 range key b ≡ ok owns.info
    unfolding get_target_node
    own_target range visit =
        get_node_orders sum256 owns.visit range key b.ring owns.info owns.visits visit owns.ring
          owns.distinct owns.found

    own_local : is_local_node owns.info.node_id b ≡ true
    unfolding is_local_node
    own_local = rw owns.local (same_refl b.local_node_id)

    own_get :
        (remote : Remote) (range : Nodes → Nodes) (g : Fsm)
        → IsVisit range
        → sharded_get remote b sum256 range key g ≡ get key g.api
    unfolding sharded_get get
    own_get remote range g visit = rw (same_ne key [] ne, own_target range visit, own_local) refl

    own_put :
        (remote : Remote) (range : Nodes → Nodes) (encode : LogEntry → Result Bytes)
        (raft : Library) (value : Bytes) (f : Fsm)
        → IsVisit range
        → sharded_put remote b sum256 range encode raft key value f
          ≡ replicate encode raft (put_entry key value) f
    unfolding sharded_put
    own_put remote range encode raft value f visit =
        rw (same_ne key [] ne, own_target range visit, own_local) refl

    module _ (m : Membership) (p : Peer m) (remote : Remote) (range : Nodes → Nodes)
        (visit : IsVisit range) where
      peer_away :
          (other : NodeInfo)
          → other.node_id ≡ b.local_node_id
          → is_local_node other.node_id m ≡ false
      unfolding is_local_node bytes_key
      peer_away other e = rw e (same_ne b.local_node_id m.local_node_id p.apart)

      peer_client :
          (other : NodeInfo)
          → other.node_id ≡ b.local_node_id
          → get_client other.node_id m ≡ ok p.client
      peer_client other e = rw e p.connected

      peer_get :
          (f g : Fsm)
          → remote.get p.client key ≡ ok (get key g.api)
          → sharded_get remote m sum256 range key f ≡ relay (Bitcask.get key g.api)
      peer_get f g answer =
          let (other, at, e) = peer_target m range p visit in
          sharded_get-forwarded remote m sum256 range key f other p.client g.api ne at
            (peer_away other e) (peer_client other e) answer

      forward_put_accepted :
          (other : NodeInfo) (value : Bytes)
          → other.node_id ≡ b.local_node_id
          → remote.put p.client key value ≡ ok success
          → forward_put remote m other key value ≡ success
      unfolding forward_put forwarded put_reply
      forward_put_accepted other value e answer = rw (forward_put, peer_client other e, answer) refl

      peer_put :
          (encode : LogEntry → Result Bytes) (raft : Library) (value : Bytes) (f : Fsm)
          → remote.put p.client key value ≡ ok success
          → sharded_put remote m sum256 range encode raft key value f ≡ (success, f)
      unfolding sharded_put
      peer_put encode raft value f answer =
          let (other, at, e) = peer_target m range p visit in
          rw (same_ne key [] ne, at, peer_away other e)
            (ap (λ r. (r, f)) (forward_put_accepted other value e answer))

  -- Two other nodes of a cluster have the ids of the owner's ring, where no two virtual nodes collide, and
  -- clients for the owner, which their own rings then give for the key too. The owner leads, commits the
  -- entry, has a valid engine and no faults ahead, and answers the RPCs. Then `Put` of a key that is not
  -- empty, of uint32 sizes, through the first node answers with a success and leaves that node as it was,
  -- and `Get` through the second node answers with the value, as the owner does itself.
  pub sharded_put-get :
      (a c : Membership) (remote_a remote_b remote_c : Remote) (range : ℕ → Nodes → Nodes)
      (decode : Bytes → Result LogEntry) (encode encode_a : LogEntry → Result Bytes)
      (raft raft_a : Library) (key value : Bytes) (f_a f_b f_c : Fsm) (owns : Owns key)
      (peer_a : Peer a) (peer_c : Peer c)
      → ((i : ℕ) → IsVisit (range i))
      → key ≢ []
      → length key < word
      → length value < word
      → IsValid f_b.api
      → Commits decode encode raft (put_entry key value) f_b
      → remote_a.put peer_a.client key value
        ≡ ok (sharded_put remote_b b sum256 (range 0) encode raft key value f_b).0
      → remote_c.get peer_c.client key
        ≡ ok (
            sharded_get remote_b b sum256
              (range 1)
              key
              (sharded_put remote_b b sum256 (range 0) encode raft key value f_b).1)
      → (sharded_put remote_a a sum256 (range 2) encode_a raft_a key value f_a ≡ (success, f_a))
        × (sharded_get remote_c c sum256 (range 3) key f_c
            ≡ record { found = true; value = value; error = [] })
  sharded_put-get a c remote_a remote_b remote_c range decode encode encode_a raft raft_a key value
        f_a f_b f_c owns peer_a peer_c visit ne hk hv valid commits answer_put answer_get =
      let at_owner = own_put key owns ne remote_b (range 0) encode raft value f_b (visit 0) in
      let (accepted, stored) =
        replicated_put decode encode raft f_b valid key value ne hk hv commits in
      let g = (sharded_put remote_b b sum256 (range 0) encode raft key value f_b).1 in
      (
        peer_put key owns ne a peer_a remote_a (range 2) (visit 2) encode_a raft_a value f_a
            (answer_put ∙ ap (λ r. ok r.0) at_owner ∙ ap ok accepted),
        peer_get key owns ne c peer_c remote_c (range 3) (visit 3) f_c g
              (answer_get ∙ ap ok (own_get key owns ne remote_b (range 1) g (visit 1)))
            ∙ ap relay (
                ap (λ r. Bitcask.get key r.1.api) at_owner
                ∙ stored.gets key
                ∙ set_value_same key value (λ j. Bitcask.get j f_b.api)),
      )
