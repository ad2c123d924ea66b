-- ===== src/Cmd/Server/Alone.antt =====
-- A node of cmd/server/main.go that starts without peers: what a client of its server reads after any sequence
-- of calls.
use titan_distributed_kv.Common.{
  ℕ, ◌<◌, ◌≡◌, ◌≢◌, refl, sym, ap, subst, ◌∙◌, List, [], ◌∷◌, Bytes, bytes_key, same_ne, same_refl,
  true, Option, none, some, length,
}
use titan_distributed_kv.Common.Errors.{Error, Result, ok}
use titan_distributed_kv.Common.Maps.{IsVisit}
use titan_distributed_kv.Storage.Codec.{word}
use titan_distributed_kv.Storage.History.{
  Event, did_put, did_delete, current, answer, Holds, started-Holds, put-Holds, delete-Holds,
}
use titan_distributed_kv.Storage.Recovery.{new_bitcask}
use titan_distributed_kv.Storage.Recovery.Restart.{empty_directory, new_bitcask-empty}
use titan_distributed_kv.Raft.{LogEntry, Library, new_fsm}
use titan_distributed_kv.Raft.Node.{Calls, node_is_leader}
use titan_distributed_kv.Sharding.Ring.{NodeInfo, Nodes}
use titan_distributed_kv.Sharding.Membership.{Membership, get_target_node, is_local_node}
use titan_distributed_kv.Server.{replicate, get}
use titan_distributed_kv.Server.Client.{get_reply}
use titan_distributed_kv.Sharding.Ring.Owner.{get_node-IsOwner}
use titan_distributed_kv.Server.Committed.{replicate_put-api, replicate_delete-api}
use titan_distributed_kv.Server.EndToEnd.{shown, get_reply-get}
use titan_distributed_kv.Server.Replicated.{put_entry, delete_entry, Commits}
use titan_distributed_kv.Server.Sharded.{Remote, sharded_put, sharded_get, sharded_delete}
use titan_distributed_kv.Cmd.Peers.{start_membership}
use titan_distributed_kv.Cmd.Peers.Joined.{IsJoined, start_membership-IsJoined}
use titan_distributed_kv.Cmd.Peers.Own.{IsAlone, start_membership-IsAlone}
use titan_distributed_kv.Cmd.Server.{Flags, Running, prepare, update_own_leader}
use titan_distributed_kv.Cmd.Server.Prepared.{prepare-Made}
use titan_distributed_kv.Cmd.Server.Ticks.{update_leader-IsJoined, update_leader-IsAlone}
use titan_distributed_kv.Cmd.Server.Session.{Session, starts, ticks, puts, deletes}

-- A node that is alone and in order takes every key for its own.
own_target :
    (sum256 : Bytes → Bytes) (range : ℕ → Nodes → Nodes) (connect : Bytes → Option Error)
    (visit : (i : ℕ) → IsVisit (range i)) (reaches : (address : Bytes) → connect address ≡ none)
    (order : Nodes → Nodes) (key : Bytes) (m : Membership)
    → IsVisit order
    → IsJoined sum256 range connect visit reaches m
    → IsAlone m
    → (target : NodeInfo) × (get_target_node sum256 order key m ≡ ok target)
      × (is_local_node target.node_id m ≡ true)
unfolding get_target_node is_local_node
own_target sum256 range connect visit reaches order key m in_order j alone =
    let (info, here) = j.here in
    let (target, at, owner) =
      get_node-IsOwner sum256 order key m.ring m.local_node_id info in_order j.ring here in
    let member = owner.point.member ∙ ap some owner.info_of_point in
    let is : target.node_id ≡ m.local_node_id =
      j.named owner.point.owner target member ∙ alone owner.point.owner target member in
    (target, at, rw is (same_refl m.local_node_id))

-- What the sessions of a server's clients share: the code's parameters, and the node's flags and its Raft library.
module _ (sum256 : Bytes → Bytes) (range : ℕ → Nodes → Nodes) (connect : Bytes → Option Error)
    {W : Type 0} (calls : Calls W) (flags : Flags) (remote : Remote)
    (decode : Bytes → Result LogEntry) where
  module _ (visit : (i : ℕ) → IsVisit (range i))
      (reaches : (address : Bytes) → connect address ≡ none) where
    -- The node is in order and alone, and its engine holds what the history says.
    record InOrder (h : List Event) (node : Running) : Type 0 where
      pub joined : IsJoined sum256 range connect visit reaches node.membership
      pub alone : IsAlone node.membership
      pub holds : Holds h node.fsm.api

    starts-InOrder :
        (w w' : W) (node : Running)
        → flags.peers ≡ []
        → prepare sum256 range connect calls flags empty_directory w ≡ (ok node, w')
        → InOrder [] node
    starts-InOrder w w' node no_peers is =
        let s = (new_bitcask empty_directory).1 in
        let made =
          prepare-Made sum256 range connect calls flags empty_directory s w w' node
            (new_bitcask-empty ∙ ap (λ r. (ok tt, r.1)) (sym new_bitcask-empty)) is in
        let (m, started, joined) =
          start_membership-IsJoined sum256 range connect visit reaches flags.node_id flags.grpc_addr
            flags.raft_addr flags.peers in
        let same_one : m ≡ node.membership = cc (started, made.membership) in
        record {
          joined = subst (IsJoined sum256 range connect visit reaches) same_one joined;
          alone =
              start_membership-IsAlone sum256 range connect flags.node_id flags.grpc_addr
                flags.raft_addr node.membership
                (ap
                    (start_membership sum256 range connect flags.node_id flags.grpc_addr
                      flags.raft_addr)
                    (sym no_peers)
                  ∙ made.membership);
          holds = subst (λ f. Holds [] f.api) (sym made.fsm) (unfold new_fsm in started-Holds);
        }

    own_put :
        (h : List Event) (node : Running) (order : Nodes → Nodes) (encode : LogEntry → Result Bytes)
        (raft : Library) (key value : Bytes)
        → IsVisit order
        → key ≢ []
        → InOrder h node
        → sharded_put remote node.membership sum256 order encode raft key value node.fsm
          ≡ replicate encode raft (put_entry key value) node.fsm
    unfolding sharded_put
    own_put h node order encode raft key value in_order ne v =
        let (target, at, here) =
          own_target sum256 range connect visit reaches order key node.membership in_order v.joined
            v.alone in
        rw (same_ne key [] ne, at, here) refl

    own_delete :
        (h : List Event) (node : Running) (order : Nodes → Nodes) (encode : LogEntry → Result Bytes)
        (raft : Library) (key : Bytes)
        → IsVisit order
        → key ≢ []
        → InOrder h node
        → sharded_delete remote node.membership sum256 order encode raft key node.fsm
          ≡ replicate encode raft (delete_entry key) node.fsm
    unfolding sharded_delete
    own_delete h node order encode raft key in_order ne v =
        let (target, at, here) =
          own_target sum256 range connect visit reaches order key node.membership in_order v.joined
            v.alone in
        rw (same_ne key [] ne, at, here) refl

    own_get :
        (h : List Event) (node : Running) (order : Nodes → Nodes) (key : Bytes)
        → IsVisit order
        → key ≢ []
        → InOrder h node
        → sharded_get remote node.membership sum256 order key node.fsm ≡ get key node.fsm.api
    unfolding sharded_get get
    own_get h node order key in_order ne v =
        let (target, at, here) =
          own_target sum256 range connect visit reaches order key node.membership in_order v.joined
            v.alone in
        rw (same_ne key [] ne, at, here) refl

    puts-InOrder :
        (h : List Event) (node : Running) (order : Nodes → Nodes) (encode : LogEntry → Result Bytes)
        (raft : Library) (key value : Bytes)
        → IsVisit order
        → key ≢ []
        → length key < word
        → length value < word
        → Commits decode encode raft (put_entry key value) node.fsm
        → InOrder h node
        → InOrder (did_put key value ∷ h) (record {
          fsm = (sharded_put remote node.membership sum256 order encode raft key value node.fsm).1;
          membership = node.membership;
        })
    puts-InOrder h node order encode raft key value in_order ne hk hv c v = record {
      joined = v.joined;
      alone = v.alone;
      holds =
          subst (Holds (did_put key value ∷ h))
            (sym (
              ap (λ r. r.1.api) (own_put h node order encode raft key value in_order ne v)
              ∙ replicate_put-api decode encode raft node.fsm key value c))
            (put-Holds h node.fsm.api key value ne hk hv v.holds);
    }

    deletes-InOrder :
        (h : List Event) (node : Running) (order : Nodes → Nodes) (encode : LogEntry → Result Bytes)
        (raft : Library) (key : Bytes)
        → IsVisit order
        → key ≢ []
        → Commits decode encode raft (delete_entry key) node.fsm
        → InOrder h node
        → InOrder (did_delete key ∷ h) (record {
          fsm = (sharded_delete remote node.membership sum256 order encode raft key node.fsm).1;
          membership = node.membership;
        })
    deletes-InOrder h node order encode raft key in_order ne c v = record {
      joined = v.joined;
      alone = v.alone;
      holds =
          subst (Holds (did_delete key ∷ h))
            (sym (
              ap (λ r. r.1.api) (own_delete h node order encode raft key in_order ne v)
              ∙ replicate_delete-api decode encode raft node.fsm key c))
            (delete-Holds h node.fsm.api key ne v.holds);
    }

    Session-InOrder :
        {h : List Event} {node : Running}
        → flags.peers ≡ []
        → Session sum256 range connect calls flags remote decode h node
        → InOrder h node
    unfolding update_own_leader
    Session-InOrder no_peers (starts w w' node is) = starts-InOrder w w' node no_peers is
    Session-InOrder no_peers (ticks {h} {node} w s) =
        let v = Session-InOrder no_peers s in
        let leads = node_is_leader calls w in
        record {
          joined =
              update_leader-IsJoined sum256 range connect visit reaches flags.node_id leads
                node.membership v.joined;
          alone = update_leader-IsAlone flags.node_id leads node.membership v.alone;
          holds = v.holds;
        }
    Session-InOrder no_peers (puts {h} {node} order encode raft key value in_order ne hk hv c s) =
        puts-InOrder h node order encode raft key value in_order ne hk hv c
          (Session-InOrder no_peers s)
    Session-InOrder no_peers (deletes {h} {node} order encode raft key in_order ne c s) =
        deletes-InOrder h node order encode raft key in_order ne c (Session-InOrder no_peers s)

-- A node that `main` of cmd/server starts on an empty directory, with no peers, and that has served any sequence of
-- `Put`s and `Delete`s of keys that are not empty and of uint32 sizes, each of which its library committed, with any ticks of its
-- leader status between them, and with no faults of the disk: `Client.Get` of a key that is not empty shows the value of its
-- last `Put`, or "key not found" if it had none or was deleted since.
pub Session-get :
    (sum256 : Bytes → Bytes) (range : ℕ → Nodes → Nodes) (connect : Bytes → Option Error)
    (W : Type 0) (calls : Calls W) (flags : Flags) (remote : Remote)
    (decode : Bytes → Result LogEntry) (h : List Event) (node : Running) (order : Nodes → Nodes)
    (key : Bytes)
    → ((i : ℕ) → IsVisit (range i))
    → ((address : Bytes) → connect address ≡ none)
    → flags.peers ≡ []
    → Session sum256 range connect calls flags remote decode h node
    → IsVisit order
    → key ≢ []
    → get_reply (ok (sharded_get remote node.membership sum256 order key node.fsm))
      ≡ shown (answer (current h key))
Session-get sum256 range connect W calls flags remote decode h node order key visit reaches no_peers
      s in_order ne =
    let v =
      Session-InOrder sum256 range connect calls flags remote decode visit reaches no_peers s in
    ap (λ r. get_reply (ok r))
      (own_get sum256 range connect calls flags remote decode visit reaches h node order key
        in_order ne v)
    ∙ get_reply-get node.fsm.api key ne
    ∙ ap shown (v.holds.holds key)
