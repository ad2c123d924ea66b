-- ===== src/Cmd/Peers/Printed.antt =====
-- What cmd/server/main.go reads from a flag `-peers` that is written as its comment says.
use titan_distributed_kv.Common.{
  ℕ, suc, arith, ◌≡◌, ◌≢◌, refl, ap, ◌∙◌, Bytes, bytes_key, same_refl, same_ne, Option, List, [],
  ◌∷◌, ◌++◌, map,
}
use titan_distributed_kv.Common.Errors.{Error, Result, ok, err}
use titan_distributed_kv.Sharding.Ring.{Nodes}
use titan_distributed_kv.Sharding.Membership.{Membership, new_membership, add_node}
use titan_distributed_kv.Cmd.Text.{join}
use titan_distributed_kv.Cmd.Text.Words.{
  AllWords, Lacks, AllLack, Lacks-append, IsTrim-≢, trim_space-IsTrim, join-IsTrim, split-join,
}
use titan_distributed_kv.Cmd.Peers.{add_parts, add_peer, add_peers, with_peers, start_membership}

-- nodeID|grpcAddr|raftAddr
pub record Peer : Type 0 where
  pub node_id : Bytes
  pub grpc_addr : Bytes
  pub raft_addr : Bytes

abbrev pub parts : Peer → List Bytes
parts p = p.node_id ∷ p.grpc_addr ∷ p.raft_addr ∷ []

abbrev pub print_peer : Peer → Bytes
print_peer p = join (parts p) (124 ∷ [])

abbrev pub print_peers : List Peer → Bytes
print_peers ps = join (map print_peer ps) (44 ∷ [])

-- A peer of words without commas and bars.
pub record IsWritten (p : Peer) : Type 0 where
  pub words : AllWords (parts p)
  pub no_bars : AllLack 124 (parts p)
  pub no_commas : AllLack 44 (parts p)

abbrev pub AllWritten : List Peer → Type 0
AllWritten [] = Unit
AllWritten (p ∷ ps) = IsWritten p × AllWritten ps

join-Lacks :
    (sep : ℕ) (ws : List Bytes) (bar : Bytes)
    → AllLack sep ws
    → Lacks sep bar
    → Lacks sep (join ws bar)
unfolding join
join-Lacks sep [] bar h h' = tt
join-Lacks sep (w ∷ []) bar (h, _) h' = h
join-Lacks sep (w ∷ v ∷ ws) bar (h, hs) h' =
    Lacks-append sep w (bar ++ join (v ∷ ws) bar) h
      (Lacks-append sep bar (join (v ∷ ws) bar) h' (join-Lacks sep (v ∷ ws) bar hs h'))

print_peer-Lacks : (p : Peer) → IsWritten p → Lacks 44 (print_peer p)
print_peer-Lacks p h = join-Lacks 44 (parts p) (124 ∷ []) h.no_commas (λ e. omega (arith, e), tt)

AllWritten-AllLack : (ps : List Peer) → AllWritten ps → AllLack 44 (map print_peer ps)
AllWritten-AllLack [] h = tt
AllWritten-AllLack (p ∷ ps) (h, hs) = (print_peer-Lacks p h, AllWritten-AllLack ps hs)

join-≢ : (w : Bytes) (ws : List Bytes) (sep : Bytes) → w ≢ [] → join (w ∷ ws) sep ≢ []
unfolding join
join-≢ w [] sep ne e = ne e
join-≢ [] (v ∷ ws) sep ne e = ne refl
join-≢ (c ∷ cs) (v ∷ ws) sep ne e = cc e

IsWritten-≢ : (p : Peer) → IsWritten p → print_peer p ≢ []
IsWritten-≢ p h =
    IsTrim-≢ (print_peer p)
      (join-IsTrim p.node_id (p.grpc_addr ∷ p.raft_addr ∷ []) (124 ∷ []) h.words)

module _ (sum256 : Bytes → Bytes) (range : ℕ → Nodes → Nodes) (connect : Bytes → Option Error) where
  -- AddNode of each of a list of peers in its order
  abbrev pub add_all : ℕ → List Peer → Membership → Membership
  add_all i [] m = m
  add_all i (p ∷ ps) m =
      add_all (suc i) ps (add_node sum256 (range i) connect p.node_id p.grpc_addr p.raft_addr m).1

  add_peer-print :
      (i : ℕ) (p : Peer) (m : Membership)
      → IsWritten p
      → add_peer sum256 range connect i (print_peer p) m
        ≡ (add_node sum256 (range i) connect p.node_id p.grpc_addr p.raft_addr m).1
  unfolding add_peer add_parts
  add_peer-print i p m h =
      let trimmed = join-IsTrim p.node_id (p.grpc_addr ∷ p.raft_addr ∷ []) (124 ∷ []) h.words in
      rw
        (
          trim_space-IsTrim (print_peer p) trimmed,
          same_ne (print_peer p) [] (IsTrim-≢ (print_peer p) trimmed),
          split-join 124 p.node_id (p.grpc_addr ∷ p.raft_addr ∷ []) h.no_bars,
        )
        refl

  add_peers-print :
      (i : ℕ) (ps : List Peer) (m : Membership)
      → AllWritten ps
      → add_peers sum256 range connect i (map print_peer ps) m ≡ add_all i ps m
  unfolding add_peers
  add_peers-print i [] m h = refl
  add_peers-print i (p ∷ ps) m (h, hs) =
      ap (add_peers sum256 range connect (suc i) (map print_peer ps)) (add_peer-print i p m h)
      ∙ add_peers-print (suc i) ps
          (add_node sum256 (range i) connect p.node_id p.grpc_addr p.raft_addr m).1 hs

  local_succeeds :
      (i : ℕ) (id address raft_addr : Bytes)
      → (add_node sum256 (range i) connect id address raft_addr (new_membership id address)).0
        ≡ ok tt
  unfolding add_node new_membership
  local_succeeds i id address raft_addr = rw (same_refl id) refl

  with_peers-print :
      (ps : List Peer) (r : Result (Unit {0}) × Membership)
      → AllWritten ps
      → r.0 ≡ ok tt
      → with_peers sum256 range connect (print_peers ps) r ≡ ok (add_all 1 ps r.1)
  unfolding with_peers
  with_peers-print ps (err _, m) h e = absurd (cc e)
  with_peers-print [] (ok _, m) h e = unfold join in rw (same_refl {A = Bytes} []) refl
  with_peers-print (p ∷ ps) (ok _, m) h e =
      rw
        (
          same_ne (print_peers (p ∷ ps)) []
              (join-≢ (print_peer p) (map print_peer ps) (44 ∷ []) (IsWritten-≢ p h.0)),
          split-join 44 (print_peer p) (map print_peer ps) (AllWritten-AllLack (p ∷ ps) h),
        )
        (ap ok (add_peers-print 1 (p ∷ ps) m h))

  -- Peers of ids and addresses that are words of plain ASCII bytes without commas and bars, written as
  -- nodeID|grpcAddr|raftAddr with a comma between two: `main` of cmd/server reads the flag back, and makes
  -- the membership of the node with AddNode of each peer in their order.
  pub start_membership-print :
      (node_id grpc_addr raft_addr : Bytes) (ps : List Peer)
      → AllWritten ps
      → start_membership sum256 range connect node_id grpc_addr raft_addr (print_peers ps)
        ≡ ok (
            add_all 1 ps
              (add_node sum256
                (range 0)
                connect
                node_id
                grpc_addr
                raft_addr
                (new_membership node_id grpc_addr)).1)
  unfolding start_membership
  start_membership-print node_id grpc_addr raft_addr ps h =
      with_peers-print ps
        (add_node sum256 (range 0) connect node_id grpc_addr raft_addr
          (new_membership node_id grpc_addr))
        h (local_succeeds 0 node_id grpc_addr raft_addr)
