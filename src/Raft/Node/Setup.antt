-- ===== src/Raft/Node/Setup.antt =====
-- How NewNode and its bootstrap, and AddPeer and JoinCluster, of raft/node.go and raft/join.go go together.
use titan_distributed_kv.Common.{
  ◌≡◌, ◌↔◌, refl, sym, ap, ◌∙◌, [], ◌∷◌, ◌++◌, Bytes, true, false, Option, none, some, Bool-cases,
  inl, inr,
}
use titan_distributed_kv.Common.Errors.{Error, wrap, Result, ok, err}
use titan_distributed_kv.Storage.Exec.{Store}
use titan_distributed_kv.Raft.{Fsm, new_fsm}
use titan_distributed_kv.Raft.Node.{
  Config, Calls, wrapped, Steps, run_steps, node_steps, bootstrap_steps, new_node, node_result,
  add_peer, join_cluster,
}

-- The bootstrap behind a node that was made, or the error of one that was not.
abbrev pub then_bootstrap : {W : Type 0} → Calls W → Config → Result Fsm × W → Result Fsm × W
then_bootstrap calls config (err e, w) = (err e, w)
then_bootstrap calls config (ok f, w) =
    let r =
      calls.bootstrap_cluster (record { id = config.node_id; address = config.bind_addr } ∷ []) w in
    (elim r.0 [ some e ↦ err (wrap "failed to bootstrap cluster" e) | none ↦ ok f ], r.1)

wrapped-none : (o : Option Error) → (wrapped o (wrap "failed to add voter") ≡ none) ↔ (o ≡ none)
wrapped-none none = (λ e. refl, λ e. refl)
wrapped-none (some x) = (λ e. absurd (cc e), λ e. absurd (cc e))

module _ {W : Type 0} (calls : Calls W) where
  -- Steps in two parts
  next_part : Option Error × W → Steps calls → Option Error × W
  next_part (some e, w) rest = (some e, w)
  next_part (none, w) rest = run_steps calls rest w

  run_one :
      (o : Option Error) (w : W) (f : Error → Error) (first rest : Steps calls)
      → run_steps calls (first ++ rest) w ≡ next_part (run_steps calls first w) rest
      → (elim o as (λ _. Option Error × W) [
        | some e ↦ (some (f e), w)
        | none ↦ run_steps calls (first ++ rest) w
      ])
        ≡ next_part
            (elim o as (λ _. Option Error × W) [
              | some e ↦ (some (f e), w)
              | none ↦ run_steps calls first w
            ])
            rest
  unfolding next_part
  run_one none w f first rest e = e
  run_one (some x) w f first rest e = refl

  run_steps-append :
      (first rest : Steps calls) (w : W)
      → run_steps calls (first ++ rest) w ≡ next_part (run_steps calls first w) rest
  unfolding run_steps next_part
  run_steps-append [] rest w = refl
  run_steps-append ((f, call) ∷ first) rest w =
      run_one (call w).0 (call w).1 f first rest (run_steps-append first rest (call w).1)

  bootstrapped :
      (config : Config) (api : Store) (o : Option Error) (w : W)
      → node_result calls api (elim o as (λ _. Option Error × W) [
        | some e ↦ (some (wrap "failed to bootstrap cluster" e), w)
        | none ↦ (none, w)
      ])
        ≡ (
          elim o as (λ _. Result Fsm) [
            | some e ↦ err (wrap "failed to bootstrap cluster" e)
            | none ↦ ok (new_fsm api)
          ],
          w,
        )
  unfolding node_result
  bootstrapped config api none w = refl
  bootstrapped config api (some e) w = refl

  finish_bootstrap :
      (config : Config) (api : Store) (r : Option Error × W)
      → node_result calls api
          (next_part r (bootstrap_steps calls (record config { bootstrap = true })))
        ≡ then_bootstrap calls config (
            node_result calls api
              (next_part r (bootstrap_steps calls (record config { bootstrap = false }))))
  unfolding next_part node_result run_steps
  finish_bootstrap config api (some e, w) = refl
  finish_bootstrap config api (none, w) =
      bootstrapped config api
        (calls.bootstrap_cluster (record { id = config.node_id; address = config.bind_addr } ∷ [])
          w).0
        (calls.bootstrap_cluster (record { id = config.node_id; address = config.bind_addr } ∷ [])
          w).1

  pub new_node-bootstrap :
      (config : Config) (api : Store) (w : W)
      → new_node calls (record config { bootstrap = true }) api w
        ≡ then_bootstrap calls config (new_node calls (record config { bootstrap = false }) api w)
  unfolding new_node
  new_node-bootstrap config api w =
      ap (node_result calls api) (
        run_steps-append (node_steps calls config)
          (bootstrap_steps calls (record config { bootstrap = true })) w)
      ∙ finish_bootstrap config api (run_steps calls (node_steps calls config) w)
      ∙ ap (λ r. then_bootstrap calls config (node_result calls api r))
          (sym (
            run_steps-append (node_steps calls config)
              (bootstrap_steps calls (record config { bootstrap = false })) w))

  -- JoinCluster does to the cluster what AddPeer does, and fails where that fails.
  pub join_cluster-add_peer :
      (id address : Bytes) (w : W)
      → ((join_cluster calls id address w).1 ≡ (add_peer calls id address w).1)
        × (((join_cluster calls id address w).0 ≡ none) ↔ ((add_peer calls id address w).0 ≡ none))
  unfolding join_cluster add_peer
  join_cluster-add_peer id address w = elim (Bool-cases (calls.is_leader w)) [
    | inl leads ↦ rw leads (refl, wrapped-none (calls.add_voter id address w).0)
    | inr follows ↦ rw follows (refl, (λ e. absurd (cc e), λ e. absurd (cc e)))
  ]
