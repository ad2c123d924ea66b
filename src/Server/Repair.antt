-- ===== src/Server/Repair.antt =====
-- The read repair of server/sharded_server.go, which runs beside `Get`. Its log lines are left out.
use titan_distributed_kv.Common.{
  ℕ, ◌≡◌, refl, sym, inl, inr, List, [], ◌∷◌, ◌++◌, Bytes, codes, bytes_key, same, same_refl, Bool,
  true, false, Bool-cases, if◌then◌else◌, arith, length, ◌==◌,
}
use titan_distributed_kv.Common.Int.{pos}
use titan_distributed_kv.Common.Errors.{Result, ok, err}
use titan_distributed_kv.Sharding.Ring.{NodeInfo, Nodes}
use titan_distributed_kv.Sharding.Membership.{Membership, is_local_node, get_client, replica_nodes}
use titan_distributed_kv.Server.{GetResponse}
use titan_distributed_kv.Server.Client.{Reply, done, failed, get_reply}
use titan_distributed_kv.Server.Sharded.{Remote}

-- A `Put` that the read repair sends by a client.
pub record Repair : Type 0 where
  pub client : Bytes
  pub key : Bytes
  pub value : Bytes

-- The loop of equalBytes, on slices of one length.
equal_from : Bytes → Bytes → Bool
equal_from [] b = true
equal_from (x ∷ a) [] = false
equal_from (x ∷ a) (y ∷ b) = let rest = equal_from a b in if x == y then rest else false

-- equalBytes
unfoldable pub equal_bytes : Bytes → Bytes → Bool
unfolding equal_from
equal_bytes a b = if length a == length b then equal_from a b else false

equal_from-same : (a b : Bytes) → length a ≡ length b → equal_from a b ≡ same a b
unfolding equal_from
equal_from-same [] [] e = sym (same_refl {A = Bytes} [])
equal_from-same [] (y ∷ b) e = absurd (omega arith)
equal_from-same (x ∷ a) [] e = absurd (omega arith)
equal_from-same (x ∷ a) (y ∷ b) e = ground (arith, equal_from-same a b (omega arith))

-- `equalBytes` is Go's `==` on the same bytes as strings.
pub equal_bytes-same : (a b : Bytes) → equal_bytes a b ≡ same a b
unfolding equal_bytes
equal_bytes-same a b = ground (arith, equal_from-same a b)

-- What the answer of one replica makes it send: a different value is only logged.
repair_replica : Bytes → Bytes → Bytes → Reply Bytes → List Repair
repair_replica client key value (done _) = []
repair_replica client key value (failed message) =
    if same message (codes "get RPC failed: key not found")
    then record { client = client; key = key; value = value } ∷ []
    else []

-- The replicas that `NewShardedKVServer` asks for.
abbrev replication_factor : ℕ
replication_factor = 2

module _ (remote : Remote) (m : Membership) (key value : Bytes) where
  repair_with : Result Bytes → List Repair
  unfolding repair_replica
  repair_with (err e) = []
  repair_with (ok client) = repair_replica client key value (get_reply (remote.get client key))

  -- The loop over the replicas.
  unfoldable pub repair_all : List NodeInfo → List Repair
  unfolding repair_with
  repair_all [] = []
  repair_all (replica ∷ replicas) =
      let rest = repair_all replicas in
      if is_local_node replica.node_id m
      then rest
      else repair_with (get_client replica.node_id m) ++ rest

  repair_found : Result (List NodeInfo) → List Repair
  unfolding repair_all
  repair_found (err e) = []
  repair_found (ok replicas) = repair_all replicas

  -- performReadRepair, by what it sends
  unfoldable pub read_repair : (Bytes → Bytes) → (ℕ → Nodes → Nodes) → List Repair
  unfolding repair_found
  read_repair sum256 range =
      repair_found (replica_nodes sum256 range key (pos replication_factor) m)

  not_repaired :
      (client message : Bytes)
      → same message (codes "get RPC failed: key not found") ≡ false
      → repair_replica client key value (failed message) ≡ []
  unfolding repair_replica
  not_repaired client message e = rw e refl

  repair_replica-answered :
      (client : Bytes) (resp : GetResponse)
      → repair_replica client key value (get_reply (ok resp)) ≡ []
  unfolding get_reply bytes_key
  repair_replica-answered client resp = elim (Bool-cases resp.found) [
    | inr absent ↦ rw absent (not_repaired client (codes "key not found") refl)
    | inl found ↦ elim (Bool-cases (same resp.error [])) [
      | inl fine ↦ rw (found, fine) (unfold repair_replica in refl)
      | inr failing ↦
          rw (found, failing) (not_repaired client (codes "get error: " ++ resp.error) refl)
    ]
  ]

  repair_with-answered :
      (client : Result Bytes)
      → ((c : Bytes) → (resp : GetResponse) × (remote.get c key ≡ ok resp))
      → repair_with client ≡ []
  unfolding repair_with
  repair_with-answered (err e) answers = refl
  repair_with-answered (ok client) answers =
      let (resp, e) = answers client in rw e (repair_replica-answered client resp)

  repair_all-answered :
      (replicas : List NodeInfo)
      → ((c : Bytes) → (resp : GetResponse) × (remote.get c key ≡ ok resp))
      → repair_all replicas ≡ []
  unfolding repair_all
  repair_all-answered [] answers = refl
  repair_all-answered (replica ∷ replicas) answers = ground (
    arith,
    repair_all-answered replicas answers,
    repair_with-answered (get_client replica.node_id m) answers,
  )

  repair_found-answered :
      (replicas : Result (List NodeInfo))
      → ((c : Bytes) → (resp : GetResponse) × (remote.get c key ≡ ok resp))
      → repair_found replicas ≡ []
  unfolding repair_found
  repair_found-answered (err e) answers = refl
  repair_found-answered (ok replicas) answers = repair_all-answered replicas answers

  -- Where every client's `Get` is answered by a server, whatever the answer is, the read repair sends
  -- nothing: a replica that misses the key is not repaired.
  pub read_repair_idle :
      (sum256 : Bytes → Bytes) (range : ℕ → Nodes → Nodes)
      → ((c : Bytes) → (resp : GetResponse) × (remote.get c key ≡ ok resp))
      → read_repair sum256 range ≡ []
  unfolding read_repair
  read_repair_idle sum256 range answers =
      repair_found-answered (replica_nodes sum256 range key (pos replication_factor) m) answers
