-- ===== src/Raft/Node/Servers.antt =====
-- The servers that BootstrapClusterWithPeers of raft/join.go hands to the library.
use titan_distributed_kv.Common.{
  ◌≡◌, ◌↔◌, ◌⊎◌, inl, inr, refl, sym, ap, ◌∙◌, List, [], ◌∷◌, map, Bytes, bytes_key, some, Has,
  same_ne, if◌then◌else◌, arith,
}
use mathlib.Core.Option.{some-injective}
use titan_distributed_kv.Common.Errors.{wrap}
use titan_distributed_kv.Common.Maps
use titan_distributed_kv.Common.Maps.{Map, NodupKeys, IsVisit, lookup-nil, lookup-cons}
use titan_distributed_kv.Raft.Node.{Server, Calls, servers, wrapped, bootstrap_cluster_with_peers}

abbrev pub as_server : Bytes × Bytes → Server
as_server peer = record { id = peer.0; address = peer.1 }

lookup_first : (k : Bytes) (v : Bytes) (m : Map Bytes Bytes) → Maps.lookup k ((k, v) ∷ m) ≡ some v
lookup_first k v m = ground (arith, lookup-cons k k v m)

Has-lookup :
    (s : Server) (m : Map Bytes Bytes)
    → NodupKeys m
    → Has s (map as_server m)
    → Maps.lookup s.id m ≡ some s.address
Has-lookup s [] h has = absurd has
Has-lookup s ((k, v) ∷ m) (fresh, h) (inl e) =
    ap (λ (t : Server). Maps.lookup t.id ((k, v) ∷ m)) (sym e)
    ∙ lookup_first k v m
    ∙ ap (λ (t : Server). some t.address) e
Has-lookup s ((k, v) ∷ m) (fresh, h) (inr later) =
    let there = Has-lookup s m h later in
    ground (
      arith,
      lookup-cons s.id k v m,
      same_ne k s.id (λ e. cc (ap (λ j. Maps.lookup j m) e, fresh, there)),
      there,
    )

lookup-Has :
    (s : Server) (m : Map Bytes Bytes)
    → Maps.lookup s.id m ≡ some s.address
    → Has s (map as_server m)
lookup-Has s [] e = absurd (cc (lookup-nil {V = Bytes} s.id, e))
lookup-Has s ((k, v) ∷ m) e = elim (bytes_key.dec k s.id) [
  | yes is ↦ inl (λ i. record {
    id = is i;
    address =
        some-injective v s.address
          (sym (lookup_first k v m) ∙ ap (λ j. Maps.lookup j ((k, v) ∷ m)) is ∙ e) i;
  })
  | no other ↦ inr (
      lookup-Has s m (
        sym (
          lookup-cons s.id k v m
          ∙ ap (λ t. if t then some v else Maps.lookup s.id m) (same_ne k s.id other))
        ∙ e))
]

servers-Has :
    (range : Map Bytes Bytes → Map Bytes Bytes) (id address : Bytes) (peers : Map Bytes Bytes)
    (s : Server)
    → IsVisit range
    → NodupKeys peers
    → Has s (servers range id address peers)
      ↔ ((record { id = id; address = address } ≡ s) ⊎ (Maps.lookup s.id peers ≡ some s.address))
servers-Has range id address peers s visit nodup = (
  λ has. elim has [
    | inl e ↦ inl e
    | inr there ↦ inr (
        sym (visit.lookup-range peers s.id)
        ∙ Has-lookup s (range peers) (visit.range-NodupKeys peers nodup) there)
  ],
  λ c. elim c [
    | inl e ↦ inl e
    | inr there ↦ inr (lookup-Has s (range peers) (visit.lookup-range peers s.id ∙ there))
  ],
)

-- BootstrapClusterWithPeers, for every order of visiting the peers, makes one call of the library, whose error it
-- wraps: a bootstrap with the node itself and one server for each peer of the map, with its id and its
-- address, and no other.
pub bootstrap_cluster_with_peers-servers :
    {W : Type 0} (calls : Calls W) (range : Map Bytes Bytes → Map Bytes Bytes) (id address : Bytes)
    (peers : Map Bytes Bytes) (w : W)
    → IsVisit range
    → NodupKeys peers
    → (configuration : List Server) × (bootstrap_cluster_with_peers calls range id address peers w
        ≡ (
          wrapped (calls.bootstrap_cluster configuration w).0 (wrap "failed to bootstrap cluster"),
          (calls.bootstrap_cluster configuration w).1,
        ))
      × ((s : Server)
          → Has s configuration ↔ (
              (record { id = id; address = address } ≡ s)
              ⊎ (Maps.lookup s.id peers ≡ some s.address)))
unfolding bootstrap_cluster_with_peers
bootstrap_cluster_with_peers-servers calls range id address peers w visit nodup =
    (servers range id address peers, refl, λ s. servers-Has range id address peers s visit nodup)
