-- ===== src/Sharding/Ring.antt =====
-- The consistent-hashing ring of sharding/ring.go. Its mutex is left out: a method holds it throughout.
pub mod Points
pub mod Nearest
pub mod Owner
pub mod Part
pub mod Movement
pub mod Agreement
pub mod Replicas
use Prim.Native.Nat.{bit_or}
use titan_distributed_kv.Common.{
  ℕ, zero, suc, ◌+◌, ◌*◌, ◌%◌, ◌^◌, List, [], ◌∷◌, ◌++◌, map, Bytes, codes, bytes_key, Bool, true,
  false, ◌||◌, Option, none, some, ltb, leb, ◌==◌, length, get_or, get_elem?, if◌then◌else◌,
}
use titan_distributed_kv.Common.Int.{ℤ, pos, negsuc}
use titan_distributed_kv.Common.Errors.{Error, new, named, stuck, panic, Result, ok, err}
use titan_distributed_kv.Common.Maps.{Map}
use titan_distributed_kv.Common.Maps
use titan_distributed_kv.Storage.Names.{decimal}
use titan_distributed_kv.Sharding.Sorted.{sort_search, sort_slice}

-- NodeInfo. The ring shares its records with its callers by pointer; here each has its copy.
pub record NodeInfo : Type 0 where
  pub node_id : Bytes
  pub address : Bytes
  pub raft_addr : Bytes
  pub is_leader : Bool

-- The record that `AddNode` makes.
abbrev pub joining : Bytes → Bytes → Bytes → NodeInfo
joining node_id address raft_addr = record {
  node_id = node_id;
  address = address;
  raft_addr = raft_addr;
  is_leader = false;
}

abbrev pub Nodes : Type 0
Nodes = Map Bytes NodeInfo

-- HashRing
pub record HashRing : Type 0 where
  pub nodes : Nodes
  pub sorted_keys : List ℕ
  pub replicas : ℕ

unfoldable pub default_replicas : ℤ → ℕ
default_replicas (pos zero) = 150
default_replicas (pos (suc n)) = suc n
default_replicas (negsuc n) = 150

-- NewHashRing
unfoldable pub new_hash_ring : ℤ → HashRing
unfolding default_replicas
new_hash_ring replicas = record {
  nodes = [];
  sorted_keys = [];
  replicas = default_replicas replicas;
}

-- GetAllNodes
unfoldable pub get_all_nodes : (Nodes → Nodes) → HashRing → List NodeInfo
get_all_nodes range r = map (λ e. e.1) (range r.nodes)

-- UpdateNodeLeader
unfoldable pub update_node_leader : Bytes → Bool → HashRing → HashRing
update_node_leader node_id is_leader r = elim (Maps.lookup node_id r.nodes) [
  | none ↦ r
  | some info ↦ record r {
    nodes = Maps.insert node_id (record info { is_leader = is_leader }) r.nodes;
  }
]

-- GetNodeByID
unfoldable pub get_node_by_id : Bytes → HashRing → Result NodeInfo
get_node_by_id node_id r = elim (Maps.lookup node_id r.nodes) [
  | none ↦ err (named "node " node_id " not found")
  | some info ↦ ok info
]

abbrev pub no_nodes : Error
no_nodes = new "no nodes in ring"

-- `sum256` is SHA-256, from Go's crypto package.
module _ (sum256 : Bytes → Bytes) where
  -- The first four bytes of a hash as a uint32.
  unfoldable pub hash_key : Bytes → ℕ
  hash_key key =
      let h = sum256 key in
      bit_or
        (bit_or (bit_or (get_or h 0 0 * 2 ^ 24 % 2 ^ 32) (get_or h 1 0 * 2 ^ 16 % 2 ^ 32))
          (get_or h 2 0 * 2 ^ 8 % 2 ^ 32))
        (get_or h 3 0)

  -- hashNode: the key is `fmt.Sprintf("%s:%d", nodeID, replica)`
  unfoldable pub hash_node : Bytes → ℕ → ℕ
  unfolding hash_key
  hash_node node_id replica = hash_key (node_id ++ codes ":" ++ decimal replica [])

  -- The hashes of the virtual nodes of a node, `n` of them from the number `i` on.
  unfoldable pub node_keys : Bytes → ℕ → ℕ → List ℕ
  node_keys node_id i zero = []
  node_keys node_id i (suc n) = hash_node node_id i ∷ node_keys node_id (suc i) n

  unfoldable pub all_keys : ℕ → Nodes → List ℕ
  unfolding node_keys
  all_keys replicas [] = []
  all_keys replicas ((node_id, _) ∷ rest) = node_keys node_id 0 replicas ++ all_keys replicas rest

  -- rebuildSortedKeys. `range` is the order in which the loop visits the nodes.
  unfoldable pub rebuild_sorted_keys : (Nodes → Nodes) → HashRing → HashRing
  unfolding all_keys
  rebuild_sorted_keys range r = record r {
    sorted_keys = sort_slice (all_keys r.replicas (range r.nodes));
  }

  -- AddNode, behind the look at the node's entry.
  unfoldable pub add_if_absent :
      (Nodes → Nodes) → Bytes → Bytes → Bytes → HashRing → Option NodeInfo → HashRing
  unfolding rebuild_sorted_keys
  add_if_absent range node_id address raft_addr r (some _) = r
  add_if_absent range node_id address raft_addr r none =
      rebuild_sorted_keys range
        (record r { nodes = Maps.insert node_id (joining node_id address raft_addr) r.nodes })

  -- AddNode
  unfoldable pub add_node : (Nodes → Nodes) → Bytes → Bytes → Bytes → HashRing → HashRing
  unfolding add_if_absent
  add_node range node_id address raft_addr r =
      add_if_absent range node_id address raft_addr r (Maps.lookup node_id r.nodes)

  -- RemoveNode, behind the look at the node's entry.
  unfoldable pub remove_if_present : (Nodes → Nodes) → Bytes → HashRing → Option NodeInfo → HashRing
  unfolding rebuild_sorted_keys
  remove_if_present range node_id r none = r
  remove_if_present range node_id r (some _) =
      rebuild_sorted_keys range (record r { nodes = Maps.erase node_id r.nodes })

  -- RemoveNode
  unfoldable pub remove_node : (Nodes → Nodes) → Bytes → HashRing → HashRing
  unfolding remove_if_present
  remove_node range node_id r = remove_if_present range node_id r (Maps.lookup node_id r.nodes)

  -- The binary search of `GetNode` and `GetReplicas`.
  unfoldable pub search_key : Bytes → List ℕ → ℕ
  search_key key keys = sort_search (length keys) (λ i. leb (hash_key key) (get_or keys i 0))

  -- The index after the wrap-around.
  unfoldable pub first_index : Bytes → List ℕ → ℕ
  unfolding search_key
  first_index key keys = if leb (length keys) (search_key key keys) then 0 else search_key key keys

  -- Whether one of the `n` virtual nodes from the number `i` on has the hash.
  unfoldable pub has_key : Bytes → ℕ → ℕ → ℕ → Bool
  has_key node_id target i zero = false
  has_key node_id target i (suc n) =
      (hash_node node_id i == target) || has_key node_id target (suc i) n

  -- The loop for the node to which a hash belongs.
  unfoldable pub find_node : ℕ → ℕ → Nodes → Option NodeInfo
  unfolding has_key
  find_node replicas target [] = none
  find_node replicas target ((node_id, info) ∷ rest) =
      if has_key node_id target 0 replicas then some info else find_node replicas target rest

  -- The fallback of `GetNode`.
  first_node : Nodes → Result NodeInfo
  first_node [] = err (new "failed to find node for key")
  first_node ((_, info) ∷ rest) = ok info

  node_or_first : Option NodeInfo → Nodes → Result NodeInfo
  unfolding first_node
  node_or_first none nodes = first_node nodes
  node_or_first (some info) nodes = ok info

  -- An index past the end of the slice panics.
  node_at : (Nodes → Nodes) → HashRing → Option ℕ → Result NodeInfo
  unfolding find_node node_or_first
  node_at range r none = err panic
  node_at range r (some target) =
      node_or_first (find_node r.replicas target (range r.nodes)) (range r.nodes)

  -- GetNode. Both of its loops over the nodes take them in the order `range`.
  unfoldable pub get_node : (Nodes → Nodes) → Bytes → HashRing → Result NodeInfo
  unfolding node_at first_index
  get_node range key r = elim (length r.nodes) [
    | zero ↦ err no_nodes
    | suc _ ↦ node_at range r (get_elem? r.sorted_keys (first_index key r.sorted_keys))
  ]
