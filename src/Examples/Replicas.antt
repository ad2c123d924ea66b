-- ===== src/Examples/Replicas.antt =====
-- The theorems on the replicas of a key and on the read repair, at the two nodes of the ring.
use titan_distributed_kv.Common.{◌≡◌, refl, List, [], ◌∷◌, codes, bytes_key, length}
use titan_distributed_kv.Common.Int.{pos}
use titan_distributed_kv.Common.Errors.{ok}
use titan_distributed_kv.Sharding.Ring.{NodeInfo}
use titan_distributed_kv.Sharding.Ring.Replicas.{at_most, get_replicas}
use titan_distributed_kv.Sharding.Ring.Replicas.Complete.{
  IsReplicas, get_replicas-IsReplicas, get_replicas-get_node,
}
use titan_distributed_kv.Server
use titan_distributed_kv.Server.Repair.{read_repair, read_repair_idle}
use titan_distributed_kv.Examples.Engine.{a, b, one, loaded}
use titan_distributed_kv.Examples.Ring.{
  sum256, in_order, in_order-IsVisit, both, both-IsRing, both_a, node_a, get_node_c, service,
  remote,
}

-- Five replicas are wanted of two nodes.
get_replicas-IsReplicas_example :
    IsReplicas both.nodes
      (at_most (length both.nodes) 5)
      (get_replicas sum256 (λ k. in_order) (codes "c") (pos 5) both)
get_replicas-IsReplicas_example =
    get_replicas-IsReplicas sum256 (λ k. in_order) (λ k. in_order-IsVisit) (codes "c") both
      both-IsRing 5 a node_a both_a

get_replicas-get_node_example :
    (rest : List NodeInfo) × (get_replicas sum256 (λ k. in_order) (codes "c") (pos 2) both
      ≡ ok (node_a ∷ rest))
get_replicas-get_node_example =
    get_replicas-get_node sum256 (λ k. in_order) (λ k. in_order-IsVisit) (codes "c") both
      both-IsRing 1 node_a get_node_c

-- The server of the node "a" does not have the key "b".
read_repair_idle_example : read_repair remote service b one sum256 (λ k. in_order) ≡ []
read_repair_idle_example =
    read_repair_idle remote service b one sum256 (λ k. in_order) (λ c. (Server.get b loaded, refl))
