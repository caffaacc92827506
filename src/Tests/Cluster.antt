-- ===== src/Tests/Cluster.antt =====
-- Runs of the placement of replicas, and its theorems at a concrete input.
use bunnymq.Prelude.{ℕ, ◌≡◌, refl, arith, pos, some, none, [], ◌∷◌, List, length, All}
use bunnymq.Prelude.Keys.{bytes}
use bunnymq.Prelude.Maps.{lookup}
use bunnymq.Prelude.Distinct.{Distinct}
use bunnymq.Metadata.Types.{NodeInfo, CreateTopicCmd}
use bunnymq.Metadata.Machine.{new_state}
use bunnymq.Metadata.Topics.{create_topic_at, apply_create_topic}
use bunnymq.Cluster.{
  fnv32a, place_partitions, create_command, built, TopicConfigOverrides, is_topic_name,
}
use bunnymq.Cluster.Replicas.{ids, IsPlacement, place_partitions-IsPlacement}
use bunnymq.Cluster.Create.{create_command-accepted}

abbrev node : ℕ → NodeInfo
node n = record { node_id = n; address = [] }

abbrev three_nodes : List NodeInfo
three_nodes = node 3 ∷ node 1 ∷ node 2 ∷ []

abbrev no_overrides : TopicConfigOverrides
no_overrides = record { retention_ms = none; retention_bytes = none }

fnv32a_foobar : fnv32a (bytes "foobar") ≡ 3214735720
unfolding fnv32a
fnv32a_foobar = refl

-- The hash of "a", 3826002220, begins at the second node.
two_partitions :
    place_partitions three_nodes (bytes "a") 2 0 2 ≡ some ((2 ∷ 3 ∷ []) ∷ (3 ∷ 1 ∷ []) ∷ [])
unfolding place_partitions
two_partitions = refl

three_nodes-Distinct : Distinct (ids three_nodes)
three_nodes-Distinct = (
  ((λ p. omega (arith, p)), ((λ p. omega (arith, p)), tt)),
  (((λ p. omega (arith, p)), tt), (tt, tt)),
)

place_partitions-IsPlacement_example :
    (placed : List (List ℕ)) × (place_partitions three_nodes (bytes "a") 2 0 2 ≡ some placed)
    × (length placed ≡ 2)
    × All (IsPlacement three_nodes 2) placed
place_partitions-IsPlacement_example =
    place_partitions-IsPlacement three_nodes (bytes "a") three_nodes-Distinct 2 0 2 (omega arith)
      (omega arith)

create_command-accepted_example :
    (cmd : CreateTopicCmd) × (create_command three_nodes
        (pos 9)
        (bytes "a")
        (pos 2)
        (pos 2)
        no_overrides
      ≡ built cmd)
    × (length cmd.replica_node_ids ≡ 2)
    × All (IsPlacement three_nodes 2) cmd.replica_node_ids
    × (apply_create_topic new_state cmd ≡ create_topic_at new_state cmd)
unfolding is_topic_name lookup
create_command-accepted_example =
    create_command-accepted new_state three_nodes (pos 9) (bytes "a") 2 2 no_overrides
      three_nodes-Distinct refl (omega arith) (omega arith) (omega arith) (omega arith) refl
