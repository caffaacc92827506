-- ===== src/Cluster/Create.antt =====
-- What `CreateTopic` proposes, and what the metadata state machine makes of it.
use bunnymq.Prelude.{
  ℕ, ℤ, pos, negsuc, wrap_i32_pos, ◌^◌, ◌≤◌, ◌<◌, ◌≡◌, refl, none, List, length, All, arith, true,
}
use bunnymq.Prelude.Keys.{Bytes, bytes-Eq}
use bunnymq.Prelude.Maps.{lookup}
use bunnymq.Prelude.Distinct.{Distinct}
use bunnymq.Metadata.Types.{NodeInfo, MetadataState, CreateTopicCmd}
use bunnymq.Metadata.Groups.{or_else}
use bunnymq.Metadata.Topics.{create_topic_at, apply_create_topic}
use bunnymq.Cluster.{TopicConfigOverrides, is_topic_name, create_command, built}
use bunnymq.Cluster.Replicas.{ids, IsPlacement, place_partitions-IsPlacement}

module _ (s : MetadataState) (nodes : List NodeInfo) (now : ℤ) (name : Bytes) where
  accepted :
      (cmd : CreateTopicCmd) (n rf : ℕ)
      → cmd.partition_count ≡ pos n
      → cmd.replication_factor ≡ pos rf
      → 1 ≤ n
      → n < 2 ^ 31
      → 1 ≤ rf
      → length cmd.replica_node_ids ≡ n
      → lookup cmd.name s.topics ≡ none
      → apply_create_topic s cmd ≡ create_topic_at s cmd
  unfolding apply_create_topic
  accepted cmd n rf count factor some_partition small positive size free =
      rw (apply_create_topic, free, count, factor, size, wrap_i32_pos n small) (ground arith)

  -- A request for a topic with a valid name that no topic has, a count of partitions from 1 to that
  -- of an int32, and a factor from 1 to the number of nodes, which have different ids, yields a
  -- command with a placement for each partition, on different nodes, which the state machine does
  -- not refuse.
  pub create_command-accepted :
      (n rf : ℕ) (overrides : TopicConfigOverrides)
      → Distinct (ids nodes)
      → is_topic_name name ≡ true
      → 1 ≤ n
      → n < 2 ^ 31
      → 1 ≤ rf
      → rf ≤ length nodes
      → lookup name s.topics ≡ none
      → (cmd : CreateTopicCmd) × (create_command nodes now name (pos n) (pos rf) overrides
          ≡ built cmd)
        × (length cmd.replica_node_ids ≡ n)
        × All (IsPlacement nodes rf) cmd.replica_node_ids
        × (apply_create_topic s cmd ≡ create_topic_at s cmd)
  unfolding create_command
  create_command-accepted n rf overrides distinct valid some_partition small positive enough free =
      let (placed, done, size, placements) =
        place_partitions-IsPlacement nodes name distinct rf 0 n positive enough in
      (
        command placed,
        rw (create_command, valid, done) (ground arith),
        size,
        placements,
        accepted (command placed) n rf refl refl some_partition small positive size free,
      )
    where
      command : List (List ℕ) → CreateTopicCmd
      command placed = record {
        name = name;
        partition_count = pos n;
        replication_factor = pos rf;
        retention_ms = or_else overrides.retention_ms (pos 0);
        retention_bytes = or_else overrides.retention_bytes (negsuc 0);
        created_at_ms = now;
        replica_node_ids = placed;
      }
