-- ===== src/Metadata/Topics.antt =====
-- internal/metadata/metadata.go: the commands on topics, partitions and nodes.
pub mod Ranges
use bunnymq.Prelude.{
  ℕ, zero, suc, ◌+◌, ◌%◌, ◌^◌, ◌||◌, not, none, some, List, [], length, get_or, if◌then◌else◌, ℤ,
  pos, pos_part, ◌+ℤ◌, ◌-ℤ◌, leb_ℤ, eqb_ℤ, wrap_i32, to_u64,
}
use bunnymq.Prelude.Keys.{Bytes, bytes_eq, bytes-Eq, nat-Eq}
use bunnymq.Prelude.Maps.{Map, lookup, insert, delete, modify}
use bunnymq.Metadata.Types.{
  PartitionKey, key_eq, key-Eq, TopicMeta, PartitionMeta, MetadataState, CreateTopicCmd,
  DeleteTopicCmd, AlterTopicPartCountCmd, AlterTopicRetentionCmd, RegisterNodeCmd,
  AssignPartitionLeaderCmd,
}
use bunnymq.Metadata.Result.{
  Result, ok_result, error_result, result_err_already_exists, result_err_not_found,
  result_err_invalid_arg,
}

-- A handler returns the new state beside the result.
abbrev pub Applied : Type 0
Applied = MetadataState × Result

abbrev pub partition_key : Bytes → ℤ → PartitionKey
partition_key t p = record { topic = t; partition_id = p }

-- `uint64` sums
abbrev pub add_u64 : ℕ → ℕ → ℕ
add_u64 a b = (a + b) % 2 ^ 64

-- A fresh partition has no leader and epoch 0.
abbrev pub new_partition : Bytes → ℤ → ℕ → List ℕ → PartitionMeta
new_partition t p shard replicas = record {
  topic = t;
  partition_id = p;
  shard_id = shard;
  replica_node_ids = replicas;
  leader_node_id = 0;
  leader_epoch = pos 0;
}

-- The loops of `applyCreateTopic` and `applyAlterTopicPartCount`, with the rounds left. The
-- first one starts at partition 0. A missing row of `replicas` is a nil slice.
unfoldable pub add_partitions :
    Bytes
    → ℤ
    → ℕ
    → List (List ℕ)
    → ℕ
    → ℕ
    → Map PartitionKey PartitionMeta
    → Map PartitionKey PartitionMeta
unfolding insert key_eq ◌+ℤ◌ wrap_i32
add_partitions t first next replicas i zero ps = ps
add_partitions t first next replicas i (suc rounds) ps =
    let id = wrap_i32 (first +ℤ pos i) in
    add_partitions t first next replicas (i + 1) rounds
      (insert (partition_key t id) (new_partition t id (add_u64 next i) (get_or replicas i [])) ps)

unfoldable pub create_topic_at : MetadataState → CreateTopicCmd → Applied
unfolding insert add_partitions bytes_eq
create_topic_at s cmd =
    let count = pos_part cmd.partition_count in
    (
      record s {
        topics =
            insert cmd.name
              (record {
                name = cmd.name;
                partition_count = cmd.partition_count;
                replication_factor = cmd.replication_factor;
                retention_ms = cmd.retention_ms;
                retention_bytes = cmd.retention_bytes;
                created_at_ms = cmd.created_at_ms;
              })
              s.topics;
        partitions =
            add_partitions cmd.name (pos 0) s.next_shard_id cmd.replica_node_ids 0 count
              s.partitions;
        next_shard_id = add_u64 s.next_shard_id count;
      },
      ok_result,
    )

unfoldable pub apply_create_topic : MetadataState → CreateTopicCmd → Applied
unfolding lookup bytes_eq create_topic_at wrap_i32
apply_create_topic s cmd = elim (lookup cmd.name s.topics) [
  | some _ ↦ (s, error_result result_err_already_exists "topic already exists")
  | none ↦
      if leb_ℤ cmd.partition_count (pos 0) || leb_ℤ cmd.replication_factor (pos 0)
      then (
        s,
        error_result result_err_invalid_arg
            "partition_count and replication_factor must be positive",
      )
      else if not (eqb_ℤ (wrap_i32 (pos (length cmd.replica_node_ids))) cmd.partition_count)
      then (
        s,
        error_result result_err_invalid_arg "replica_node_ids length must equal partition_count",
      )
      else create_topic_at s cmd
]

-- `for i := int32(0); i < topic.PartitionCount; i++ { delete(…) }`
unfoldable pub delete_partitions :
    Bytes → ℕ → ℕ → Map PartitionKey PartitionMeta → Map PartitionKey PartitionMeta
unfolding delete key_eq
delete_partitions t i zero ps = ps
delete_partitions t i (suc rounds) ps =
    delete_partitions t (i + 1) rounds (delete (partition_key t (pos i)) ps)

unfoldable pub apply_delete_topic : MetadataState → DeleteTopicCmd → Applied
unfolding lookup delete bytes_eq delete_partitions
apply_delete_topic s cmd = elim (lookup cmd.name s.topics) [
  | none ↦ (s, ok_result)
  | some topic ↦ (
    record s {
      partitions = delete_partitions cmd.name 0 (pos_part topic.partition_count) s.partitions;
      topics = delete cmd.name s.topics;
    },
    ok_result,
  )
]

-- The rest of `applyAlterTopicPartCount`, once its guards have passed.
unfoldable pub grow_topic : MetadataState → AlterTopicPartCountCmd → TopicMeta → Applied
unfolding modify bytes_eq add_partitions
grow_topic s cmd topic =
    let add_count = wrap_i32 (cmd.new_partition_count -ℤ topic.partition_count) in
    (
      record s {
        partitions =
            add_partitions cmd.name topic.partition_count s.next_shard_id
              cmd.new_replica_assignments 0 (pos_part add_count) s.partitions;
        next_shard_id = add_u64 s.next_shard_id (to_u64 add_count);
        topics =
            modify cmd.name (λ t. record t { partition_count = cmd.new_partition_count }) s.topics;
      },
      ok_result,
    )

unfoldable pub apply_alter_topic_part_count : MetadataState → AlterTopicPartCountCmd → Applied
unfolding lookup bytes_eq grow_topic wrap_i32 to_u64 ◌-ℤ◌
apply_alter_topic_part_count s cmd = elim (lookup cmd.name s.topics) [
  | none ↦ (s, error_result result_err_not_found "topic not found")
  | some topic ↦
      if leb_ℤ cmd.new_partition_count topic.partition_count
      then (
        s,
        error_result result_err_invalid_arg "new_partition_count must be greater than current",
      )
      else grow_topic s cmd topic
]

unfoldable pub apply_alter_topic_retention : MetadataState → AlterTopicRetentionCmd → Applied
unfolding lookup modify bytes_eq
apply_alter_topic_retention s cmd = elim (lookup cmd.name s.topics) [
  | none ↦ (s, error_result result_err_not_found "topic not found")
  | some topic ↦ (
    record s {
      topics =
          modify cmd.name
            (λ t. record t {
              retention_ms = cmd.retention_ms;
              retention_bytes = cmd.retention_bytes;
            })
            s.topics;
    },
    ok_result,
  )
]

unfoldable pub apply_register_node : MetadataState → RegisterNodeCmd → Applied
unfolding insert
apply_register_node s cmd = (
  record s {
    nodes = insert cmd.node_id (record { node_id = cmd.node_id; address = cmd.address }) s.nodes;
  },
  ok_result,
)

unfoldable pub apply_assign_partition_leader : MetadataState → AssignPartitionLeaderCmd → Applied
unfolding lookup modify key_eq
apply_assign_partition_leader s cmd =
    let key = partition_key cmd.topic cmd.partition_id in
    elim (lookup key s.partitions) [
      | none ↦ (s, error_result result_err_not_found "partition not found")
      | some partition ↦
          if leb_ℤ cmd.leader_epoch partition.leader_epoch
          then (s, error_result result_err_invalid_arg "leader_epoch must be greater than current")
          else (
            record s {
              partitions =
                  modify key
                    (λ p. record p {
                      leader_node_id = cmd.leader_node_id;
                      leader_epoch = cmd.leader_epoch;
                    })
                    s.partitions;
            },
            ok_result,
          )
    ]
