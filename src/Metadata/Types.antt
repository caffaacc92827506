-- ===== src/Metadata/Types.antt =====
-- internal/metadata/types.go: the replicated state and the commands.
use bunnymq.Prelude.{ℕ, ℤ, Bool, ◌&&◌, ◌≡◌, ◌↔◌, ◌⊎◌, true, Option, List, arith}
use bunnymq.Prelude.{eqb_ℤ, eqb_ℤ_iff, leb_ℤ, if◌then◌else◌}
use bunnymq.Prelude.Keys.{
  Eq, Ord, Bytes, bytes_eq, bytes_eq_iff, bytes_le, bytes_le_total, bytes_le_trans,
  bytes_le_antisymm,
}
use bunnymq.Prelude.Maps.{Map}

-- An `int32` or `int64` field is a ℤ, a `uint64` field a number.
pub record PartitionKey : Type 0 where
  pub topic : Bytes
  pub partition_id : ℤ

-- TopicPartition is a second struct with the same two fields and the same text form.
abbrev pub TopicPartition : Type 0
TopicPartition = PartitionKey

unfoldable pub key_eq : PartitionKey → PartitionKey → Bool
key_eq a b = bytes_eq a.topic b.topic && eqb_ℤ a.partition_id b.partition_id

-- The order by which `rebalance` sorts: by topic, then by partition id.
unfoldable pub key_le : PartitionKey → PartitionKey → Bool
key_le a b =
    if bytes_eq a.topic b.topic
    then leb_ℤ a.partition_id b.partition_id
    else bytes_le a.topic b.topic

key_eq→eq : (a b : PartitionKey) → key_eq a b ≡ true → a ≡ b
unfolding key_eq
key_eq→eq a b h =
    ground (arith, bytes_eq_iff a.topic b.topic, eqb_ℤ_iff a.partition_id b.partition_id)

key_eq_refl : (a : PartitionKey) → key_eq a a ≡ true
unfolding key_eq
key_eq_refl a =
    ground (arith, bytes_eq_iff a.topic a.topic, eqb_ℤ_iff a.partition_id a.partition_id)

pub key_eq_iff : (a b : PartitionKey) → (key_eq a b ≡ true) ↔ (a ≡ b)
key_eq_iff a b = (key_eq→eq a b, λ p. ground (arith, key_eq_refl a))

pub key_le_total : (a b : PartitionKey) → (key_le a b ≡ true) ⊎ (key_le b a ≡ true)
unfolding key_le
key_le_total a b = ground (
  arith,
  bytes_eq_iff a.topic b.topic,
  bytes_eq_iff b.topic a.topic,
  bytes_le_total a.topic b.topic,
)

pub key_le_trans :
    (a b c : PartitionKey) → key_le a b ≡ true → key_le b c ≡ true → key_le a c ≡ true
unfolding key_le
key_le_trans a b c h k = ground (
  arith,
  bytes_eq_iff a.topic b.topic,
  bytes_eq_iff b.topic c.topic,
  bytes_eq_iff a.topic c.topic,
  bytes_le_trans a.topic b.topic c.topic,
  bytes_le_antisymm a.topic b.topic,
)

pub key_le_antisymm : (a b : PartitionKey) → key_le a b ≡ true → key_le b a ≡ true → a ≡ b
unfolding key_le
key_le_antisymm a b h k = ground (
  arith,
  bytes_eq_iff a.topic b.topic,
  bytes_eq_iff b.topic a.topic,
  bytes_le_antisymm a.topic b.topic,
)

instance abbrev pub key-Eq : Eq PartitionKey
key-Eq = record { beq = key_eq; beq_iff = key_eq_iff }

instance abbrev pub key-Ord : Ord PartitionKey
key-Ord = record {
  leq = key_le;
  leq_total = key_le_total;
  leq_trans = key_le_trans;
  leq_antisymm = key_le_antisymm;
}

pub record TopicMeta : Type 0 where
  pub name : Bytes
  pub partition_count : ℤ
  pub replication_factor : ℤ
  pub retention_ms : ℤ
  pub retention_bytes : ℤ
  pub created_at_ms : ℤ

pub record PartitionMeta : Type 0 where
  pub topic : Bytes
  pub partition_id : ℤ
  pub shard_id : ℕ
  pub replica_node_ids : List ℕ
  pub leader_node_id : ℕ
  pub leader_epoch : ℤ

pub record NodeInfo : Type 0 where
  pub node_id : ℕ
  pub address : Bytes

pub record MemberInfo : Type 0 where
  pub member_id : Bytes
  pub client_host : Bytes
  pub subscribed_topics : List Bytes
  pub assigned_partitions : List PartitionKey
  pub last_heartbeat_ms : ℤ

pub record ConsumerGroupMeta : Type 0 where
  pub group_id : Bytes
  pub generation_id : ℤ
  pub members : Map Bytes MemberInfo
  pub committed_offsets : Map PartitionKey ℤ

-- `joined_at` is a time.Time, kept as its Unix milliseconds.
pub record MemberState : Type 0 where
  pub member_id : Bytes
  pub subscribed_topics : List Bytes
  pub session_timeout_ms : ℤ
  pub heartbeat_interval_ms : ℤ
  pub joined_at : ℤ

abbrev pub Assignment : Type 0
Assignment = Map Bytes (List TopicPartition)

pub record GroupState : Type 0 where
  pub group_id : Bytes
  pub members : Map Bytes MemberState
  pub generation_id : ℤ
  pub assignments : Assignment
  pub offsets : Map TopicPartition ℤ

-- A nil `GroupStates` reads as an empty map, and is replaced by one before it is written.
pub record MetadataState : Type 0 where
  pub topics : Map Bytes TopicMeta
  pub partitions : Map PartitionKey PartitionMeta
  pub nodes : Map ℕ NodeInfo
  pub groups : Map Bytes ConsumerGroupMeta
  pub group_states : Map Bytes GroupState
  pub next_shard_id : ℕ

pub record CreateTopicCmd : Type 0 where
  pub name : Bytes
  pub partition_count : ℤ
  pub replication_factor : ℤ
  pub retention_ms : ℤ
  pub retention_bytes : ℤ
  pub created_at_ms : ℤ
  pub replica_node_ids : List (List ℕ)

pub record DeleteTopicCmd : Type 0 where
  pub name : Bytes

pub record AlterTopicPartCountCmd : Type 0 where
  pub name : Bytes
  pub new_partition_count : ℤ
  pub new_replica_assignments : List (List ℕ)

pub record AlterTopicRetentionCmd : Type 0 where
  pub name : Bytes
  pub retention_ms : ℤ
  pub retention_bytes : ℤ

pub record RegisterNodeCmd : Type 0 where
  pub node_id : ℕ
  pub address : Bytes

pub record AssignPartitionLeaderCmd : Type 0 where
  pub topic : Bytes
  pub partition_id : ℤ
  pub leader_node_id : ℕ
  pub leader_epoch : ℤ

-- A nil `Member`, `NewAssignment` or `GroupOffsets` is `none`.
pub record JoinConsumerGroupCmd : Type 0 where
  pub group_id : Bytes
  pub member_id : Bytes
  pub client_host : Bytes
  pub subscribed_topics : List Bytes
  pub joined_at_ms : ℤ
  pub member : Option MemberState
  pub new_assignment : Option Assignment

pub record LeaveConsumerGroupCmd : Type 0 where
  pub group_id : Bytes
  pub member_id : Bytes
  pub reason : Bytes
  pub new_assignment : Option Assignment

pub record HeartbeatConsumerGroupCmd : Type 0 where
  pub group_id : Bytes
  pub member_id : Bytes
  pub generation_id : ℤ
  pub timestamp_ms : ℤ

pub record CommittedOffset : Type 0 where
  pub topic : Bytes
  pub partition_id : ℤ
  pub offset : ℤ

pub record CommitConsumerOffsetCmd : Type 0 where
  pub group_id : Bytes
  pub offsets : List CommittedOffset
  pub group_offsets : Option (Map TopicPartition ℤ)

pub record RebalanceConsumerGroupCmd : Type 0 where
  pub group_id : Bytes
  pub expired_member_ids : List Bytes
  pub timestamp_ms : ℤ

-- `other` stands for every string that is none of the eleven command types.
pub data CommandType : Type 0 where
  create_topic delete_topic alter_topic_part_count alter_topic_retention : CommandType
  register_node assign_partition_leader join_consumer_group leave_consumer_group : CommandType
  heartbeat_consumer_group commit_consumer_offset rebalance_consumer_group other : CommandType

-- A payload is a pointer, and the decoder leaves it nil when the field is absent.
pub record MetadataCommand : Type 0 where
  pub type : CommandType
  pub create_topic : Option CreateTopicCmd
  pub delete_topic : Option DeleteTopicCmd
  pub alter_topic_part_count : Option AlterTopicPartCountCmd
  pub alter_topic_retention : Option AlterTopicRetentionCmd
  pub register_node : Option RegisterNodeCmd
  pub assign_partition_leader : Option AssignPartitionLeaderCmd
  pub join_consumer_group : Option JoinConsumerGroupCmd
  pub leave_consumer_group : Option LeaveConsumerGroupCmd
  pub heartbeat_consumer_group : Option HeartbeatConsumerGroupCmd
  pub commit_consumer_offset : Option CommitConsumerOffsetCmd
  pub rebalance_consumer_group : Option RebalanceConsumerGroupCmd
