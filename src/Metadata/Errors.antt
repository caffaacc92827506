-- ===== src/Metadata/Errors.antt =====
-- A command that is answered with an error message has changed nothing.
use Prim.Native.String.{String}
use bunnymq.Prelude.{
  ◌≡◌, refl, subst, Option, none, some, if_rule, option_rule, not, leb_ℤ, eqb_ℤ, pos, ◌||◌, Bool,
  true, false, length, wrap_i32, if◌then◌else◌,
}
use bunnymq.Prelude.Keys.{bytes-Eq}
use bunnymq.Prelude.Maps.{lookup}
use bunnymq.Metadata.Types.{
  key-Eq, MetadataState, MetadataCommand, CommandType, create_topic, delete_topic,
  alter_topic_part_count, alter_topic_retention, register_node, assign_partition_leader,
  join_consumer_group, leave_consumer_group, heartbeat_consumer_group, commit_consumer_offset,
  rebalance_consumer_group, other, CreateTopicCmd, DeleteTopicCmd, AlterTopicPartCountCmd,
  AlterTopicRetentionCmd, AssignPartitionLeaderCmd, JoinConsumerGroupCmd, LeaveConsumerGroupCmd,
  HeartbeatConsumerGroupCmd, CommitConsumerOffsetCmd, RebalanceConsumerGroupCmd,
}
use bunnymq.Metadata.Result.{Result, message, ok_result}
use bunnymq.Metadata.Topics.{
  Applied, partition_key, apply_create_topic, apply_delete_topic, apply_alter_topic_part_count,
  apply_alter_topic_retention, apply_assign_partition_leader,
}
use bunnymq.Metadata.Groups.{
  apply_join_consumer_group, apply_leave_consumer_group, apply_heartbeat_consumer_group,
  apply_commit_consumer_offset, apply_rebalance_consumer_group, stale_generation,
}
use bunnymq.Metadata.Machine.{with_payload, apply_type, apply_command}

-- An answer with a message comes with the old state.
abbrev pub IsAtomic : MetadataState → Applied → Type 0
IsAtomic s a = (m : String) → a.1.payload ≡ message m → a.0 ≡ s

no_message :
    (b : Bool) (m : String) → (if b then ok_result else stale_generation).payload ≡ message m → ⊥
no_message true m e = cc
no_message false m e = cc

module _ (s : MetadataState) where
  create_IsAtomic : (cmd : CreateTopicCmd) → IsAtomic s (apply_create_topic s cmd)
  unfolding apply_create_topic
  create_IsAtomic cmd =
      option_rule (IsAtomic s) (lookup cmd.name s.topics)
        (λ _.
          if_rule (IsAtomic s)
            (leb_ℤ cmd.partition_count (pos 0) || leb_ℤ cmd.replication_factor (pos 0))
            (λ _ m e. refl)
            (λ _.
              if_rule (IsAtomic s)
                (not (eqb_ℤ (wrap_i32 (pos (length cmd.replica_node_ids))) cmd.partition_count))
                (λ _ m e. refl) (λ _ m e. cc)))
        (λ _ _ m e. refl)

  delete_IsAtomic : (cmd : DeleteTopicCmd) → IsAtomic s (apply_delete_topic s cmd)
  unfolding apply_delete_topic
  delete_IsAtomic cmd =
      option_rule (IsAtomic s) (lookup cmd.name s.topics) (λ _ m e. refl) (λ _ _ m e. cc)

  alter_IsAtomic : (cmd : AlterTopicPartCountCmd) → IsAtomic s (apply_alter_topic_part_count s cmd)
  unfolding apply_alter_topic_part_count
  alter_IsAtomic cmd =
      option_rule (IsAtomic s) (lookup cmd.name s.topics) (λ _ m e. refl)
        (λ t _.
          if_rule (IsAtomic s) (leb_ℤ cmd.new_partition_count t.partition_count) (λ _ m e. refl)
            (λ _ m e. cc))

  retention_IsAtomic :
      (cmd : AlterTopicRetentionCmd) → IsAtomic s (apply_alter_topic_retention s cmd)
  unfolding apply_alter_topic_retention
  retention_IsAtomic cmd =
      option_rule (IsAtomic s) (lookup cmd.name s.topics) (λ _ m e. refl) (λ _ _ m e. cc)

  leader_IsAtomic :
      (cmd : AssignPartitionLeaderCmd) → IsAtomic s (apply_assign_partition_leader s cmd)
  unfolding apply_assign_partition_leader
  leader_IsAtomic cmd =
      option_rule (IsAtomic s) (lookup (partition_key cmd.topic cmd.partition_id) s.partitions)
        (λ _ m e. refl)
        (λ p _.
          if_rule (IsAtomic s) (leb_ℤ cmd.leader_epoch p.leader_epoch) (λ _ m e. refl)
            (λ _ m e. cc))

  join_IsAtomic : (cmd : JoinConsumerGroupCmd) → IsAtomic s (apply_join_consumer_group s cmd)
  unfolding apply_join_consumer_group
  join_IsAtomic cmd = option_rule (IsAtomic s) cmd.member (λ _ m e. cc) (λ _ _ m e. cc)

  leave_IsAtomic : (cmd : LeaveConsumerGroupCmd) → IsAtomic s (apply_leave_consumer_group s cmd)
  unfolding apply_leave_consumer_group
  leave_IsAtomic cmd =
      option_rule (IsAtomic s) (lookup cmd.group_id s.group_states)
        (λ _.
          option_rule (IsAtomic s) (lookup cmd.group_id s.groups) (λ _ m e. refl)
            (λ g _.
              option_rule (IsAtomic s) (lookup cmd.member_id g.members) (λ _ m e. refl)
                (λ _ _ m e. cc)))
        (λ _ _.
          option_rule (IsAtomic s) (lookup cmd.group_id s.group_states) (λ _ m e. refl)
            (λ g _.
              option_rule (IsAtomic s) (lookup cmd.member_id g.members) (λ _ m e. refl)
                (λ _ _ m e. cc)))

  heartbeat_IsAtomic :
      (cmd : HeartbeatConsumerGroupCmd) → IsAtomic s (apply_heartbeat_consumer_group s cmd)
  unfolding apply_heartbeat_consumer_group
  heartbeat_IsAtomic cmd =
      option_rule (IsAtomic s) (lookup cmd.group_id s.groups) (λ _ m e. refl)
        (λ g _.
          option_rule (IsAtomic s) (lookup cmd.member_id g.members) (λ _ m e. refl)
            (λ _ _ m e. absurd (no_message _ m e)))

  commit_IsAtomic :
      (cmd : CommitConsumerOffsetCmd) → IsAtomic s (apply_commit_consumer_offset s cmd)
  unfolding apply_commit_consumer_offset
  commit_IsAtomic cmd =
      option_rule (IsAtomic s) cmd.group_offsets
        (λ _.
          option_rule (IsAtomic s) (lookup cmd.group_id s.groups) (λ _ m e. refl) (λ _ _ m e. cc))
        (λ _ _.
          option_rule (IsAtomic s) (lookup cmd.group_id s.group_states) (λ _ m e. refl)
            (λ _ _ m e. cc))

  rebalance_IsAtomic :
      (cmd : RebalanceConsumerGroupCmd) → IsAtomic s (apply_rebalance_consumer_group s cmd)
  unfolding apply_rebalance_consumer_group
  rebalance_IsAtomic cmd =
      option_rule (IsAtomic s) (lookup cmd.group_id s.groups) (λ _ m e. refl) (λ _ _ m e. cc)

  payload_IsAtomic :
      {A : Type 0} (o : Option A) (f : A → Applied)
      → ((a : A) → IsAtomic s (f a))
      → {r : Applied} → with_payload o f ≡ some r
      → IsAtomic s r
  payload_IsAtomic none f h e = cc
  payload_IsAtomic (some a) f h e = subst (IsAtomic s) (some_path e) (h a)
    where
      some_path : {x y : Applied} → some x ≡ some y → x ≡ y
      some_path p = cc

  type_IsAtomic :
      (t : CommandType) (c : MetadataCommand) {r : Applied}
      → apply_type t s c ≡ some r
      → IsAtomic s r
  unfolding apply_type
  type_IsAtomic create_topic c e = payload_IsAtomic c.create_topic _ create_IsAtomic e
  type_IsAtomic delete_topic c e = payload_IsAtomic c.delete_topic _ delete_IsAtomic e
  type_IsAtomic alter_topic_part_count c e =
      payload_IsAtomic c.alter_topic_part_count _ alter_IsAtomic e
  type_IsAtomic alter_topic_retention c e =
      payload_IsAtomic c.alter_topic_retention _ retention_IsAtomic e
  type_IsAtomic register_node c e = payload_IsAtomic c.register_node _ (λ x m q. cc) e
  type_IsAtomic assign_partition_leader c e =
      payload_IsAtomic c.assign_partition_leader _ leader_IsAtomic e
  type_IsAtomic join_consumer_group c e = payload_IsAtomic c.join_consumer_group _ join_IsAtomic e
  type_IsAtomic leave_consumer_group c e =
      payload_IsAtomic c.leave_consumer_group _ leave_IsAtomic e
  type_IsAtomic heartbeat_consumer_group c e =
      payload_IsAtomic c.heartbeat_consumer_group _ heartbeat_IsAtomic e
  type_IsAtomic commit_consumer_offset c e =
      payload_IsAtomic c.commit_consumer_offset _ commit_IsAtomic e
  type_IsAtomic rebalance_consumer_group c e =
      payload_IsAtomic c.rebalance_consumer_group _ rebalance_IsAtomic e
  type_IsAtomic other c e = subst (IsAtomic s) (other_path e) (λ m q. refl)
    where
      other_path : {x y : Applied} → some x ≡ some y → x ≡ y
      other_path p = cc

-- A command of any type that is answered with an error message leaves the state as it was.
pub apply_command-IsAtomic :
    (s : MetadataState) (c : MetadataCommand) (s' : MetadataState) (r : Result) (m : String)
    → apply_command s c ≡ some (s', r)
    → r.payload ≡ message m
    → s' ≡ s
unfolding apply_command
apply_command-IsAtomic s c s' r m e q = type_IsAtomic s c.type c e m q
