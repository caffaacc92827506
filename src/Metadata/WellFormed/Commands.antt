-- ===== src/Metadata/WellFormed/Commands.antt =====
-- Every command keeps the invariant.
use bunnymq.Prelude.{
  ℕ, ◌+◌, ◌-◌, ◌^◌, ◌≤◌, ◌<◌, ◌≡◌, ◌||◌, refl, sym, ap, ◌∙◌, none, some, arith, pos, pos_part,
  IsI32, ◌-ℤ◌, wrap_i32, wrap_i32_difference, to_u64_pos, leb_ℤ, if_rule, option_rule,
}
use bunnymq.Prelude.Keys.{bytes-Eq}
use bunnymq.Prelude.Maps.{
  lookup, lookup-insert_self, lookup-insert_ne, lookup-modify_self, lookup-modify_ne,
}
use bunnymq.Metadata.Types.{
  key-Eq, TopicMeta, MetadataState, CreateTopicCmd, DeleteTopicCmd, AlterTopicPartCountCmd,
  AlterTopicRetentionCmd, AssignPartitionLeaderCmd, RegisterNodeCmd, JoinConsumerGroupCmd,
  LeaveConsumerGroupCmd, HeartbeatConsumerGroupCmd, CommitConsumerOffsetCmd,
  RebalanceConsumerGroupCmd,
}
use bunnymq.Metadata.Topics.{
  Applied, partition_key, add_u64, apply_create_topic, apply_delete_topic,
  apply_alter_topic_part_count, apply_alter_topic_retention, apply_assign_partition_leader,
  create_topic_at, grow_topic, apply_register_node,
}
use bunnymq.Metadata.WellFormed.{WellFormed}
use bunnymq.Metadata.Groups.{
  apply_join_consumer_group, apply_leave_consumer_group, apply_heartbeat_consumer_group,
  apply_commit_consumer_offset, apply_rebalance_consumer_group,
}
use bunnymq.Metadata.WellFormed.Extend.{extended-WellFormed}
use bunnymq.Metadata.WellFormed.Delete.{deleted-Consistent}
use bunnymq.Metadata.WellFormed.Relabel.{Consistent-modify_topic, Consistent-modify_partition}

-- No `uint64` shard id wraps while a topic's partitions are numbered.
abbrev pub HasRoom : MetadataState → Type 0
HasRoom s = s.next_shard_id + 2 ^ 31 < 2 ^ 64

-- A handler leaves a well formed state, and hands out fewer than 2 ^ 31 shard ids.
abbrev pub Keeps : MetadataState → Applied → Type 0
Keeps s a = WellFormed a.0 × (a.0.next_shard_id ≤ s.next_shard_id + 2 ^ 31)

add_u64-le : (a b : ℕ) → add_u64 a b ≤ a + b
add_u64-le a b = omega arith

some_path : {A : Type 0} {a b : A} → some a ≡ some b → a ≡ b
some_path p = cc

module _ (s : MetadataState) (wf : WellFormed s) (room : HasRoom s) where
  same : WellFormed s × (s.next_shard_id ≤ s.next_shard_id + 2 ^ 31)
  same = (wf, omega arith)

  create_topic_at-Keeps :
      (cmd : CreateTopicCmd) (n : ℕ)
      → cmd.partition_count ≡ pos n
      → 0 < n
      → n < 2 ^ 31
      → lookup cmd.name s.topics ≡ none
      → Keeps s (create_topic_at s cmd)
  unfolding create_topic_at
  create_topic_at-Keeps cmd n c lo hi absent = (
    extended-WellFormed s wf cmd.name 0 (pos_part cmd.partition_count) cmd.replica_node_ids _ _
        (ground arith) (ground arith) (ground arith) refl (ground arith)
        (lookup-insert_self cmd.name _ s.topics)
        (λ u h. lookup-insert_ne cmd.name u _ s.topics (λ e. h (sym e))) (λ m h. cc) (λ h. refl),
    ground (arith, add_u64-le s.next_shard_id (pos_part cmd.partition_count)),
  )

  pub apply_create_topic-Keeps :
      (cmd : CreateTopicCmd) → IsI32 cmd.partition_count → Keeps s (apply_create_topic s cmd)
  unfolding apply_create_topic
  apply_create_topic-Keeps cmd range =
      option_rule (Keeps s) (lookup cmd.name s.topics)
        (λ absent.
          if_rule (Keeps s)
            (leb_ℤ cmd.partition_count (pos 0) || leb_ℤ cmd.replication_factor (pos 0)) (λ _. same)
            (λ positive.
              if_rule (Keeps s) _ (λ _. same)
                (λ _.
                  create_topic_at-Keeps cmd (pos_part cmd.partition_count) (ground arith)
                    (ground arith) (ground arith) absent)))
        (λ m there. same)

  grow_topic-Keeps :
      (cmd : AlterTopicPartCountCmd) (m : TopicMeta) (f n : ℕ)
      → lookup cmd.name s.topics ≡ some m
      → m.partition_count ≡ pos f
      → cmd.new_partition_count ≡ pos n
      → f < n
      → n < 2 ^ 31
      → Keeps s (grow_topic s cmd m)
  unfolding grow_topic
  grow_topic-Keeps cmd m f n there c d lt hi =
      let added : wrap_i32 (cmd.new_partition_count -ℤ m.partition_count) ≡ pos (n - f) =
        rw (c, d) (wrap_i32_difference n f (omega arith) hi) in
      rw (added, c, to_u64_pos (n - f) (omega arith))
        (
          extended-WellFormed s wf cmd.name f (n - f) cmd.new_replica_assignments _ _ (omega arith)
              (omega arith) (omega arith) (wf.named cmd.name m there) (d ∙ ap pos (omega arith))
              (lookup-modify_self cmd.name _ s.topics there)
              (λ u h. lookup-modify_ne cmd.name u _ s.topics (λ e. h (sym e)))
              (λ m' h. ap (λ (x : TopicMeta). x.partition_count) (some_path (sym h ∙ there)) ∙ c)
              (λ h. cc),
          omega (arith, add_u64-le s.next_shard_id (n - f)),
        )

  pub apply_alter_topic_part_count-Keeps :
      (cmd : AlterTopicPartCountCmd)
      → IsI32 cmd.new_partition_count
      → Keeps s (apply_alter_topic_part_count s cmd)
  unfolding apply_alter_topic_part_count
  apply_alter_topic_part_count-Keeps cmd range =
      option_rule (Keeps s) (lookup cmd.name s.topics) (λ _. same)
        (λ m there.
          let (f, c, lo, hi) = wf.counts cmd.name m there in
          if_rule (Keeps s) (leb_ℤ cmd.new_partition_count m.partition_count) (λ _. same)
            (λ larger.
              grow_topic-Keeps cmd m f (pos_part cmd.new_partition_count) there c (ground arith)
                (ground arith) (ground arith)))

  pub apply_delete_topic-Keeps : (cmd : DeleteTopicCmd) → Keeps s (apply_delete_topic s cmd)
  unfolding apply_delete_topic
  apply_delete_topic-Keeps cmd =
      option_rule (Keeps s) (lookup cmd.name s.topics) (λ _. same)
        (λ m there.
          let (n, c, lo, hi) = wf.counts cmd.name m there in
          rw c (deleted-Consistent s wf cmd.name m n there c, omega arith))

  pub apply_alter_topic_retention-Keeps :
      (cmd : AlterTopicRetentionCmd) → Keeps s (apply_alter_topic_retention s cmd)
  unfolding apply_alter_topic_retention
  apply_alter_topic_retention-Keeps cmd =
      option_rule (Keeps s) (lookup cmd.name s.topics) (λ _. same)
        (λ m there. (Consistent-modify_topic wf cmd.name _ (λ x. refl) (λ x. refl), omega arith))

  pub apply_assign_partition_leader-Keeps :
      (cmd : AssignPartitionLeaderCmd) → Keeps s (apply_assign_partition_leader s cmd)
  unfolding apply_assign_partition_leader
  apply_assign_partition_leader-Keeps cmd =
      option_rule (Keeps s) (lookup (partition_key cmd.topic cmd.partition_id) s.partitions)
        (λ _. same)
        (λ p there.
          if_rule (Keeps s) (leb_ℤ cmd.leader_epoch p.leader_epoch) (λ _. same)
            (λ _. (
              Consistent-modify_partition wf (partition_key cmd.topic cmd.partition_id) _
                  (λ x. refl) (λ x. refl) (λ x. refl),
              omega arith,
            )))

  -- The commands on groups and nodes touch neither topics nor partitions.
  pub apply_join_consumer_group-Keeps :
      (cmd : JoinConsumerGroupCmd) → Keeps s (apply_join_consumer_group s cmd)
  unfolding apply_join_consumer_group
  apply_join_consumer_group-Keeps cmd =
      option_rule (Keeps s) cmd.member (λ _. (wf, omega arith)) (λ m _. (wf, omega arith))

  pub apply_leave_consumer_group-Keeps :
      (cmd : LeaveConsumerGroupCmd) → Keeps s (apply_leave_consumer_group s cmd)
  unfolding apply_leave_consumer_group
  apply_leave_consumer_group-Keeps cmd =
      option_rule (Keeps s) (lookup cmd.group_id s.group_states)
        (λ _.
          option_rule (Keeps s) (lookup cmd.group_id s.groups) (λ _. same)
            (λ g _.
              option_rule (Keeps s) (lookup cmd.member_id g.members) (λ _. same)
                (λ m _. (wf, omega arith))))
        (λ _ _.
          option_rule (Keeps s) (lookup cmd.group_id s.group_states) (λ _. same)
            (λ g _.
              option_rule (Keeps s) (lookup cmd.member_id g.members) (λ _. same)
                (λ m _. (wf, omega arith))))

  pub apply_heartbeat_consumer_group-Keeps :
      (cmd : HeartbeatConsumerGroupCmd) → Keeps s (apply_heartbeat_consumer_group s cmd)
  unfolding apply_heartbeat_consumer_group
  apply_heartbeat_consumer_group-Keeps cmd =
      option_rule (Keeps s) (lookup cmd.group_id s.groups) (λ _. same)
        (λ g _.
          option_rule (Keeps s) (lookup cmd.member_id g.members) (λ _. same)
            (λ m _. (wf, omega arith)))

  pub apply_commit_consumer_offset-Keeps :
      (cmd : CommitConsumerOffsetCmd) → Keeps s (apply_commit_consumer_offset s cmd)
  unfolding apply_commit_consumer_offset
  apply_commit_consumer_offset-Keeps cmd =
      option_rule (Keeps s) cmd.group_offsets
        (λ _.
          option_rule (Keeps s) (lookup cmd.group_id s.groups) (λ _. same)
            (λ g _. (wf, omega arith)))
        (λ offsets _.
          option_rule (Keeps s) (lookup cmd.group_id s.group_states) (λ _. same)
            (λ g _. (wf, omega arith)))

  pub apply_rebalance_consumer_group-Keeps :
      (cmd : RebalanceConsumerGroupCmd) → Keeps s (apply_rebalance_consumer_group s cmd)
  unfolding apply_rebalance_consumer_group
  apply_rebalance_consumer_group-Keeps cmd =
      option_rule (Keeps s) (lookup cmd.group_id s.groups) (λ _. same) (λ g _. (wf, omega arith))

  pub apply_register_node-Keeps : (cmd : RegisterNodeCmd) → Keeps s (apply_register_node s cmd)
  unfolding apply_register_node
  apply_register_node-Keeps cmd = (wf, omega arith)
