-- ===== src/Metadata/Machine.antt =====
-- internal/metadata/metadata.go: `Update` and `applyCommand`, one log entry of the shard.
use bunnymq.Prelude.{Option, none, some, List, [], ◌∷◌}
use bunnymq.Prelude.Keys.{Bytes}
use bunnymq.Metadata.Types.{
  MetadataState, MetadataCommand, CommandType, create_topic, delete_topic, alter_topic_part_count,
  alter_topic_retention, register_node, assign_partition_leader, join_consumer_group,
  leave_consumer_group, heartbeat_consumer_group, commit_consumer_offset, rebalance_consumer_group,
  other,
}
use bunnymq.Metadata.Result.{error_result, result_err_invalid_arg}
use bunnymq.Metadata.Topics.{
  Applied, apply_create_topic, apply_delete_topic, apply_alter_topic_part_count,
  apply_alter_topic_retention, apply_register_node, apply_assign_partition_leader,
}
use bunnymq.Metadata.Groups.{
  apply_join_consumer_group, apply_leave_consumer_group, apply_heartbeat_consumer_group,
  apply_commit_consumer_offset, apply_rebalance_consumer_group,
}

-- NewMetadataFSM
abbrev pub new_state : MetadataState
new_state = record {
  topics = [];
  partitions = [];
  nodes = [];
  groups = [];
  group_states = [];
  next_shard_id = 1;
}

-- A handler reads its payload through the pointer: `none` is the panic at a nil one.
abbrev pub with_payload : {A : Type 0} → Option A → (A → Applied) → Option Applied
with_payload none f = none
with_payload (some cmd) f = some (f cmd)

unfoldable pub apply_type : CommandType → MetadataState → MetadataCommand → Option Applied
unfolding apply_create_topic apply_delete_topic apply_alter_topic_part_count
    apply_alter_topic_retention apply_register_node apply_assign_partition_leader
    apply_join_consumer_group apply_leave_consumer_group apply_heartbeat_consumer_group
    apply_commit_consumer_offset apply_rebalance_consumer_group
apply_type create_topic s c = with_payload c.create_topic (apply_create_topic s)
apply_type delete_topic s c = with_payload c.delete_topic (apply_delete_topic s)
apply_type alter_topic_part_count s c =
    with_payload c.alter_topic_part_count (apply_alter_topic_part_count s)
apply_type alter_topic_retention s c =
    with_payload c.alter_topic_retention (apply_alter_topic_retention s)
apply_type register_node s c = with_payload c.register_node (apply_register_node s)
apply_type assign_partition_leader s c =
    with_payload c.assign_partition_leader (apply_assign_partition_leader s)
apply_type join_consumer_group s c =
    with_payload c.join_consumer_group (apply_join_consumer_group s)
apply_type leave_consumer_group s c =
    with_payload c.leave_consumer_group (apply_leave_consumer_group s)
apply_type heartbeat_consumer_group s c =
    with_payload c.heartbeat_consumer_group (apply_heartbeat_consumer_group s)
apply_type commit_consumer_offset s c =
    with_payload c.commit_consumer_offset (apply_commit_consumer_offset s)
apply_type rebalance_consumer_group s c =
    with_payload c.rebalance_consumer_group (apply_rebalance_consumer_group s)
apply_type other s c = some (s, error_result result_err_invalid_arg "unknown command type")

unfoldable pub apply_command : MetadataState → MetadataCommand → Option Applied
unfolding apply_type
apply_command s c = apply_type c.type s c

-- The decoder of commands, `json.Unmarshal`, is a parameter: `none` is its error.
module _ (unmarshal : Bytes → Option MetadataCommand) where
  unfoldable pub update : MetadataState → Bytes → Option Applied
  unfolding apply_command
  update s entry = elim (unmarshal entry) [
    | none ↦ some (s, error_result result_err_invalid_arg "invalid command JSON")
    | some c ↦ apply_command s c
  ]

  -- The entries of the log, in order; `none` if one of them panics.
  unfoldable pub replay : MetadataState → List Bytes → Option MetadataState
  unfolding update
  replay s [] = some s
  replay s (e ∷ es) = elim (update s e) [ none ↦ none | some (s', r) ↦ replay s' es ]
