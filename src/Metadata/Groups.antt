-- ===== src/Metadata/Groups.antt =====
-- internal/metadata/metadata.go: the commands on consumer groups. Groups that a coordinator with
-- a member record or computed assignments made live in `group_states`, the older in `groups`.
use bunnymq.Prelude.{
  Option, none, some, List, [], ◌∷◌, ◌++◌, if◌then◌else◌, ℤ, pos, ◌+ℤ◌, eqb_ℤ, wrap_i32,
}
use bunnymq.Prelude.Keys.{Bytes, bytes, bytes_eq, bytes-Eq}
use bunnymq.Prelude.Maps.{Map, lookup, insert, delete, modify}
use bunnymq.Prelude.Decimal.{format_i64}
use bunnymq.Metadata.Types.{
  PartitionKey, TopicPartition, key_eq, key-Eq, MemberInfo, ConsumerGroupMeta, MemberState,
  GroupState, MetadataState, JoinConsumerGroupCmd, LeaveConsumerGroupCmd, HeartbeatConsumerGroupCmd,
  CommittedOffset, CommitConsumerOffsetCmd, RebalanceConsumerGroupCmd,
}
use bunnymq.Metadata.Result.{
  Result, empty, joined, ok_result, error_result, result_ok, result_err_not_found,
}
use bunnymq.Metadata.Rebalance.{rebalance}
use bunnymq.Metadata.Topics.{Applied}

-- `group.GenerationID++` on an `int32`
unfoldable pub next_generation : ℤ → ℤ
unfolding wrap_i32 ◌+ℤ◌
next_generation g = wrap_i32 (g +ℤ pos 1)

abbrev pub group_not_found : Result
group_not_found = error_result result_err_not_found "group not found"

abbrev pub member_not_found : Result
member_not_found = error_result result_err_not_found "member not found"

-- The result of a pointer lookup, or a fresh value.
abbrev pub or_else {ℓ} : {A : Type ℓ} → Option A → A → A
or_else none d = d
or_else (some a) d = a

abbrev pub new_group_state : Bytes → GroupState
new_group_state id = record {
  group_id = id;
  members = [];
  generation_id = pos 0;
  assignments = [];
  offsets = [];
}

abbrev pub new_group : Bytes → ConsumerGroupMeta
new_group id = record { group_id = id; generation_id = pos 0; members = []; committed_offsets = [] }

abbrev pub put_group_state : MetadataState → Bytes → GroupState → MetadataState
put_group_state s id g = record s { group_states = insert id g s.group_states }

abbrev pub put_group : MetadataState → Bytes → ConsumerGroupMeta → MetadataState
put_group s id g = record s { groups = insert id g s.groups }

unfoldable pub apply_group_state_join : MetadataState → JoinConsumerGroupCmd → MemberState → Applied
unfolding lookup insert bytes_eq next_generation
apply_group_state_join s cmd member =
    let group = or_else (lookup cmd.group_id s.group_states) (new_group_state cmd.group_id) in
    (
      put_group_state s cmd.group_id (record group {
        members = insert cmd.member_id member group.members;
        assignments = or_else cmd.new_assignment group.assignments;
        generation_id = next_generation group.generation_id;
      }),
      ok_result,
    )

-- fmt.Sprintf("member-%s-%d", cmd.ClientHost, cmd.JoinedAtMs)
unfoldable pub member_id_of : JoinConsumerGroupCmd → Bytes
unfolding format_i64 bytes_eq
member_id_of cmd =
    if bytes_eq cmd.member_id []
    then bytes "member-" ++ (cmd.client_host ++ (bytes "-" ++ format_i64 cmd.joined_at_ms))
    else cmd.member_id

abbrev pub assigned_of : Option MemberInfo → List PartitionKey
assigned_of none = []
assigned_of (some m) = m.assigned_partitions

unfoldable pub apply_group_join : MetadataState → JoinConsumerGroupCmd → Applied
unfolding lookup insert bytes_eq next_generation member_id_of rebalance
apply_group_join s cmd =
    let group = or_else (lookup cmd.group_id s.groups) (new_group cmd.group_id) in
    let id = member_id_of cmd in
    let info : MemberInfo = record {
      member_id = id;
      client_host = cmd.client_host;
      subscribed_topics = cmd.subscribed_topics;
      assigned_partitions = [];
      last_heartbeat_ms = cmd.joined_at_ms;
    } in
    let joining : ConsumerGroupMeta = record group { members = insert id info group.members } in
    let balanced = rebalance joining s.topics s.partitions in
    let generation = next_generation balanced.generation_id in
    (
      put_group s cmd.group_id (record balanced { generation_id = generation }),
      record {
        value = result_ok;
        payload = joined (record {
          member_id = id;
          assigned_partitions = assigned_of (lookup id balanced.members);
          generation_id = generation;
        });
      },
    )

unfoldable pub apply_join_consumer_group : MetadataState → JoinConsumerGroupCmd → Applied
unfolding apply_group_state_join apply_group_join
apply_join_consumer_group s cmd = elim cmd.member [
  | some member ↦ apply_group_state_join s cmd member
  | none ↦ apply_group_join s cmd
]

-- With or without members left, a missing new assignment clears the old one.
unfoldable pub leave_group_state : GroupState → LeaveConsumerGroupCmd → GroupState
unfolding delete bytes_eq next_generation
leave_group_state group cmd =
    let members = delete cmd.member_id group.members in
    let left = record group {
      members = members;
      assignments = or_else cmd.new_assignment [];
      generation_id = next_generation group.generation_id;
    } in
    elim members [ [] ↦ record left { assignments = [] } | _ ∷ _ ↦ left ]

unfoldable pub apply_group_state_leave : MetadataState → LeaveConsumerGroupCmd → Applied
unfolding lookup insert bytes_eq leave_group_state
apply_group_state_leave s cmd = elim (lookup cmd.group_id s.group_states) [
  | none ↦ (s, group_not_found)
  | some group ↦ elim (lookup cmd.member_id group.members) [
    | none ↦ (s, member_not_found)
    | some _ ↦ (put_group_state s cmd.group_id (leave_group_state group cmd), ok_result)
  ]
]

unfoldable pub apply_group_leave : MetadataState → LeaveConsumerGroupCmd → Applied
unfolding lookup insert delete bytes_eq next_generation rebalance
apply_group_leave s cmd = elim (lookup cmd.group_id s.groups) [
  | none ↦ (s, group_not_found)
  | some group ↦ elim (lookup cmd.member_id group.members) [
    | none ↦ (s, member_not_found)
    | some _ ↦
        let balanced =
          rebalance (record group { members = delete cmd.member_id group.members }) s.topics
            s.partitions in
        (
          put_group s cmd.group_id
              (record balanced { generation_id = next_generation balanced.generation_id }),
          ok_result,
        )
  ]
]

unfoldable pub apply_leave_consumer_group : MetadataState → LeaveConsumerGroupCmd → Applied
unfolding lookup bytes_eq apply_group_state_leave apply_group_leave
apply_leave_consumer_group s cmd = elim (lookup cmd.group_id s.group_states) [
  | some _ ↦ apply_group_state_leave s cmd
  | none ↦ apply_group_leave s cmd
]

-- `sm.Result{Value: 1}`: the member's generation is stale
abbrev pub stale_generation : Result
stale_generation = record { value = 1; payload = empty }

unfoldable pub apply_heartbeat_consumer_group : MetadataState → HeartbeatConsumerGroupCmd → Applied
unfolding lookup insert modify bytes_eq
apply_heartbeat_consumer_group s cmd = elim (lookup cmd.group_id s.groups) [
  | none ↦ (s, group_not_found)
  | some group ↦ elim (lookup cmd.member_id group.members) [
    | none ↦ (s, member_not_found)
    | some _ ↦ (
      put_group s cmd.group_id (record group {
        members =
            modify cmd.member_id (λ m. record m { last_heartbeat_ms = cmd.timestamp_ms })
              group.members;
      }),
      if eqb_ℤ cmd.generation_id group.generation_id then ok_result else stale_generation,
    )
  ]
]

-- `for _, o := range cmd.Offsets`
unfoldable pub commit_all : List CommittedOffset → Map PartitionKey ℤ → Map PartitionKey ℤ
unfolding insert key_eq
commit_all [] offsets = offsets
commit_all (o ∷ os) offsets =
    commit_all os
      (insert (record { topic = o.topic; partition_id = o.partition_id }) o.offset offsets)

-- `for tp, offset := range cmd.GroupOffsets`
unfoldable pub merge_offsets : Map TopicPartition ℤ → Map TopicPartition ℤ → Map TopicPartition ℤ
unfolding insert key_eq
merge_offsets [] offsets = offsets
merge_offsets ((tp, offset) ∷ rest) offsets = merge_offsets rest (insert tp offset offsets)

unfoldable pub apply_group_state_commit_offset :
    MetadataState → CommitConsumerOffsetCmd → Map TopicPartition ℤ → Applied
unfolding lookup insert bytes_eq merge_offsets
apply_group_state_commit_offset s cmd offsets = elim (lookup cmd.group_id s.group_states) [
  | none ↦ (s, group_not_found)
  | some group ↦ (
    put_group_state s cmd.group_id (record group { offsets = merge_offsets offsets group.offsets }),
    ok_result,
  )
]

unfoldable pub apply_commit_consumer_offset : MetadataState → CommitConsumerOffsetCmd → Applied
unfolding lookup insert bytes_eq commit_all apply_group_state_commit_offset
apply_commit_consumer_offset s cmd = elim cmd.group_offsets [
  | some offsets ↦ apply_group_state_commit_offset s cmd offsets
  | none ↦ elim (lookup cmd.group_id s.groups) [
    | none ↦ (s, group_not_found)
    | some group ↦ (
      put_group s cmd.group_id
          (record group { committed_offsets = commit_all cmd.offsets group.committed_offsets }),
      ok_result,
    )
  ]
]

-- `for _, id := range cmd.ExpiredMemberIDs { delete(group.Members, id) }`
unfoldable pub delete_members : List Bytes → Map Bytes MemberInfo → Map Bytes MemberInfo
unfolding delete bytes_eq
delete_members [] members = members
delete_members (id ∷ ids) members = delete_members ids (delete id members)

unfoldable pub apply_rebalance_consumer_group : MetadataState → RebalanceConsumerGroupCmd → Applied
unfolding lookup insert bytes_eq next_generation rebalance delete_members
apply_rebalance_consumer_group s cmd = elim (lookup cmd.group_id s.groups) [
  | none ↦ (s, group_not_found)
  | some group ↦
      let balanced =
        rebalance (record group { members = delete_members cmd.expired_member_ids group.members })
          s.topics s.partitions in
      (
        put_group s cmd.group_id
            (record balanced { generation_id = next_generation balanced.generation_id }),
        ok_result,
      )
]
