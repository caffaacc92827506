-- ===== src/Group/Leave.antt =====
-- internal/coordinator/group/groupcoord.go: `LeaveGroup`.
use bunnymq.Prelude.{ℤ, Option, none, some, List, [], ◌∷◌}
use bunnymq.Prelude.Keys.{Bytes, bytes, bytes_eq, bytes-Eq}
use bunnymq.Prelude.Maps.{Map, lookup, insert}
use bunnymq.Metadata.Types.{
  GroupState, MemberState, TopicMeta, LeaveConsumerGroupCmd, leave_consumer_group,
}
use bunnymq.Assignment.{range_assign}
use bunnymq.Group.World.{
  M, err_not_group_member, ◌>>=◌, ◌>>◌, return, raise, find_topic, find_group, propose, no_command,
  forget, on_heartbeats,
}
use bunnymq.Group.Join.{other_ids}

pub record LeaveGroupRequest : Type 0 where
  pub group_id : Bytes
  pub member_id : Bytes

abbrev counted : Bytes → Map Bytes ℤ → Option TopicMeta → Map Bytes ℤ
counted topic counts none = counts
counted topic counts (some tm) = insert topic tm.partition_count counts

-- The loop over the topics, which passes over a topic that is gone.
unfoldable pub count_remaining : List Bytes → Map Bytes ℤ → M (Map Bytes ℤ)
unfolding find_topic insert bytes_eq
count_remaining [] counts = return counts
count_remaining (topic ∷ topics) counts = do
  tm ← find_topic topic
  count_remaining topics (counted topic counts tm)

abbrev pub require_group : Option GroupState → M GroupState
require_group none = raise err_not_group_member
require_group (some g) = return g

abbrev pub require_member : Option MemberState → M MemberState
require_member none = raise err_not_group_member
require_member (some ms) = return ms

abbrev pub leave_command :
    Bytes
    → Bytes
    → Bytes
    → MemberState
    → Map Bytes ℤ
    → Map Bytes MemberState
    → LeaveConsumerGroupCmd
leave_command group_id member_id reason ms counts members = record {
  group_id = group_id;
  member_id = member_id;
  reason = reason;
  new_assignment = some (range_assign (other_ids member_id members) ms.subscribed_topics counts);
}

abbrev voluntary : Bytes
voluntary = bytes "voluntary"

unfoldable pub leave_group : LeaveGroupRequest → M (Unit {0})
unfolding find_group lookup bytes_eq count_remaining other_ids range_assign propose forget
leave_group req = do
  raw ← find_group req.group_id
  current ← require_group raw
  ms ← require_member (lookup req.member_id current.members)
  counts ← count_remaining ms.subscribed_topics []
  propose (record (no_command leave_consumer_group) {
    leave_consumer_group =
        some (leave_command req.group_id req.member_id voluntary ms counts current.members);
  })
  on_heartbeats (forget req.group_id req.member_id)
