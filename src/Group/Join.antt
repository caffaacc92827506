-- ===== src/Group/Join.antt =====
-- internal/coordinator/group/groupcoord.go: the coordinator's configuration and `JoinGroup`.
-- The clock and the generator of member ids (github.com/google/uuid) are arguments.
pub mod Effects
pub mod Owners
use bunnymq.Prelude.{
  ℕ, ℤ, pos, Option, none, some, List, [], ◌∷◌, Bool, true, false, not, ◌||◌, ltb_ℤ, eqb_ℤ,
  if◌then◌else◌,
}
use bunnymq.Prelude.Keys.{Bytes, bytes_eq, bytes-Eq}
use bunnymq.Prelude.Maps.{Map, lookup, insert, keys}
use bunnymq.Metadata.Types.{
  TopicPartition, GroupState, MemberState, JoinConsumerGroupCmd, CommandType, join_consumer_group,
  TopicMeta,
}
use bunnymq.Metadata.Groups.{or_else}
use bunnymq.Assignment.{range_assign}
use bunnymq.Group.TopicSets.{topic_sets_equal}
use bunnymq.Group.World.{
  M, World, Reply, GroupError, err_not_found, err_invalid_argument, panicked, ◌>>=◌, ◌>>◌, return,
  raise, find_topic, find_group, propose, no_command, touch, on_heartbeats, answer_when,
}

pub record GroupCoordinatorConfig : Type 0 where
  pub metadata_shard_id : ℕ
  pub this_node_id : ℕ
  pub session_timeout_min_ms : ℤ
  pub session_timeout_max_ms : ℤ
  pub sweep_interval_ms : ℤ

abbrev or_default : ℤ → ℕ → ℤ
or_default z d = if eqb_ℤ z (pos 0) then pos d else z

-- `NewGroupCoordinator`: the configuration with its defaults
unfoldable pub with_defaults : GroupCoordinatorConfig → GroupCoordinatorConfig
with_defaults c = record c {
  session_timeout_min_ms = or_default c.session_timeout_min_ms 1000;
  session_timeout_max_ms = or_default c.session_timeout_max_ms 300000;
  sweep_interval_ms = or_default c.sweep_interval_ms 5000;
}

pub record JoinGroupRequest : Type 0 where
  pub group_id : Bytes
  pub member_id : Bytes
  pub topics : List Bytes
  pub session_timeout_ms : ℤ
  pub heartbeat_interval_ms : ℤ

pub record JoinGroupResponse : Type 0 where
  pub member_id : Bytes
  pub generation_id : ℤ
  pub assignments : List TopicPartition

-- The loop over `req.Topics`.
abbrev found_count : Bytes → Map Bytes ℤ → Option TopicMeta → M (Map Bytes ℤ)
found_count topic counts none = raise err_not_found
found_count topic counts (some tm) = return (insert topic tm.partition_count counts)

unfoldable pub count_partitions : List Bytes → Map Bytes ℤ → M (Map Bytes ℤ)
unfolding find_topic insert bytes_eq
count_partitions [] counts = return counts
count_partitions (topic ∷ topics) counts = do
  tm ← find_topic topic
  counts' ← found_count topic counts tm
  count_partitions topics counts'

-- The first member of the map is compared, as the loop breaks after it.
abbrev pub first_matches : Map Bytes MemberState → List Bytes → Bool
first_matches [] topics = true
first_matches ((id, ms) ∷ rest) topics = topic_sets_equal ms.subscribed_topics topics

abbrev pub members_of : Option GroupState → Map Bytes MemberState
members_of none = []
members_of (some g) = g.members

abbrev pub check : Bool → GroupError → M (Unit {0})
check true x = return tt
check false x = raise x

-- `for id := range Members { if id != memberID { … append … } }`
unfoldable pub other_ids : Bytes → Map Bytes MemberState → List Bytes
unfolding bytes_eq
other_ids id [] = []
other_ids id ((j, ms) ∷ rest) =
    let ids = other_ids id rest in if bytes_eq j id then ids else j ∷ ids

abbrev pub chosen_id : Bytes → Bytes → Bytes
chosen_id fresh [] = fresh
chosen_id fresh (c ∷ cs) = c ∷ cs

-- `raw2.(*metadata.GroupState)` panics at nil.
abbrev existing : Option GroupState → M GroupState
existing none = raise panicked
existing (some g) = return g

-- `fresh` is the id that uuid.NewString returns, `started` and `heard` what the clock shows.
module _ (config : GroupCoordinatorConfig) (fresh : Bytes) (started heard : ℤ) where
  abbrev pub in_range : ℤ → Bool
  in_range t = not (ltb_ℤ t config.session_timeout_min_ms || ltb_ℤ config.session_timeout_max_ms t)

  abbrev pub join_command :
      JoinGroupRequest → Bytes → Map Bytes ℤ → Map Bytes MemberState → JoinConsumerGroupCmd
  join_command req id counts members = record {
    group_id = req.group_id;
    member_id = id;
    client_host = [];
    subscribed_topics = [];
    joined_at_ms = pos 0;
    member = some (record {
      member_id = id;
      subscribed_topics = req.topics;
      session_timeout_ms = req.session_timeout_ms;
      heartbeat_interval_ms = req.heartbeat_interval_ms;
      joined_at = started;
    });
    new_assignment = some (range_assign (id ∷ other_ids id members) req.topics counts);
  }

  -- The rest of `JoinGroup`, from the proposal on.
  unfoldable pub join_members :
      JoinGroupRequest → Bytes → Map Bytes ℤ → Map Bytes MemberState → M JoinGroupResponse
  unfolding find_group other_ids range_assign propose touch lookup bytes_eq
  join_members req id counts members = do
    propose (record (no_command join_consumer_group) {
      join_consumer_group = some (join_command req id counts members);
    })
    raw ← find_group req.group_id
    updated ← existing raw
    on_heartbeats (touch req.group_id id heard)
    return (record {
      member_id = id;
      generation_id = updated.generation_id;
      assignments = or_else (lookup id updated.assignments) [];
    })

  unfoldable pub join_group : JoinGroupRequest → M JoinGroupResponse
  unfolding count_partitions find_group topic_sets_equal join_members
  join_group req = do
    check (in_range req.session_timeout_ms) err_invalid_argument
    counts ← count_partitions req.topics []
    current ← find_group req.group_id
    check (first_matches (members_of current) req.topics) err_invalid_argument
    join_members req (chosen_id fresh req.member_id) counts (members_of current)
