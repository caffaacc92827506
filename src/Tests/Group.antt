-- ===== src/Tests/Group.antt =====
-- Runs of the group coordinator, and its theorems at concrete inputs.
use mathlib.Core.List.{Memᴰ, Permᴰ}
use bunnymq.Prelude.{arith, ◌≡◌, ◌↔◌, ◌⊎◌, refl, pos, [], ◌∷◌, List, ℤ, some, true}
use bunnymq.Prelude.Keys.{Bytes, bytes, bytes-Eq}
use bunnymq.Prelude.Maps.{Map, lookup, keys}
use bunnymq.Metadata.Types.{
  TopicPartition, key-Eq, MetadataState, TopicMeta, GroupState, MemberState,
}
use bunnymq.Metadata.Groups.{new_group_state, apply_commit_consumer_offset}
use bunnymq.Metadata.Machine.{new_state}
use bunnymq.Prelude.Distinct.{Distinct}
use bunnymq.Group.Join.{JoinGroupResponse}
use bunnymq.Metadata.Topics.{apply_create_topic}
use bunnymq.Metadata.WellFormed.{WellFormed}
use bunnymq.Metadata.WellFormed.Machine.{apply_command-Keeps, new_state-WellFormed}
use bunnymq.Tests.Metadata.{create, create_command, created-InRange, created}
use bunnymq.Assignment.Ranges.{partition_of, assigned_to}
use bunnymq.Group.Join.Owners.{join_group_owners}
use bunnymq.Group.World.{ok, err, GroupError, err_stale_generation}
use bunnymq.Group.Quiet.{quiet}
use bunnymq.Group.TopicSets.{topic_sets_equal, topic_sets_equal_iff}
use bunnymq.Group.Join.{GroupCoordinatorConfig, JoinGroupRequest, join_group}
use bunnymq.Group.Join.Effects.{old_group}
use bunnymq.Group.Commit.{commit_offset}
use bunnymq.Group.Commit.Guards.{MayCommit, sent, commit_offset_cases}

topic_sets_equal_iff_example :
    (topic_sets_equal (bytes "a" ∷ bytes "b" ∷ []) (bytes "b" ∷ bytes "a" ∷ []) ≡ true)
    ↔ Permᴰ (bytes "a" ∷ bytes "b" ∷ []) (bytes "b" ∷ bytes "a" ∷ [])
topic_sets_equal_iff_example =
    topic_sets_equal_iff (bytes "a" ∷ bytes "b" ∷ []) (bytes "b" ∷ bytes "a" ∷ [])

abbrev tp : ℤ → TopicPartition
tp p = record { topic = bytes "t"; partition_id = p }

abbrev member : MemberState
member = record {
  member_id = bytes "m";
  subscribed_topics = bytes "t" ∷ [];
  session_timeout_ms = pos 6000;
  heartbeat_interval_ms = pos 2000;
  joined_at = pos 0;
}

abbrev group : GroupState
group = record (new_group_state (bytes "g")) {
  members = (bytes "m", member) ∷ [];
  generation_id = pos 3;
  assignments = (bytes "m", tp (pos 0) ∷ tp (pos 1) ∷ []) ∷ [];
}

abbrev topic : TopicMeta
topic = record {
  name = bytes "t";
  partition_count = pos 2;
  replication_factor = pos 1;
  retention_ms = pos 0;
  retention_bytes = pos 0;
  created_at_ms = pos 0;
}

abbrev state : MetadataState
state = record new_state {
  topics = (bytes "t", topic) ∷ [];
  group_states = (bytes "g", group) ∷ [];
}

abbrev offsets : Map TopicPartition ℤ
offsets = (tp (pos 1), pos 7) ∷ []

commit_offset_cases_example :
    ((x : GroupError) × (commit_offset (bytes "g") (bytes "m") (pos 3) offsets (quiet state [])
        ≡ (err x, quiet state [])))
    ⊎ (MayCommit state [] (bytes "g") (bytes "m") (pos 3) offsets
        × (commit_offset (bytes "g") (bytes "m") (pos 3) offsets (quiet state [])
            ≡ (ok tt, quiet (apply_commit_consumer_offset state (sent (bytes "g") offsets)).0 [])))
commit_offset_cases_example = commit_offset_cases state [] (bytes "g") (bytes "m") (pos 3) offsets

stale_run :
    commit_offset (bytes "g") (bytes "m") (pos 2) offsets (quiet state [])
    ≡ (err err_stale_generation, quiet state [])
unfolding commit_offset
stale_run = refl

abbrev wanted : List TopicPartition
wanted = tp (pos 1) ∷ []

abbrev config : GroupCoordinatorConfig
config = record {
  metadata_shard_id = 1;
  this_node_id = 1;
  session_timeout_min_ms = pos 1000;
  session_timeout_max_ms = pos 300000;
  sweep_interval_ms = pos 5000;
}

abbrev request : JoinGroupRequest
request = record {
  group_id = bytes "g";
  member_id = [];
  topics = bytes "t" ∷ [];
  session_timeout_ms = pos 6000;
  heartbeat_interval_ms = pos 2000;
}

-- The second member of the group takes over a partition.
join_run :
    (join_group config (bytes "n") (pos 10) (pos 11) request (quiet state [])).0
    ≡ ok (record { member_id = bytes "n"; generation_id = pos 4; assignments = tp (pos 1) ∷ [] })
unfolding join_group
join_run = refl

-- The metadata after the topic t is created, without a group.
abbrev fresh_state : MetadataState
fresh_state = (apply_create_topic new_state create).0

fresh_state-WellFormed : WellFormed fresh_state
fresh_state-WellFormed =
    (apply_command-Keeps new_state create_command created-InRange (omega arith) new_state-WellFormed
      created).0

abbrev first_response : JoinGroupResponse
first_response = record {
  member_id = bytes "n";
  generation_id = pos 1;
  assignments = tp (pos 0) ∷ tp (pos 1) ∷ [];
}

first_join :
    (join_group config (bytes "n") (pos 10) (pos 11) request (quiet fresh_state [])).0
    ≡ ok first_response
unfolding join_group apply_create_topic
first_join = refl

topic-there : lookup (bytes "t") fresh_state.topics ≡ some topic
unfolding lookup apply_create_topic
topic-there = refl

no_members :
    Distinct (keys (old_group config (bytes "n") (pos 10) (pos 11) fresh_state [] request).members)
unfolding lookup apply_create_topic keys
no_members = tt

join_group_owners_example :
    (group : GroupState) × (lookup
        (bytes "g")
        (join_group config
          (bytes "n")
          (pos 10)
          (pos 11)
          request
          (quiet fresh_state [])).1.metadata.group_states
      ≡ some group)
    × ((owner : Bytes) × Memᴰ owner (keys group.members)
        × Memᴰ (partition_of (bytes "t") 1) (assigned_to group.assignments owner)
        × ((m : Bytes)
            → Memᴰ m (keys group.members)
            → Memᴰ (partition_of (bytes "t") 1) (assigned_to group.assignments m)
            → m ≡ owner))
join_group_owners_example =
    join_group_owners config (bytes "n") (pos 10) (pos 11) fresh_state [] request first_response
      (bytes "t") topic 2 1 fresh_state-WellFormed no_members first_join (Memᴰ.head refl)
      topic-there refl (omega arith)
