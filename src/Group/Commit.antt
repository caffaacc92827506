-- ===== src/Group/Commit.antt =====
-- internal/coordinator/group/groupcoord.go: `CommitOffset` and `FetchCommittedOffsets`.
pub mod Guards
pub mod Fetch
use bunnymq.Prelude.{ℤ, Option, none, some, List, [], ◌∷◌, Bool, true, false, eqb_ℤ, if◌then◌else◌}
use bunnymq.Prelude.Keys.{Bytes, bytes_eq, bytes-Eq}
use bunnymq.Prelude.Maps.{Map, lookup, keys}
use bunnymq.Metadata.Types.{
  TopicPartition, key_eq, GroupState, CommitConsumerOffsetCmd, commit_consumer_offset,
}
use bunnymq.Metadata.Groups.{or_else}
use bunnymq.Metadata.Lookup.{QueryType, Answer, group_offsets}
use bunnymq.Group.World.{
  M, GroupError, err_stale_generation, err_invalid_argument, ◌>>=◌, ◌>>◌, return, raise, query,
  no_query, find_group, propose, no_command,
}
use bunnymq.Group.Join.{check}
use bunnymq.Group.Leave.{require_group, require_member}

-- `_, ok := assigned[tp]`
unfoldable pub is_assigned : TopicPartition → List TopicPartition → Bool
unfolding key_eq
is_assigned tp [] = false
is_assigned tp (x ∷ xs) = let rest = is_assigned tp xs in if key_eq x tp then true else rest

-- `for tp := range offsets { if _, ok := assigned[tp]; !ok { return … } }`
unfoldable pub all_assigned : List TopicPartition → Map TopicPartition ℤ → Bool
unfolding is_assigned
all_assigned assigned [] = true
all_assigned assigned ((tp, z) ∷ offsets) =
    let rest = all_assigned assigned offsets in if is_assigned tp assigned then rest else false

unfoldable pub commit_offset : Bytes → Bytes → ℤ → Map TopicPartition ℤ → M (Unit {0})
unfolding find_group lookup bytes_eq all_assigned propose
commit_offset group_id member_id generation_id offsets = do
  raw ← find_group group_id
  group ← require_group raw
  _ ← require_member (lookup member_id group.members)
  check (eqb_ℤ generation_id group.generation_id) err_stale_generation
  check (all_assigned (or_else (lookup member_id group.assignments) []) offsets)
      err_invalid_argument
  propose (record (no_command commit_consumer_offset) {
    commit_consumer_offset =
        some (record { group_id = group_id; offsets = []; group_offsets = some offsets });
  })

-- `result, _ := raw.(map[…]int64)`: nil, which reads as empty, for an answer of another type
abbrev as_offsets : Answer → Map TopicPartition ℤ
as_offsets (group_offsets m) = m
as_offsets _ = []

unfoldable pub fetch_committed_offsets : Bytes → List TopicPartition → M (Map TopicPartition ℤ)
unfolding query
fetch_committed_offsets group_id partitions = do
  a ← query (record (no_query QueryType.get_group_offsets) {
    group_id = group_id;
    partitions = partitions;
  })
  return (as_offsets a)
