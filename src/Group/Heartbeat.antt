-- ===== src/Group/Heartbeat.antt =====
-- internal/coordinator/group/groupcoord.go: `Heartbeat` and `RebuildHeartbeatTable`.
use bunnymq.Prelude.{ℤ, [], ◌∷◌, Bool, ltb_ℤ}
use bunnymq.Prelude.Keys.{Bytes, bytes_eq, bytes-Eq}
use bunnymq.Prelude.Maps.{Map, lookup, insert}
use bunnymq.Metadata.Types.{GroupState, MemberState}
use bunnymq.Metadata.Groups.{or_else}
use bunnymq.Group.World.{
  M, World, Reply, ok, err, Heartbeats, ◌>>=◌, ◌>>◌, return, find_group, find_all_groups, touch,
  on_heartbeats,
}
use bunnymq.Group.Leave.{require_group, require_member}

-- The answer says whether a rebalance is pending; `now` is what the clock shows.
unfoldable pub heartbeat : ℤ → Bytes → Bytes → ℤ → M Bool
unfolding find_group lookup bytes_eq touch
heartbeat now group_id member_id generation_id = do
  raw ← find_group group_id
  group ← require_group raw
  _ ← require_member (lookup member_id group.members)
  on_heartbeats (touch group_id member_id now)
  return (ltb_ℤ generation_id group.generation_id)

unfoldable pub seed_members : Bytes → ℤ → Map Bytes MemberState → Heartbeats → Heartbeats
unfolding touch
seed_members g now [] hb = hb
seed_members g now ((id, ms) ∷ members) hb = seed_members g now members (touch g id now hb)

-- The table of a group is made even where the group has no member.
unfoldable pub seed_groups : ℤ → Map Bytes GroupState → Heartbeats → Heartbeats
unfolding insert lookup seed_members
seed_groups now [] hb = hb
seed_groups now ((g, group) ∷ groups) hb =
    seed_groups now groups
      (seed_members g now group.members (insert g (or_else (lookup g hb) []) hb))

-- An error of the query ends it in silence.
abbrev seeded : ℤ → Reply (Map Bytes GroupState) × World → World
seeded now (err x, w) = w
seeded now (ok groups, w) = record w { last_heartbeat = seed_groups now groups w.last_heartbeat }

unfoldable pub rebuild_heartbeat_table : ℤ → World → World
unfolding find_all_groups seed_groups
rebuild_heartbeat_table now w = seeded now (find_all_groups w)
