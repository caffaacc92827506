-- ===== src/Group/Quiet.antt =====
-- The calls of the Raft host on a quiet world: each succeeds, and nobody else changes the state.
use bunnymq.Prelude.{[], ◌≡◌, refl, arith}
use bunnymq.Prelude.Keys.{Bytes, bytes-Eq}
use bunnymq.Prelude.Maps.{lookup}
use bunnymq.Metadata.Types.{MetadataState, MetadataCommand}
use bunnymq.Metadata.Lookup.{MetadataQuery, lookup_metadata, lookup_type}
use bunnymq.Metadata.Machine.{apply_command}
use bunnymq.Group.World.{
  World, Heartbeats, ok, take_turn, query, find_group, find_topic, find_all_groups, propose, land,
  transport_command,
}

abbrev pub quiet : MetadataState → Heartbeats → World
quiet s hb = record { metadata = s; last_heartbeat = hb; turns = [] }

module _ (s : MetadataState) (hb : Heartbeats) where
  pub query-quiet :
      (q : MetadataQuery) → query q (quiet s hb) ≡ (ok (lookup_metadata s q), quiet s hb)
  unfolding query take_turn
  query-quiet q = refl

  pub find_group-quiet :
      (id : Bytes) → find_group id (quiet s hb) ≡ (ok (lookup id s.group_states), quiet s hb)
  unfolding find_group query take_turn lookup_metadata lookup_type
  find_group-quiet id = refl

  pub find_topic-quiet :
      (name : Bytes) → find_topic name (quiet s hb) ≡ (ok (lookup name s.topics), quiet s hb)
  unfolding find_topic query take_turn lookup_metadata lookup_type
  find_topic-quiet name = ground arith

  pub find_all_groups-quiet : find_all_groups (quiet s hb) ≡ (ok s.group_states, quiet s hb)
  unfolding find_all_groups query take_turn lookup_metadata lookup_type
  find_all_groups-quiet = refl

  pub propose-quiet :
      (c : MetadataCommand)
      → propose c (quiet s hb) ≡ land (ok tt) (apply_command s (transport_command c)) (quiet s hb)
  unfolding propose take_turn
  propose-quiet c = refl
