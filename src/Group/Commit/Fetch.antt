-- ===== src/Group/Commit/Fetch.antt =====
-- What is fetched after a commit of offsets.
use bunnymq.Prelude.{List, ◌≡◌, arith}
use bunnymq.Prelude.Keys.{Bytes, bytes-Eq}
use bunnymq.Prelude.Distinct.{Distinct}
use bunnymq.Metadata.Types.{TopicPartition, key-Eq, MetadataState}
use bunnymq.Metadata.Lookup.{lookup_group_offsets, lookup_metadata, lookup_type}
use bunnymq.Group.World.{Heartbeats, ok}
use bunnymq.Group.Quiet.{quiet, query-quiet}
use bunnymq.Group.Commit.{fetch_committed_offsets}

module _ (s : MetadataState) (hb : Heartbeats) where
  pub fetch_committed_offsets-quiet :
      (g : Bytes) (tps : List TopicPartition)
      → fetch_committed_offsets g tps (quiet s hb) ≡ (ok (lookup_group_offsets s g tps), quiet s hb)
  unfolding fetch_committed_offsets lookup_metadata lookup_type
  fetch_committed_offsets-quiet g tps = ground (arith, query-quiet s hb)
