-- ===== src/Metadata/WellFormed.antt =====
-- The invariant that ties the topics to their partitions and to the shard ids.
pub mod Extend
pub mod Relabel
pub mod Delete
pub mod Commands
pub mod Machine
use bunnymq.Prelude.{ℕ, ◌≤◌, ◌<◌, ◌^◌, ◌≡◌, some, pos}
use bunnymq.Prelude.Keys.{Bytes, bytes-Eq}
use bunnymq.Prelude.Maps.{Map, lookup}
use bunnymq.Metadata.Types.{PartitionKey, key-Eq, TopicMeta, PartitionMeta, MetadataState}
use bunnymq.Metadata.Topics.{partition_key}

-- Partition k belongs to a topic, within the topic's partition count.
pub record Belongs (topics : Map Bytes TopicMeta) (k : PartitionKey) : Type 0 where
  pub meta : TopicMeta
  pub count : ℕ
  pub index : ℕ
  pub topic_there : lookup k.topic topics ≡ some meta
  pub counted : meta.partition_count ≡ pos count
  pub below : index < count
  pub indexed : k.partition_id ≡ pos index

pub record Consistent (topics : Map Bytes TopicMeta) (partitions : Map PartitionKey PartitionMeta)
    (next_shard_id : ℕ) : Type 0 where
  -- A topic has at least one partition and stands under its name.
  pub counts :
      (t : Bytes) (m : TopicMeta)
      → lookup t topics ≡ some m
      → (n : ℕ) × (m.partition_count ≡ pos n) × (0 < n) × (n < 2 ^ 31)
  pub named : (t : Bytes) (m : TopicMeta) → lookup t topics ≡ some m → m.name ≡ t
  -- The partitions are those of the topics, from 0 to the count: none is missing, none is left over.
  pub present :
      (t : Bytes) (m : TopicMeta) (n j : ℕ)
      → lookup t topics ≡ some m
      → m.partition_count ≡ pos n
      → j < n
      → (p : PartitionMeta) × (lookup (partition_key t (pos j)) partitions ≡ some p)
  pub belongs :
      (k : PartitionKey) (p : PartitionMeta) → lookup k partitions ≡ some p → Belongs topics k
  pub keyed :
      (k : PartitionKey) (p : PartitionMeta)
      → lookup k partitions ≡ some p
      → (p.topic ≡ k.topic) × (p.partition_id ≡ k.partition_id)
  -- Shard ids are positive, below the next one, and no two partitions share one.
  pub shards :
      (k : PartitionKey) (p : PartitionMeta)
      → lookup k partitions ≡ some p
      → (1 ≤ p.shard_id) × (p.shard_id < next_shard_id)
  pub apart :
      (k l : PartitionKey) (p q : PartitionMeta)
      → lookup k partitions ≡ some p
      → lookup l partitions ≡ some q
      → p.shard_id ≡ q.shard_id
      → k ≡ l
  pub started : 1 ≤ next_shard_id

abbrev pub WellFormed : MetadataState → Type 0
WellFormed s = Consistent s.topics s.partitions s.next_shard_id
