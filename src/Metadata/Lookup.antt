-- ===== src/Metadata/Lookup.antt =====
-- internal/metadata/metadata.go: `Lookup`, the queries of the shard. A query returns copies; that
-- `QueryGetGroup` and the group states share their maps with the state is not modelled.
use bunnymq.Prelude.{
  ℕ, ℤ, negsuc, pos, Option, none, some, List, [], ◌∷◌, leb, leb_ℤ, if◌then◌else◌, Bool,
}
use bunnymq.Prelude.Keys.{Bytes, bytes_eq, bytes_le, bytes-Eq, nat-Eq}
use bunnymq.Prelude.Sort.{sort_by}
use bunnymq.Prelude.Maps.{Map, lookup, insert}
use bunnymq.Metadata.Types.{
  PartitionKey, TopicPartition, key_eq, key-Eq, TopicMeta, PartitionMeta, NodeInfo,
  ConsumerGroupMeta, GroupState, MetadataState,
}
use bunnymq.Metadata.Topics.{partition_key}

-- `unknown` stands for every string that is none of the eleven query types.
pub data QueryType : Type 0 where
  get_topic list_topics get_partition get_partitions get_node list_nodes get_group : QueryType
  get_committed_offset get_group_state get_group_offsets get_all_group_states unknown : QueryType

pub record MetadataQuery : Type 0 where
  pub type : QueryType
  pub topic_name : Bytes
  pub partition_id : ℤ
  pub node_id : ℕ
  pub group_id : Bytes
  pub part_key : PartitionKey
  pub partitions : List TopicPartition

-- A value of type `any`, or one of the two errors. A nil group state is `group_state none`.
pub data Answer : Type 0 where
  topic : TopicMeta → Answer
  topics : List TopicMeta → Answer
  partition : PartitionMeta → Answer
  partition_list : List PartitionMeta → Answer
  node : NodeInfo → Answer
  nodes : List NodeInfo → Answer
  group : ConsumerGroupMeta → Answer
  committed_offset : ℤ → Answer
  group_state : Option GroupState → Answer
  group_offsets : Map TopicPartition ℤ → Answer
  all_group_states : Map Bytes GroupState → Answer
  not_found : Answer
  unknown_query : Answer

unfoldable pub values {ℓ κ} : {K : Type ℓ} {V : Type κ} → Map K V → List V
values [] = []
values ((k, v) ∷ m) = v ∷ values m

-- `for key, p := range fsm.state.Partitions { if key.Topic == query.TopicName … }`
unfoldable pub partitions_of : Bytes → Map PartitionKey PartitionMeta → List PartitionMeta
unfolding bytes_eq
partitions_of t [] = []
partitions_of t ((key, p) ∷ ps) =
    let rest = partitions_of t ps in if bytes_eq key.topic t then p ∷ rest else rest

abbrev by_name : TopicMeta → TopicMeta → Bool
by_name a b = bytes_le a.name b.name

abbrev by_partition_id : PartitionMeta → PartitionMeta → Bool
by_partition_id a b = leb_ℤ a.partition_id b.partition_id

abbrev pub by_node_id : NodeInfo → NodeInfo → Bool
by_node_id a b = leb a.node_id b.node_id

-- The two loops of `lookupGroupOffsets`.
unfoldable pub missing_offsets : List TopicPartition → Map TopicPartition ℤ → Map TopicPartition ℤ
unfolding insert key_eq
missing_offsets [] result = result
missing_offsets (tp ∷ tps) result = missing_offsets tps (insert tp (negsuc 0) result)

unfoldable pub found_offsets :
    Map TopicPartition ℤ → List TopicPartition → Map TopicPartition ℤ → Map TopicPartition ℤ
unfolding insert lookup key_eq
found_offsets offsets [] result = result
found_offsets offsets (tp ∷ tps) result =
    found_offsets offsets tps
      (elim (lookup tp offsets) [ none ↦ result | some o ↦ insert tp o result ])

unfoldable pub lookup_group_offsets :
    MetadataState → Bytes → List TopicPartition → Map TopicPartition ℤ
unfolding lookup bytes_eq missing_offsets found_offsets
lookup_group_offsets s id tps =
    let result = missing_offsets tps [] in
    elim (lookup id s.group_states) [ none ↦ result | some g ↦ found_offsets g.offsets tps result ]

-- A missing key of a Go map of integers reads as 0.
abbrev or_zero : Option ℤ → ℤ
or_zero none = pos 0
or_zero (some z) = z

abbrev answer {ℓ} : {A : Type ℓ} → Option A → (A → Answer) → Answer
answer none f = not_found
answer (some a) f = f a

unfoldable pub lookup_type : QueryType → MetadataState → MetadataQuery → Answer
unfolding lookup bytes_eq key_eq bytes_le sort_by values partitions_of lookup_group_offsets
lookup_type get_topic s q = answer (lookup q.topic_name s.topics) topic
lookup_type list_topics s q = topics (sort_by by_name (values s.topics))
lookup_type get_partition s q =
    answer (lookup (partition_key q.topic_name q.partition_id) s.partitions) partition
lookup_type get_partitions s q =
    answer (lookup q.topic_name s.topics)
      (λ _. partition_list (sort_by by_partition_id (partitions_of q.topic_name s.partitions)))
lookup_type get_node s q = answer (lookup q.node_id s.nodes) node
lookup_type list_nodes s q = nodes (sort_by by_node_id (values s.nodes))
lookup_type get_group s q = answer (lookup q.group_id s.groups) group
lookup_type get_committed_offset s q =
    answer (lookup q.group_id s.groups)
      (λ g. committed_offset (or_zero (lookup q.part_key g.committed_offsets)))
lookup_type get_group_state s q = group_state (lookup q.group_id s.group_states)
lookup_type get_group_offsets s q = group_offsets (lookup_group_offsets s q.group_id q.partitions)
lookup_type get_all_group_states s q = all_group_states s.group_states
lookup_type unknown s q = unknown_query

unfoldable pub lookup_metadata : MetadataState → MetadataQuery → Answer
unfolding lookup_type
lookup_metadata s q = lookup_type q.type s q
