-- ===== src/Metadata/Rebalance.antt =====
-- internal/metadata/metadata.go: `rebalance`, the range assignment of the older consumer groups.
use bunnymq.Prelude.{
  ℕ, ◌+◌, ◌-◌, ◌*◌, ◌/◌, Bool, true, false, ◌&&◌, Option, none, some, List, [], ◌∷◌, ◌++◌, length,
  take, drop, if◌then◌else◌,
}
use bunnymq.Prelude.Keys.{Bytes, bytes_eq, bytes_le, bytes-Eq, bytes-Ord}
use bunnymq.Prelude.Sort.{sort}
use bunnymq.Prelude.Maps.{Map, lookup, modify, keys}
use bunnymq.Metadata.Types.{
  PartitionKey, key_le, key-Ord, TopicMeta, PartitionMeta, MemberInfo, ConsumerGroupMeta,
}

-- The topics that some member subscribes to, `subscribed` of `collectEligiblePartitions`.
unfoldable pub subscribed : Map Bytes MemberInfo → List Bytes
subscribed [] = []
subscribed ((id, m) ∷ ms) = m.subscribed_topics ++ subscribed ms

unfoldable pub contains : Bytes → List Bytes → Bool
unfolding bytes_eq
contains t [] = false
contains t (u ∷ us) = if bytes_eq u t then true else contains t us

abbrev pub exists {ℓ} : {A : Type ℓ} → Option A → Bool
exists none = false
exists (some a) = true

-- `for key := range partitions`
unfoldable pub collect_keys :
    List Bytes → Map Bytes TopicMeta → Map PartitionKey PartitionMeta → List PartitionKey
unfolding contains lookup
collect_keys topics_of metas [] = []
collect_keys topics_of metas ((key, p) ∷ ps) =
    let rest = collect_keys topics_of metas ps in
    if contains key.topic topics_of && exists (lookup key.topic metas) then key ∷ rest else rest

unfoldable pub collect_eligible_partitions :
    Map Bytes MemberInfo → Map Bytes TopicMeta → Map PartitionKey PartitionMeta → List PartitionKey
unfolding subscribed collect_keys
collect_eligible_partitions members topics partitions =
    collect_keys (subscribed members) topics partitions

unfoldable pub sorted_member_ids : Map Bytes MemberInfo → List Bytes
unfolding keys sort bytes_le
sorted_member_ids members = sort (keys members)

-- eligible[lo:hi]
abbrev pub slice {ℓ} : {A : Type ℓ} → ℕ → ℕ → List A → List A
slice lo hi l = take (hi - lo) (drop lo l)

-- `for i, memberID := range members`; every id is a key of the map
unfoldable pub assign_slices :
    List PartitionKey → ℕ → ℕ → List Bytes → Map Bytes MemberInfo → Map Bytes MemberInfo
unfolding modify bytes_eq
assign_slices eligible n i [] members = members
assign_slices eligible n i (id ∷ ids) members =
    let lo = i * length eligible / n in
    let hi = (i + 1) * length eligible / n in
    assign_slices eligible n (i + 1) ids
      (modify id (λ m. record m { assigned_partitions = slice lo hi eligible }) members)

assign_all : List PartitionKey → List Bytes → Map Bytes MemberInfo → Map Bytes MemberInfo
unfolding assign_slices
assign_all eligible [] members = members
assign_all eligible (id ∷ ids) members =
    assign_slices eligible (length (id ∷ ids)) 0 (id ∷ ids) members

unfoldable pub rebalance :
    ConsumerGroupMeta → Map Bytes TopicMeta → Map PartitionKey PartitionMeta → ConsumerGroupMeta
unfolding assign_all collect_eligible_partitions sorted_member_ids sort key_le
rebalance group topics partitions =
    let eligible = sort (collect_eligible_partitions group.members topics partitions) in
    record group { members = assign_all eligible (sorted_member_ids group.members) group.members }
