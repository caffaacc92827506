-- ===== src/Assignment.antt =====
-- The range assignor of consumer groups, internal/coordinator/cluster/assignment.go, of which
-- internal/coordinator/group/groupcoord.go has a second copy with the same text.
pub mod Shares
pub mod Ranges
pub mod Owners
pub mod Keys
use bunnymq.Prelude.{ℕ, zero, suc, ◌+◌, ◌/◌, ◌%◌, ℤ, pos, negsuc, wrap_i32}
use bunnymq.Prelude.{none, some, List, [], ◌∷◌, ◌++◌, length, ltb, eqb, if◌then◌else◌}
use bunnymq.Prelude.Keys.{Bytes, bytes_le, bytes_eq, bytes-Eq, bytes-Ord}
use bunnymq.Prelude.Sort.{sort}
use bunnymq.Prelude.Maps.{Map, lookup, insert, modify}
use bunnymq.Metadata.Types.{TopicPartition, Assignment}

-- `for p := cursor; p < cursor+count; p++`, with the rounds left
unfoldable pub append_range : Bytes → ℕ → ℕ → List TopicPartition → List TopicPartition
unfolding wrap_i32
append_range topic p zero tps = tps
append_range topic p (suc n) tps =
    append_range topic (p + 1) n
      (tps ++ (record { topic = topic; partition_id = wrap_i32 (pos p) } ∷ []))

-- `for i, memberID := range sorted`
unfoldable pub assign_members : Bytes → ℕ → ℕ → ℕ → ℕ → List Bytes → Assignment → Assignment
unfolding append_range modify
assign_members topic base remainder i cursor [] result = result
assign_members topic base remainder i cursor (m ∷ ms) result =
    let count = if ltb i remainder then base + 1 else base in
    assign_members topic base remainder (i + 1) (cursor + count) ms
      (modify m (append_range topic cursor count) result)

-- The partition count of a topic, as a bound of the loops: a missing topic counts 0, and a
-- negative count has a quotient and a remainder that are not positive, so no loop runs.
unfoldable pub partition_count : Map Bytes ℤ → Bytes → ℕ
unfolding lookup bytes_eq
partition_count counts topic = elim (lookup topic counts) [
  | none ↦ 0
  | some (pos n) ↦ n
  | some (negsuc n) ↦ 0
]

-- One topic of the loop `for _, topic := range sortedTopics`.
unfoldable pub assign_topic : List Bytes → Map Bytes ℤ → Bytes → Assignment → Assignment
unfolding assign_members partition_count
assign_topic sorted counts topic result =
    let n = partition_count counts topic in
    if eqb n 0
    then result
    else assign_members topic (n / length sorted) (n % length sorted) 0 0 sorted result

unfoldable pub assign_topics : List Bytes → Map Bytes ℤ → List Bytes → Assignment → Assignment
unfolding assign_topic
assign_topics sorted counts [] result = result
assign_topics sorted counts (topic ∷ topics) result =
    assign_topics sorted counts topics (assign_topic sorted counts topic result)

-- `for _, m := range sorted { result[m] = []TopicPartition{} }`
unfoldable pub empty_slices : List Bytes → Assignment → Assignment
unfolding insert bytes_eq
empty_slices [] result = result
empty_slices (m ∷ ms) result = empty_slices ms (insert m [] result)

assign_sorted : List Bytes → List Bytes → Map Bytes ℤ → Assignment
unfolding assign_topics empty_slices
assign_sorted [] topics counts = []
assign_sorted (m ∷ ms) topics counts =
    assign_topics (m ∷ ms) counts topics (empty_slices (m ∷ ms) [])

unfoldable pub range_assign : List Bytes → List Bytes → Map Bytes ℤ → Assignment
unfolding assign_sorted sort bytes_le
range_assign member_ids topics counts = assign_sorted (sort member_ids) (sort topics) counts
