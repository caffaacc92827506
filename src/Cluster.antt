-- ===== src/Cluster.antt =====
-- internal/coordinator/cluster/cluster.go: the placement of replicas, `assignReplicas`, with the
-- 32-bit FNV-1a hash of Go's hash/fnv that it starts from, and the way of `CreateTopic` from its
-- arguments and the nodes to the command that it proposes.
pub mod Replicas
pub mod Create
use bunnymq.Prelude.{
  ℕ, zero, suc, ◌+◌, ◌*◌, ◌/◌, ◌%◌, ◌^◌, ℤ, pos, negsuc, Option, none, some, List, [], ◌∷◌, length,
  get_elem?, eqb, leb, ltb_ℤ, pos_part, if◌then◌else◌, Bool, true, not, ◌&&◌, ◌||◌,
}
use bunnymq.Prelude.Keys.{Bytes}
use bunnymq.Prelude.Sort.{sort_by}
use bunnymq.Metadata.Types.{NodeInfo, CreateTopicCmd}
use bunnymq.Metadata.Groups.{or_else}
use bunnymq.Metadata.Lookup.{by_node_id}

infixl 5 ◌>>=◌
abbrev ◌>>=◌ {ℓ κ} : {A : Type ℓ} {B : Type κ} → Option A → (A → Option B) → Option B
none >>= f = none
some a >>= f = f a

-- The exclusive or of the lowest `width` bits.
unfoldable pub xor_bits : ℕ → ℕ → ℕ → ℕ
xor_bits zero a b = 0
xor_bits (suc width) a b = (a + b) % 2 + 2 * xor_bits width (a / 2) (b / 2)

unfoldable pub hash_from : ℕ → Bytes → ℕ
unfolding xor_bits
hash_from h [] = h
hash_from h (b ∷ bs) = hash_from (xor_bits 32 h b * 16777619 % 2 ^ 32) bs

unfoldable pub fnv32a : Bytes → ℕ
unfolding hash_from
fnv32a s = hash_from 2166136261 s

-- `for r := int32(0); r < rf; r++`, with the rounds left. An index out of range panics: `none`.
unfoldable pub replicas_from : List NodeInfo → ℕ → ℕ → ℕ → Option (List ℕ)
replicas_from sorted from r zero = some []
replicas_from sorted from r (suc rounds) = do
  node ← get_elem? sorted ((from + r) % length sorted)
  rest ← replicas_from sorted from (r + 1) rounds
  some (node.node_id ∷ rest)

-- The id of a partition and the replication factor are not negative where the coordinator calls
-- it. Without nodes the remainder by 0 panics.
unfoldable pub assign_replicas : List NodeInfo → Bytes → ℕ → ℕ → Option (List ℕ)
unfolding fnv32a replicas_from sort_by
assign_replicas nodes topic partition_id rf =
    let sorted = sort_by by_node_id nodes in
    if eqb (length sorted) 0
    then none
    else replicas_from sorted (fnv32a topic % length sorted + partition_id) 0 rf

-- The loop of `CreateTopic` over the partitions, and that of `AlterTopicPartitionCount` over the
-- new ones, from partition `p` on.
unfoldable pub place_partitions : List NodeInfo → Bytes → ℕ → ℕ → ℕ → Option (List (List ℕ))
unfolding assign_replicas
place_partitions nodes topic rf p zero = some []
place_partitions nodes topic rf p (suc rounds) = do
  replicas ← assign_replicas nodes topic p rf
  rest ← place_partitions nodes topic rf (p + 1) rounds
  some (replicas ∷ rest)

abbrev in_range : ℕ → ℕ → ℕ → Bool
in_range lo hi c = leb lo c && leb c hi

-- `[a-zA-Z0-9._-]`
abbrev is_name_byte : ℕ → Bool
is_name_byte c =
    in_range 97 122 c || in_range 65 90 c || in_range 48 57 c || eqb c 46 || eqb c 95 || eqb c 45

unfoldable pub all_name_bytes : Bytes → Bool
all_name_bytes [] = true
all_name_bytes (c ∷ cs) = is_name_byte c && all_name_bytes cs

-- `topicNameRe`
unfoldable pub is_topic_name : Bytes → Bool
unfolding all_name_bytes
is_topic_name name = in_range 1 255 (length name) && all_name_bytes name

pub record TopicConfigOverrides : Type 0 where
  pub retention_ms : Option ℤ
  pub retention_bytes : Option ℤ

pub data Built : Type 0 where
  invalid_argument panicked : Built
  built : CreateTopicCmd → Built

-- The part of `CreateTopic` before the proposal, where the lookup answers `nodes` and the clock
-- shows `now`.
module _ (nodes : List NodeInfo) (now : ℤ) where
  unfoldable pub create_command : Bytes → ℤ → ℤ → TopicConfigOverrides → Built
  unfolding is_topic_name place_partitions
  create_command name partition_count replication_factor overrides =
      if not (is_topic_name name)
      then invalid_argument
      else if ltb_ℤ partition_count (pos 1)
      then invalid_argument
      else if ltb_ℤ replication_factor (pos 1)
      then invalid_argument
      else if ltb_ℤ (pos (length nodes)) replication_factor
      then invalid_argument
      else elim (place_partitions nodes name (pos_part replication_factor) 0
          (pos_part partition_count)) [
            | none ↦ panicked
            | some placed ↦ built (record {
              name = name;
              partition_count = partition_count;
              replication_factor = replication_factor;
              retention_ms = or_else overrides.retention_ms (pos 0);
              retention_bytes = or_else overrides.retention_bytes (negsuc 0);
              created_at_ms = now;
              replica_node_ids = placed;
            })
          ]
