-- ===== src/Metadata/Text.antt =====
-- internal/metadata/types.go: the text of the map keys, `MarshalText` and `UnmarshalText`, which
-- PartitionKey and TopicPartition have with the same bodies.
pub mod RoundTrip
use bunnymq.Prelude.{
  ℕ, zero, suc, ◌+◌, ◌-◌, ◌*◌, ◌^◌, ℤ, pos, negsuc, Option, none, some, List, [], ◌∷◌, ◌++◌, ltb,
  leb, eqb, Bool, ◌&&◌, if◌then◌else◌,
}
use bunnymq.Prelude.Keys.{Bytes}
use bunnymq.Prelude.Decimal.{format_i64}
use bunnymq.Metadata.Types.{PartitionKey}

-- `fmt.Sprintf("%s\x00%d", k.Topic, k.PartitionID)`
unfoldable pub marshal_text : PartitionKey → Bytes
unfolding format_i64
marshal_text k = k.topic ++ (0 ∷ format_i64 k.partition_id)

-- The text before and after the last zero byte, as `strings.LastIndex` finds it.
unfoldable pub split_last : Bytes → Option (Bytes × Bytes)
split_last [] = none
split_last (x ∷ xs) = elim (split_last xs) [
  | some (a, b) ↦ some (x ∷ a, b)
  | none ↦ if eqb x 0 then some ([], xs) else none
]

-- Decimal digits after a number; `none` at a byte that is no digit.
unfoldable pub parse_digits : ℕ → Bytes → Option ℕ
parse_digits n [] = some n
parse_digits n (b ∷ bs) =
    let rest = parse_digits (n * 10 + (b - 48)) bs in if leb 48 b && leb b 57 then rest else none

unfoldable pub parse_number : Bytes → Option ℕ
unfolding parse_digits
parse_number [] = none
parse_number (b ∷ bs) = parse_digits 0 (b ∷ bs)

abbrev pub positive : Option ℕ → Option ℤ
positive none = none
positive (some n) = if ltb n (2 ^ 31) then some (pos n) else none

abbrev pub negative : Option ℕ → Option ℤ
negative none = none
negative (some zero) = some (pos 0)
negative (some (suc n)) = if ltb n (2 ^ 31) then some (negsuc n) else none

-- `strconv.ParseInt(s, 10, 32)`: a sign, if any, then digits only, and the range of an `int32`
unfoldable pub parse_i32 : Bytes → Option ℤ
unfolding parse_number
parse_i32 [] = none
parse_i32 (b ∷ bs) =
    if eqb b 45
    then negative (parse_number bs)
    else (if eqb b 43 then positive (parse_number bs) else positive (parse_number (b ∷ bs)))

abbrev key_of : Bytes → Option ℤ → Option PartitionKey
key_of t none = none
key_of t (some p) = some (record { topic = t; partition_id = p })

-- `none` is an error.
unfoldable pub unmarshal_text : Bytes → Option PartitionKey
unfolding split_last parse_i32
unmarshal_text s = elim (split_last s) [
  | none ↦ none
  | some (t, digits) ↦ key_of t (parse_i32 digits)
]
