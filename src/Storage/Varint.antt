-- ===== src/Storage/Varint.antt =====
-- internal/storage/batch.go: `appendUvarint`, `decodeUvarint`, `zigzag` and `unzigzag`.
pub mod RoundTrip
use bunnymq.Prelude.{
  ℕ, zero, suc, ◌+◌, ◌*◌, ◌/◌, ◌%◌, ◌^◌, ◌<◌, ◌≤◌, ◌-◌, ℤ, pos, negsuc, IsI64, Option, none, some,
  List, [], ◌∷◌, ◌++◌, ◌≡◌, refl, arith, length, get_elem?, ltb, eqb, if◌then◌else◌,
}
use bunnymq.Storage.Decoded.{Decoded, DecodeError, truncated_varint, varint_overflow, ok, err}

-- `for v >= 0x80`, with the rounds left. A `uint64` has ten groups of seven bits, so nine rounds
-- are enough.
unfoldable pub append_groups : ℕ → List ℕ → ℕ → List ℕ
append_groups zero b v = b ++ (v % 256 ∷ [])
append_groups (suc k) b v =
    let rest = append_groups k (b ++ ((v % 128 + 128) ∷ [])) (v / 128) in
    if ltb v 128 then b ++ (v ∷ []) else rest

unfoldable pub append_uvarint : List ℕ → ℕ → List ℕ
unfolding append_groups
append_uvarint b v = append_groups 9 b v

-- The loop of `decodeUvarint`, with the rounds left until `shift >= 64` and `scale` for `1 << shift`.
-- The groups of bits that `v |= …` joins are disjoint, so the sum is that disjunction.
unfoldable pub decode_groups : ℕ → List ℕ → ℕ → ℕ → ℕ → Decoded (ℕ × ℕ)
decode_groups zero input p v scale = err varint_overflow
decode_groups (suc k) input p v scale = elim (get_elem? input p) [
  | none ↦ err truncated_varint
  | some b ↦
      let v' = (v + b % 128 * scale) % 2 ^ 64 in
      let rest = decode_groups k input (p + 1) v' (scale * 128) in
      if ltb b 128 then ok (v', p + 1) else rest
]

unfoldable pub decode_uvarint : List ℕ → ℕ → Decoded (ℕ × ℕ)
unfolding decode_groups
decode_uvarint input p = decode_groups 10 input p 0 1

-- `(n << 1) ^ (n >> 63)` of an `int64`, where n >> 63 is 0 or, below zero, all ones: 2n, or the
-- complement of 2n.
unfoldable pub zigzag : ℤ → ℕ
zigzag (pos n) = 2 * n % 2 ^ 64
zigzag (negsuc n) = (2 * n + 1) % 2 ^ 64

-- `(n >> 1) ^ -(n & 1)`: n / 2, or its complement where n is odd
unfoldable pub unzigzag : ℕ → ℤ
unzigzag n = if eqb (n % 2) 0 then pos (n / 2) else negsuc (n / 2)

unfoldable pub append_zigzag_varint : List ℕ → ℤ → List ℕ
unfolding append_uvarint zigzag
append_zigzag_varint b n = append_uvarint b (zigzag n)
