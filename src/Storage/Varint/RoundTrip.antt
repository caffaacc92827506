-- ===== src/Storage/Varint/RoundTrip.antt =====
-- Varints are read back as they are written.
use mathlib.Core.List.{append_assoc}
use native.Mathlib.Nat.{div-add-mod}
use bunnymq.Prelude.{
  ℕ, zero, suc, ◌+◌, ◌*◌, ◌/◌, ◌%◌, ◌^◌, ◌<◌, ℤ, pos, negsuc, IsI64, some, List, [], ◌∷◌, ◌++◌, ◌≡◌,
  refl, ap, ◌∙◌, arith, length, length-append, get_elem?, ltb, ltb→lt, if◌then◌else◌, inl, inr,
  Bool-cases, false,
}
use bunnymq.Storage.Decoded.{ok}
use bunnymq.Storage.Varint.{
  append_groups, append_uvarint, decode_groups, decode_uvarint, zigzag, unzigzag,
}

-- Division and remainder by 128, under a factor.
split_scaled : (v s : ℕ) → v % 128 * s + v / 128 * (s * 128) ≡ v * s
split_scaled v s = omega (arith, ap (λ (t : ℕ). t * s) (div-add-mod v 128))

get_elem-append : (pre post : List ℕ) (x : ℕ) → get_elem? (pre ++ (x ∷ post)) (length pre) ≡ some x
get_elem-append [] post x = refl
get_elem-append (y ∷ pre) post x = get_elem-append pre post x

-- What is written stands after what was there.
pub append_groups_prefix :
    (k : ℕ) (pre : List ℕ) (v : ℕ) → append_groups k pre v ≡ pre ++ append_groups k [] v
unfolding append_groups
append_groups_prefix zero pre v = refl
append_groups_prefix (suc k) pre v = elim (Bool-cases (ltb v 128)) [
  | inl p ↦ rw p refl
  | inr p ↦
      rw
        (
          p,
          append_groups_prefix k (pre ++ ((v % 128 + 128) ∷ [])) (v / 128),
          append_groups_prefix k ((v % 128 + 128) ∷ []) (v / 128),
        )
        (append_assoc pre _ _)
]

decode_one :
    (r : ℕ) (input : List ℕ) (p acc scale b : ℕ)
    → get_elem? input p ≡ some b
    → decode_groups (suc r) input p acc scale ≡ (
        if ltb b 128
        then ok ((acc + b % 128 * scale) % 2 ^ 64, p + 1)
        else decode_groups r input (p + 1) ((acc + b % 128 * scale) % 2 ^ 64) (scale * 128))
unfolding decode_groups
decode_one r input p acc scale b h = rw (decode_groups, h) refl

quotient-lt : (k v : ℕ) → v < 128 ^ suc (suc k) → v / 128 < 128 ^ suc k
quotient-lt k v h = omega arith

-- The last byte of a number.
decode_last :
    (r : ℕ) (pre post : List ℕ) (v acc scale : ℕ)
    → v < 128
    → acc + v * scale < 2 ^ 64
    → decode_groups (suc r) ((pre ++ (v ∷ [])) ++ post) (length pre) acc scale
      ≡ ok (acc + v * scale, length (pre ++ (v ∷ [])))
decode_last r pre post v acc scale small fits =
    decode_one r _ (length pre) acc scale v (
      ap (λ l. get_elem? l (length pre)) (append_assoc pre (v ∷ []) post)
      ∙ get_elem-append pre post v)
    ∙ ground (arith, length-append pre (v ∷ []))

-- A byte before the last one.
decode_inner :
    (r : ℕ) (input : List ℕ) (p g acc scale : ℕ)
    → get_elem? input p ≡ some (g + 128)
    → g < 128
    → acc + g * scale < 2 ^ 64
    → decode_groups (suc r) input p acc scale
      ≡ decode_groups r input (p + 1) (acc + g * scale) (scale * 128)
decode_inner r input p g acc scale h small fits =
    let low : (g + 128) % 128 ≡ g = omega arith in
    let whole : (acc + g * scale) % 2 ^ 64 ≡ acc + g * scale = omega arith in
    let large : ltb (g + 128) 128 ≡ false = ground arith in
    decode_one r input p acc scale (g + 128) h ∙ rw (low, whole, large) refl

decode-append_groups :
    (k r : ℕ) (pre post : List ℕ) (v acc scale : ℕ)
    → v < 128 ^ suc k
    → acc + v * scale < 2 ^ 64
    → k < r
    → decode_groups r (append_groups k pre v ++ post) (length pre) acc scale
      ≡ ok (acc + v * scale, length (append_groups k pre v))
unfolding append_groups
decode-append_groups k zero pre post v acc scale small fits rounds = absurd (omega arith)
decode-append_groups zero (suc r) pre post v acc scale small fits rounds =
    let short : v < 128 = omega arith in
    let whole : v % 256 ≡ v = omega arith in
    rw whole (decode_last r pre post v acc scale short fits)
decode-append_groups (suc k) (suc r) pre post v acc scale small fits rounds =
    elim (Bool-cases (ltb v 128)) [
      | inl p ↦ rw p (decode_last r pre post v acc scale (ltb→lt v 128 p) fits)
      | inr p ↦ rw p (
          decode_inner r (longer ++ post) (length pre) (v % 128) acc scale next (omega arith)
            (omega (arith, split_scaled v scale))
          ∙ ap (λ n. decode_groups r (longer ++ post) n (acc + v % 128 * scale) (scale * 128))
              after_one
          ∙ decode-append_groups k r (pre ++ ((v % 128 + 128) ∷ [])) post (v / 128) _ _
              (quotient-lt k v small) (omega (arith, split_scaled v scale)) (omega arith)
          ∙ ap (λ n. ok (n, length longer)) (omega (arith, split_scaled v scale)))
    ]
  where
    longer : List ℕ
    longer = append_groups k (pre ++ ((v % 128 + 128) ∷ [])) (v / 128)

    after_one : length pre + 1 ≡ length (pre ++ ((v % 128 + 128) ∷ []))
    after_one = omega (arith, length-append pre ((v % 128 + 128) ∷ []))

    next :
        get_elem? (append_groups k (pre ++ ((v % 128 + 128) ∷ [])) (v / 128) ++ post) (length pre)
        ≡ some (v % 128 + 128)
    next = rw (append_groups_prefix k (pre ++ ((v % 128 + 128) ∷ [])) (v / 128)) (
        ap (λ l. get_elem? l (length pre))
          (ap (λ l. l ++ post) (append_assoc pre ((v % 128 + 128) ∷ []) _)
            ∙ append_assoc pre ((v % 128 + 128) ∷ append_groups k [] (v / 128)) post)
        ∙ get_elem-append pre _ (v % 128 + 128))

-- A `uint64` that is appended to a slice is read back from its place, whatever follows it, with the
-- position after it.
pub decode-append_uvarint :
    (pre post : List ℕ) (v : ℕ)
    → v < 2 ^ 64
    → decode_uvarint (append_uvarint pre v ++ post) (length pre)
      ≡ ok (v, length (append_uvarint pre v))
unfolding decode_uvarint append_uvarint
decode-append_uvarint pre post v h =
    decode-append_groups 9 10 pre post v 0 1 (omega arith) (omega arith) (omega arith)
    ∙ ap (λ n. ok (n, length (append_groups 9 pre v))) (omega arith)

-- `unzigzag` undoes `zigzag` on every `int64`.
pub unzigzag-zigzag : (n : ℤ) → IsI64 n → unzigzag (zigzag n) ≡ n
unfolding unzigzag zigzag
unzigzag-zigzag (pos n) h = ground arith
unzigzag-zigzag (negsuc n) h = ground arith
