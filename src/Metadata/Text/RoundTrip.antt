-- ===== src/Metadata/Text/RoundTrip.antt =====
-- The text of a map key is read back as the key.
use bunnymq.Prelude.{
  ℕ, zero, suc, ◌+◌, ◌-◌, ◌*◌, ◌/◌, ◌%◌, ◌^◌, ◌<◌, ◌≤◌, ℤ, pos, negsuc, IsI32, none, some, [], ◌∷◌,
  ◌++◌, ◌≡◌, refl, sym, ap, ◌∙◌, arith, All, ltb, Bool-cases, inl, inr,
}
use bunnymq.Prelude.Keys.{Bytes}
use bunnymq.Prelude.Decimal.{digits, format_i64}
use bunnymq.Metadata.Types.{PartitionKey}
use bunnymq.Metadata.Text.{
  marshal_text, split_last, parse_digits, parse_number, positive, parse_i32, unmarshal_text,
}

-- Bytes that are digits or signs.
abbrev Printed : Bytes → Type 0
Printed l = All (λ b. 0 < b) l

All-snoc : (l : Bytes) (b : ℕ) → Printed l → 0 < b → Printed (l ++ (b ∷ []))
All-snoc [] b h k = (k, tt)
All-snoc (x ∷ l) b h k = (h.0, All-snoc l b h.1 k)

digits-Printed : (f n : ℕ) → Printed (digits f n)
unfolding digits
digits-Printed zero n = (omega arith, tt)
digits-Printed (suc f) n = elim (Bool-cases (ltb n 10)) [
  | inl p ↦ rw p (omega arith, tt)
  | inr p ↦
      rw p (All-snoc (digits f (n / 10)) (48 + n % 10) (digits-Printed f (n / 10)) (omega arith))
]

format_i64-Printed : (z : ℤ) → Printed (format_i64 z)
unfolding format_i64
format_i64-Printed (pos n) = digits-Printed 19 n
format_i64-Printed (negsuc n) = (omega arith, digits-Printed 19 (suc n))

split_last-none : (l : Bytes) → Printed l → split_last l ≡ none
unfolding split_last
split_last-none [] h = refl
split_last-none (x ∷ l) h = ground (arith, split_last-none l h.1)

split_last-append : (t l : Bytes) → Printed l → split_last (t ++ (0 ∷ l)) ≡ some (t, l)
unfolding split_last
split_last-append [] l h = rw (split_last-none l h) refl
split_last-append (x ∷ t) l h = rw (split_last-append t l h) refl

parse_digits-snoc :
    (a : ℕ) (l : Bytes) (d m : ℕ)
    → parse_digits a l ≡ some m
    → d < 10
    → parse_digits a (l ++ ((48 + d) ∷ [])) ≡ some (m * 10 + d)
unfolding parse_digits
parse_digits-snoc a [] d m h small = ground arith
parse_digits-snoc a (b ∷ l) d m h small =
    ground (arith, parse_digits-snoc (a * 10 + (b - 48)) l d m)

parse-digits : (f n : ℕ) → n < 10 ^ suc f → parse_digits 0 (digits f n) ≡ some n
unfolding digits parse_digits
parse-digits zero n h = ground arith
parse-digits (suc f) n h = elim (Bool-cases (ltb n 10)) [
  | inl p ↦ rw p (ground arith)
  | inr p ↦ rw p (
      parse_digits-snoc 0 (digits f (n / 10)) (n % 10) (n / 10)
        (parse-digits f (n / 10) (omega arith)) (omega arith)
      ∙ ap (λ (k : ℕ). some k) (omega arith))
]

-- A text that begins with a digit, so with no sign.
abbrev BeginsWithDigit : Bytes → Type 0
BeginsWithDigit [] = ⊥
BeginsWithDigit (b ∷ bs) = 48 ≤ b

BeginsWithDigit-append : (l m : Bytes) → BeginsWithDigit l → BeginsWithDigit (l ++ m)
BeginsWithDigit-append [] m h = absurd h
BeginsWithDigit-append (b ∷ l) m h = h

digits-BeginsWithDigit : (f n : ℕ) → BeginsWithDigit (digits f n)
unfolding digits
digits-BeginsWithDigit zero n = omega arith
digits-BeginsWithDigit (suc f) n = elim (Bool-cases (ltb n 10)) [
  | inl p ↦ rw p (omega arith)
  | inr p ↦ rw p (BeginsWithDigit-append (digits f (n / 10)) _ (digits-BeginsWithDigit f (n / 10)))
]

parse_number-unsigned :
    (l : Bytes) (n : ℕ)
    → BeginsWithDigit l
    → parse_digits 0 l ≡ some n
    → (parse_number l ≡ some n) × (parse_i32 l ≡ positive (some n))
unfolding parse_number parse_i32
parse_number-unsigned [] n b h = absurd b
parse_number-unsigned (c ∷ l) n b h = (h, ground arith)

parse_i32-format_i64 : (z : ℤ) → IsI32 z → parse_i32 (format_i64 z) ≡ some z
unfolding format_i64 parse_i32
parse_i32-format_i64 (pos n) h =
    (parse_number-unsigned (digits 19 n) n (digits-BeginsWithDigit 19 n)
      (parse-digits 19 n (omega arith))).1
    ∙ ground arith
parse_i32-format_i64 (negsuc n) h =
    let read =
      parse_number-unsigned (digits 19 (suc n)) (suc n) (digits-BeginsWithDigit 19 (suc n))
        (parse-digits 19 (suc n) (omega arith)) in
    rw read.0 (ground arith)

-- A key with any topic and a partition id that is an `int32` is read back from its text.
pub unmarshal_text-marshal_text :
    (k : PartitionKey) → IsI32 k.partition_id → unmarshal_text (marshal_text k) ≡ some k
unfolding unmarshal_text marshal_text
unmarshal_text-marshal_text k h =
    rw
      (
        unmarshal_text,
        marshal_text,
        split_last-append k.topic (format_i64 k.partition_id) (format_i64-Printed k.partition_id),
        parse_i32-format_i64 k.partition_id h,
      )
      refl

-- Different keys have different texts.
pub marshal_text-injective :
    (j k : PartitionKey)
    → IsI32 j.partition_id
    → IsI32 k.partition_id
    → marshal_text j ≡ marshal_text k
    → j ≡ k
marshal_text-injective j k h h' same = unwrap (
    sym (unmarshal_text-marshal_text j h)
    ∙ ap unmarshal_text same
    ∙ unmarshal_text-marshal_text k h')
  where
    unwrap : some j ≡ some k → j ≡ k
    unwrap p = cc
