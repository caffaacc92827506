-- ===== src/Prelude/Keys.antt =====
-- Keys of Go maps: decidable equality and total orders, with Go's byte strings.
use Prim.Native.Nat.{ℕ}
use Prim.Native.Char.{code}
use Prim.Native.String.{String}
use mathlib.Core.Path.{◌≡◌}
use mathlib.Core.Bool.{Bool, true, false, ◌&&◌}
use mathlib.Core.Logic.{◌↔◌, ◌⊎◌}
use mathlib.Core.List.{List, [], ◌∷◌}
use native.Mathlib.Omega.{arith}
use bunnymq.Prelude.Tests.{ltb, eqb, eqb_iff, if◌then◌else◌}

pub record Eq {κ} (K : Type κ) : Type κ where
  pub beq : K → K → Bool
  pub beq_iff : (j k : K) → (beq j k ≡ true) ↔ (j ≡ k)

-- A total order, as the comparison `less or equal`.
pub record Ord {ℓ} (A : Type ℓ) : Type ℓ where
  pub leq : A → A → Bool
  pub leq_total : (a b : A) → (leq a b ≡ true) ⊎ (leq b a ≡ true)
  pub leq_trans : (a b c : A) → leq a b ≡ true → leq b c ≡ true → leq a c ≡ true
  pub leq_antisymm : (a b : A) → leq a b ≡ true → leq b a ≡ true → a ≡ b

-- A Go string is the sequence of its bytes.
abbrev pub Bytes : Type 0
Bytes = List ℕ

-- The bytes of an ASCII text.
abbrev pub bytes : String → Bytes
bytes String.[] = []
bytes (String.◌∷◌ c s) = code c ∷ bytes s

unfoldable pub bytes_eq : Bytes → Bytes → Bool
bytes_eq [] [] = true
bytes_eq [] (y ∷ ys) = false
bytes_eq (x ∷ xs) [] = false
bytes_eq (x ∷ xs) (y ∷ ys) = eqb x y && bytes_eq xs ys

-- Go's `<=` on strings: byte by byte.
unfoldable pub bytes_le : Bytes → Bytes → Bool
bytes_le [] ys = true
bytes_le (x ∷ xs) [] = false
bytes_le (x ∷ xs) (y ∷ ys) =
    let rest = bytes_le xs ys in if ltb x y then true else if ltb y x then false else rest

bytes_eq→eq : (a b : Bytes) → bytes_eq a b ≡ true → a ≡ b
unfolding bytes_eq
bytes_eq→eq [] [] h = ground arith
bytes_eq→eq [] (y ∷ ys) h = ground arith
bytes_eq→eq (x ∷ xs) [] h = ground arith
bytes_eq→eq (x ∷ xs) (y ∷ ys) h = ground (arith, bytes_eq→eq xs ys)

bytes_eq_refl : (a : Bytes) → bytes_eq a a ≡ true
unfolding bytes_eq
bytes_eq_refl [] = ground arith
bytes_eq_refl (x ∷ xs) = ground (arith, bytes_eq_refl xs)

pub bytes_eq_iff : (a b : Bytes) → (bytes_eq a b ≡ true) ↔ (a ≡ b)
bytes_eq_iff a b = (bytes_eq→eq a b, λ p. rw p (bytes_eq_refl b))

pub bytes_le_total : (a b : Bytes) → (bytes_le a b ≡ true) ⊎ (bytes_le b a ≡ true)
unfolding bytes_le
bytes_le_total [] b = ground arith
bytes_le_total (x ∷ xs) [] = ground arith
bytes_le_total (x ∷ xs) (y ∷ ys) = ground (arith, bytes_le_total xs ys)

pub bytes_le_trans :
    (a b c : Bytes) → bytes_le a b ≡ true → bytes_le b c ≡ true → bytes_le a c ≡ true
unfolding bytes_le
bytes_le_trans [] b c h k = ground arith
bytes_le_trans (x ∷ xs) [] c h k = ground arith
bytes_le_trans (x ∷ xs) (y ∷ ys) [] h k = ground arith
bytes_le_trans (x ∷ xs) (y ∷ ys) (z ∷ zs) h k = ground (arith, bytes_le_trans xs ys zs)

pub bytes_le_antisymm : (a b : Bytes) → bytes_le a b ≡ true → bytes_le b a ≡ true → a ≡ b
unfolding bytes_le
bytes_le_antisymm [] [] h k = ground arith
bytes_le_antisymm [] (y ∷ ys) h k = ground arith
bytes_le_antisymm (x ∷ xs) [] h k = ground arith
bytes_le_antisymm (x ∷ xs) (y ∷ ys) h k = ground (arith, bytes_le_antisymm xs ys)

instance abbrev pub bytes-Eq : Eq Bytes
bytes-Eq = record { beq = bytes_eq; beq_iff = bytes_eq_iff }

instance abbrev pub nat-Eq : Eq ℕ
nat-Eq = record { beq = eqb; beq_iff = eqb_iff }

instance abbrev pub bytes-Ord : Ord Bytes
bytes-Ord = record {
  leq = bytes_le;
  leq_total = bytes_le_total;
  leq_trans = bytes_le_trans;
  leq_antisymm = bytes_le_antisymm;
}
