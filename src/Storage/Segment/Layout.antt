-- ===== src/Storage/Segment/Layout.antt =====
-- What a segment's file and offset index hold: a sequence of batches with consecutive offsets, and
-- entries that point to the beginnings of some of them.
use bunnymq.Prelude.{
  ℕ, ◌+◌, ◌^◌, ◌≤◌, ◌<◌, ℤ, pos, ◌+ℤ◌, to_u64, of_u64, List, [], ◌∷◌, ◌++◌, length, length-append,
  ◌≡◌, ◌∙◌, ap, subst, arith, All,
}
use bunnymq.Storage.Records.{wrap_i64}
use bunnymq.Storage.OffsetIndex.{OffsetIndexSegment, OffsetEntry, read_entry}
use bunnymq.Storage.LogSegment.Scan.{flatten, IsFramed}
use bunnymq.Storage.Segment.{SegmentStorage, batch_base, record_count, batch_end}

-- The records of a sequence of batches.
abbrev pub total : List (List ℕ) → ℕ
total [] = 0
total (b ∷ bs) = record_count b + total bs

-- A framed batch of one record at least, where a record takes one byte at least.
abbrev pub IsBatch : List ℕ → Type 0
IsBatch b = IsFramed b × (1 ≤ record_count b) × (record_count b ≤ length b)

-- The batches have consecutive offsets, from the first one's on.
abbrev pub Numbered : ℕ → List (List ℕ) → Type 0
Numbered n [] = Unit
Numbered n (b ∷ bs) =
    (batch_base b ≡ pos n) × (n + record_count b < 2 ^ 63) × Numbered (n + record_count b) bs

-- Every batch begins below a limit, where the first one begins at a position.
abbrev pub BeginsBelow : ℕ → ℕ → List (List ℕ) → Type 0
BeginsBelow limit at [] = Unit
BeginsBelow limit at (b ∷ bs) = (at < limit) × BeginsBelow limit (at + length b) bs

-- The entry points to the beginning of a batch, or to the end.
abbrev pub PointsInto : List (List ℕ) → OffsetEntry → Type 0
PointsInto bs e =
    (before : List (List ℕ)) × (after : List (List ℕ)) × (bs ≡ before ++ after)
    × (e.position ≡ pos (length (flatten before)))
    × (e.relative_offset ≡ pos (total before))

abbrev pub IsIndexOf : List (List ℕ) → OffsetIndexSegment → Type 0
IsIndexOf bs idx = (i : ℕ) → i < idx.entry_count → PointsInto bs (read_entry idx.mapped i)

-- A segment that begins at an offset and holds a sequence of batches.
abbrev pub Holds : SegmentStorage → ℕ → List (List ℕ) → Type 0
Holds s n bs =
    (s.base_offset ≡ pos n)
    × (s.log.bytes ≡ flatten bs)
    × All IsBatch bs
    × Numbered n bs
    × IsIndexOf bs s.offset_idx

pub All-IsFramed : (bs : List (List ℕ)) → All IsBatch bs → All IsFramed bs
All-IsFramed [] h = tt
All-IsFramed (b ∷ bs) (now, later) = (now.0, All-IsFramed bs later)

pub batch_end-Numbered :
    (b : List ℕ) (n : ℕ)
    → batch_base b ≡ pos n
    → n + record_count b < 2 ^ 63
    → batch_end b ≡ pos (n + record_count b)
unfolding to_u64 of_u64 ◌+ℤ◌
batch_end-Numbered b n h k =
    ap (λ (z : ℤ). wrap_i64 (z +ℤ pos (record_count b))) h ∙ small (record_count b) k
  where
    small : (c : ℕ) → n + c < 2 ^ 63 → wrap_i64 (pos n +ℤ pos c) ≡ pos (n + c)
    small c k = ground arith

pub total-append : (xs ys : List (List ℕ)) → total (xs ++ ys) ≡ total xs + total ys
total-append [] ys = omega arith
total-append (x ∷ xs) ys = omega (arith, total-append xs ys)

pub Numbered-append :
    (n : ℕ) (xs ys : List (List ℕ))
    → Numbered n xs
    → Numbered (n + total xs) ys
    → Numbered n (xs ++ ys)
Numbered-append n [] ys h k = subst (λ (m : ℕ). Numbered m ys) (omega arith) k
Numbered-append n (x ∷ xs) ys (base, fits, later) k = (
  base,
  fits,
  Numbered-append (n + record_count x) xs ys later
      (subst (λ (m : ℕ). Numbered m ys) (omega arith) k),
)

pub Numbered-behind :
    (n : ℕ) (xs ys : List (List ℕ)) → Numbered n (xs ++ ys) → Numbered (n + total xs) ys
Numbered-behind n [] ys h = subst (λ (m : ℕ). Numbered m ys) (omega arith) h
Numbered-behind n (x ∷ xs) ys (base, fits, later) =
    subst (λ (m : ℕ). Numbered m ys) (omega arith)
      (Numbered-behind (n + record_count x) xs ys later)

pub Numbered-front : (n : ℕ) (xs ys : List (List ℕ)) → Numbered n (xs ++ ys) → Numbered n xs
Numbered-front n [] ys h = tt
Numbered-front n (x ∷ xs) ys (base, fits, later) =
    (base, fits, Numbered-front (n + record_count x) xs ys later)

module _ {ℓ κ} {A : Type ℓ} (P : A → Type κ) where
  pub All-append : (xs ys : List A) → All P xs → All P ys → All P (xs ++ ys)
  All-append [] ys h k = k
  All-append (x ∷ xs) ys (now, later) k = (now, All-append xs ys later k)

  pub All-behind : (xs ys : List A) → All P (xs ++ ys) → All P ys
  All-behind [] ys h = h
  All-behind (x ∷ xs) ys (now, later) = All-behind xs ys later

  pub All-front : (xs ys : List A) → All P (xs ++ ys) → All P xs
  All-front [] ys h = tt
  All-front (x ∷ xs) ys (now, later) = (now, All-front xs ys later)

-- Batches that end below a limit begin below it.
pub BeginsBelow-small :
    (limit at : ℕ) (bs : List (List ℕ)) → at + length (flatten bs) < limit → BeginsBelow limit at bs
BeginsBelow-small limit at [] small = tt
BeginsBelow-small limit at (b ∷ bs) small =
    let size = length-append b (flatten bs) in
    (omega arith, BeginsBelow-small limit (at + length b) bs (omega (arith, size, small)))

-- What stands before a batch ends below the limit.
pub BeginsBelow-kept :
    (limit at : ℕ) (kept : List (List ℕ)) (b : List ℕ) (cut : List (List ℕ))
    → BeginsBelow limit at (kept ++ (b ∷ cut))
    → at + length (flatten kept) < limit
BeginsBelow-kept limit at [] b cut (now, later) = omega arith
BeginsBelow-kept limit at (x ∷ kept) b cut (now, later) =
    omega (
      arith,
      length-append x (flatten kept),
      BeginsBelow-kept limit (at + length x) kept b cut later,
    )
