-- ===== src/Storage/Log/Locate.antt =====
-- The binary search of a read finds the segment that covers the offset.
use mathlib.Core.List.{append_assoc}
use bunnymq.Prelude.{
  ℕ, zero, suc, ◌+◌, ◌-◌, ◌/◌, ◌^◌, ◌≤◌, ◌<◌, pos, leb_ℤ, List, [], ◌∷◌, ◌++◌, length, get_elem?,
  Bool, true, false, ltb, ◌≡◌, refl, sym, ◌∙◌, ap, subst, arith, some, Bool-cases, inl, inr,
  if_rule,
}
use bunnymq.Storage.Segment.{SegmentStorage}
use bunnymq.Storage.Segment.Layout.{total, total-append, Holds}
use bunnymq.Storage.Log.{begins_by, last_beginning}
use bunnymq.Storage.Log.Contains.{Chain}

module _ (test : ℕ → Bool) (n : ℕ) where
  abbrev IsLast : ℕ → Type 0
  IsLast i = (test i ≡ true) × ((j : ℕ) → i < j → j < n → test j ≡ false)

  -- The binary search finds the last index that passes, where those that pass come first.
  pub last_beginning-IsLast :
      (k lo hi : ℕ)
      → ((i j : ℕ) → i ≤ j → test j ≡ true → test i ≡ true)
      → lo ≤ hi
      → hi ≤ lo + k
      → test lo ≡ true
      → ((j : ℕ) → hi < j → j < n → test j ≡ false)
      → IsLast (last_beginning test k lo hi)
  unfolding last_beginning
  last_beginning-IsLast zero lo hi mono order fuel low high = (low, λ j p q. high j (omega arith) q)
  last_beginning-IsLast (suc k) lo hi mono order fuel low high =
      if_rule IsLast (ltb lo hi)
        (λ more.
          if_rule IsLast (test ((lo + hi + 1) / 2))
            (λ holds.
              last_beginning-IsLast k ((lo + hi + 1) / 2) hi mono (ground arith) (ground arith)
                holds high)
            (λ fails.
              last_beginning-IsLast k lo ((lo + hi + 1) / 2 - 1) mono (ground arith) (ground arith)
                low (λ j p q. above ((lo + hi + 1) / 2) j fails (ground arith))))
        (λ done. (low, λ j p q. high j (ground arith) q))
    where
      above : (m j : ℕ) → test m ≡ false → m ≤ j → test j ≡ false
      above m j fails p = elim (Bool-cases (test j)) [
        | inl holds ↦ ground (arith, mono m j p holds)
        | inr b ↦ b
      ]

module _ (o : ℕ) where
  begins_from :
      (segs : List SegmentStorage) (n : ℕ) (log : List (List ℕ)) (j : ℕ)
      → Chain segs n log
      → begins_by segs (pos o) j ≡ true
      → n ≤ o
  begins_from [] n log j chained h = ground arith
  begins_from (s ∷ segs) n log zero (bs, rest, split, held, small, chained) h =
      let at : leb_ℤ (pos n) (pos o) ≡ true = ap (λ z. leb_ℤ z (pos o)) (sym held.0) ∙ h in
      ground arith
  begins_from (s ∷ segs) n log (suc j) (bs, rest, split, held, small, chained) h =
      omega (arith, begins_from segs (n + total bs) rest j chained h)

  pub begins_mono :
      (segs : List SegmentStorage) (n : ℕ) (log : List (List ℕ))
      → Chain segs n log
      → (i j : ℕ) → i ≤ j
      → begins_by segs (pos o) j ≡ true
      → begins_by segs (pos o) i ≡ true
  begins_mono [] n log chained i j p h = ground arith
  begins_mono (s ∷ segs) n log chained zero j p h =
      let from = begins_from (s ∷ segs) n log j chained h in
      let at : leb_ℤ (pos n) (pos o) ≡ true = ground arith in
      ap (λ z. leb_ℤ z (pos o)) chained.3.0 ∙ at
  begins_mono (s ∷ segs) n log chained (suc i) zero p h = absurd (omega arith)
  begins_mono (s ∷ segs) n log (bs, rest, split, held, small, chained) (suc i) (suc j) p h =
      begins_mono segs (n + total bs) rest chained i j (omega arith) h

  -- The segment at an index holds the batches that cover the offset.
  abbrev Located : List SegmentStorage → ℕ → List (List ℕ) → ℕ → Type 0
  Located segs n log i =
      (seg : SegmentStorage) × (before : List (List ℕ)) × (bs : List (List ℕ)) × (after : List
        (List ℕ))
      × (get_elem? segs i ≡ some seg)
      × (log ≡ before ++ (bs ++ after))
      × Holds seg (n + total before) bs
      × (length seg.log.bytes < 2 ^ 31)
      × (n + total before ≤ o)
      × (o < n + total before + total bs)

  pub locate :
      (segs : List SegmentStorage) (n : ℕ) (log : List (List ℕ))
      → Chain segs n log
      → (i : ℕ) → begins_by segs (pos o) i ≡ true
      → ((j : ℕ) → i < j → j < length segs → begins_by segs (pos o) j ≡ false)
      → o < n + total log
      → Located segs n log i
  locate [] n log chained i h later below = absurd (ground arith)
  locate (s ∷ segs) n log (bs, rest, split, held, small, chained) zero h later below =
      let from = begins_from (s ∷ segs) n log zero (bs, rest, split, held, small, chained) h in
      (
        s,
        [],
        bs,
        rest,
        refl,
        split,
        subst (λ (m : ℕ). Holds s m bs) (omega arith) held,
        small,
        omega arith,
        ends segs chained later,
      )
    where
      ends :
          (segs : List SegmentStorage)
          → Chain segs (n + total bs) rest
          → ((j : ℕ) → 0 < j → j < length (s ∷ segs) → begins_by (s ∷ segs) (pos o) j ≡ false)
          → o < n + total [] + total bs
      ends [] chained later =
          omega (arith, ap total split, total-append bs rest, ap total chained, below)
      ends (t ∷ segs) (b, r, e, held', m, k) later =
          let passed : leb_ℤ (pos (n + total bs)) (pos o) ≡ false =
            ap (λ z. leb_ℤ z (pos o)) (sym held'.0) ∙ later 1 (omega arith) (omega arith) in
          ground arith
  locate (s ∷ segs) n log (bs, rest, split, held, small, chained) (suc i) h later below =
      let (seg, before, b, after, found, split', held', small', low, high) =
        locate segs (n + total bs) rest chained i h
          (λ j p q. later (suc j) (omega arith) (omega arith))
          (omega (arith, ap total split, total-append bs rest)) in
      let at : n + total (bs ++ before) ≡ n + total bs + total before =
        omega (arith, total-append bs before) in
      (
        seg,
        bs ++ before,
        b,
        after,
        found,
        split
            ∙ ap (λ (l : List (List ℕ)). bs ++ l) split'
            ∙ sym (append_assoc bs before (b ++ after)),
        subst (λ (m : ℕ). Holds seg m b) (sym at) held',
        small',
        omega arith,
        omega arith,
      )
