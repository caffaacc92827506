-- ===== src/Storage/Segment/Read.antt =====
-- A read of a segment: the offset index only saves the scan the batches before the offset, and the
-- read answers a run of consecutive batches.
use mathlib.Core.List.{append_assoc, append-nil}
use bunnymq.Prelude.{
  ℕ, ◌+◌, ◌-◌, ◌^◌, ◌≤◌, ◌<◌, ℤ, pos, ◌-ℤ◌, ◌≤ℤ◌, leb_ℤ, ltb_ℤ, ltb, wrap_i32, wrap_i32_close, some,
  List, [], ◌∷◌, ◌++◌, length, length-append, Bool, true, false, ◌&&◌, ◌≡◌, refl, sym, ◌∙◌, ap,
  subst, arith, All, inl, inr, ◌⊎◌, Bool-cases, if◌then◌else◌,
}
use bunnymq.Storage.LogSegment.{scan}
use bunnymq.Storage.LogSegment.Scan.{flatten, flatten-append, visit, scan_from-visit}
use bunnymq.Storage.OffsetIndex.{OffsetEntry, read_entry}
use bunnymq.Storage.OffsetIndex.Lookup.{lookup_position_sound}
use bunnymq.Storage.Segment.{
  SegmentStorage, batch_base, record_count, Gathered, read_step, read_from, read_segment,
}
use bunnymq.Storage.Segment.Layout.{
  total, IsBatch, Numbered, PointsInto, Holds, All-IsFramed, batch_end-Numbered, Numbered-front,
  All-behind,
}

abbrev gathered : List ℕ → ℕ → Gathered
gathered bytes n = (bytes, pos n)

module _ (o : ℕ) (max_bytes : ℤ) where
  abbrev step : Gathered → List ℕ → ℕ → Gathered × Bool
  step = read_step (pos o) max_bytes

  -- A batch that ends before the offset is passed over.
  step-behind :
      (g : Gathered) (b : List ℕ) (n at : ℕ)
      → batch_base b ≡ pos n
      → n + record_count b < 2 ^ 63
      → n + record_count b ≤ o
      → step g b at ≡ (g, true)
  unfolding read_step
  step-behind g b n at base fits h =
      let passed : leb_ℤ (pos (n + record_count b)) (pos o) ≡ true = ground arith in
      rw (batch_end-Numbered b n base fits, passed) refl

  visit-behind :
      (n at : ℕ) (g : Gathered) (before after : List (List ℕ))
      → Numbered n before
      → n + total before ≤ o
      → visit step at g (before ++ after) ≡ visit step (at + length (flatten before)) g after
  visit-behind n at g [] after h k = ap (λ (at : ℕ). visit step at g after) (omega arith)
  visit-behind n at g (b ∷ before) after (base, fits, later) k =
      let here = step-behind g b n at base fits (omega arith) in
      let rest =
        visit-behind (n + record_count b) (at + length b) g before after later (omega arith) in
      let pos_eq : at + length b + length (flatten before) ≡ at + length (b ++ flatten before) =
        omega (arith, length-append b (flatten before)) in
      rw here (rest ∙ ap (λ (at : ℕ). visit step at g after) pos_eq)

  -- A batch that ends after the offset is gathered, unless bytes are there and it is too many.
  step-covering :
      (g : Gathered) (b : List ℕ) (n at : ℕ)
      → batch_base b ≡ pos n
      → n + record_count b < 2 ^ 63
      → o < n + record_count b
      → step g b at ≡ (
          if ltb 0 (length g.0) && ltb_ℤ max_bytes (pos (length g.0 + length b))
          then (g, false)
          else ((g.0 ++ b, pos (n + record_count b)), true))
  unfolding read_step
  step-covering g b n at base fits h =
      let covers : leb_ℤ (pos (n + record_count b)) (pos o) ≡ false = ground arith in
      rw (batch_end-Numbered b n base fits, covers) refl

  -- From offset m on, with bytes gathered: a run of the batches is added, which is empty or stays
  -- within the bound.
  abbrev pub Run : ℕ → List ℕ → List (List ℕ) → Gathered → Type 0
  Run m bytes bs r =
      (run : List (List ℕ)) × (rest : List (List ℕ)) × (bs ≡ run ++ rest)
      × (r ≡ (bytes ++ flatten run, pos (m + total run)))
      × ((run ≡ []) ⊎ (pos (length (bytes ++ flatten run)) ≤ℤ max_bytes))

  -- Nothing is added.
  no-Run : (m : ℕ) (bytes : List ℕ) (bs : List (List ℕ)) → Run m bytes bs (bytes, pos m)
  no-Run m bytes bs =
      let same : gathered bytes m ≡ gathered (bytes ++ flatten []) (m + total []) =
        rw (append-nil bytes) (ap (λ (k : ℕ). (bytes, pos k)) (omega arith)) in
      ([], bs, refl, same, inl refl)

  -- A batch is added, and then a run of the later ones.
  longer-Run :
      (m : ℕ) (bytes b : List ℕ) (bs : List (List ℕ)) (r : Gathered)
      → pos (length bytes + length b) ≤ℤ max_bytes
      → Run (m + record_count b) (bytes ++ b) bs r
      → Run m bytes (b ∷ bs) r
  longer-Run m bytes b bs r fits (run, rest, split, same, bound) =
      (b ∷ run, rest, ap (λ l. b ∷ l) split, same ∙ moved, inr (within bound))
    where
      moved :
          gathered ((bytes ++ b) ++ flatten run) (m + record_count b + total run)
          ≡ gathered (bytes ++ (b ++ flatten run)) (m + (record_count b + total run))
      moved =
          rw (append_assoc bytes b (flatten run))
            (ap (λ (k : ℕ). (bytes ++ (b ++ flatten run), pos k)) (omega arith))

      within :
          (run ≡ []) ⊎ (pos (length ((bytes ++ b) ++ flatten run)) ≤ℤ max_bytes)
          → pos (length (bytes ++ (b ++ flatten run))) ≤ℤ max_bytes
      within (inl none_more) = rw (none_more, append-nil b, length-append bytes b) fits
      within (inr h) = rw (sym (append_assoc bytes b (flatten run))) h

  gather :
      (m at : ℕ) (bytes : List ℕ) (bs : List (List ℕ))
      → 0 < length bytes
      → o < m
      → Numbered m bs
      → Run m bytes bs (visit step at (bytes, pos m) bs)
  gather m at bytes [] some_bytes h numbered = no-Run m bytes []
  gather m at bytes (b ∷ bs) some_bytes h (base, fits, later) =
      let here = step-covering (bytes, pos m) b m at base fits (omega arith) in
      let rest =
        gather (m + record_count b) (at + length b) (bytes ++ b) bs
          (omega (arith, length-append bytes b)) (omega arith) later in
      elim (Bool-cases (ltb 0 (length bytes) && ltb_ℤ max_bytes (pos (length bytes + length b)))) [
        | inl stop ↦ rw (here, stop) (no-Run m bytes (b ∷ bs))
        | inr more ↦ rw (here, more) (longer-Run m bytes b bs _ (ground arith) rest)
      ]

  -- Of batches that begin at offset n: a run of them that is not empty, the first batch of which
  -- covers the offset looked for, the later ones only within the bound.
  abbrev pub Covers : ℕ → List (List ℕ) → Gathered → Type 0
  Covers n bs r =
      (before : List (List ℕ)) × (b : List ℕ) × (run : List (List ℕ)) × (rest : List (List ℕ)) × (bs
        ≡ before ++ (b ∷ run ++ rest))
      × (n + total before ≤ o)
      × (o < n + total before + record_count b)
      × (r ≡ (b ++ flatten run, pos (n + total before + record_count b + total run)))
      × ((run ≡ []) ⊎ (pos (length (b ++ flatten run)) ≤ℤ max_bytes))

  first-Covers :
      (n at : ℕ) (bs : List (List ℕ))
      → All IsBatch bs
      → Numbered n bs
      → n ≤ o
      → o < n + total bs
      → Covers n bs (visit step at ([], pos o) bs)
  first-Covers n at [] batches numbered from below = absurd (omega arith)
  first-Covers n at (b ∷ bs) (((long, framed), one, fit), others) (base, fits, later) from below =
      elim (Bool-cases (ltb o (n + record_count b))) [
        | inl here ↦
            let (run, rest, split, same, bound) =
              gather (n + record_count b) (at + length b) b bs (omega arith) (ground arith) later in
            rw (step-covering ([], pos o) b n at base fits (ground arith)) (
              [],
              b,
              run,
              rest,
              ap (λ l. b ∷ l) split,
              omega (arith, from),
              ground arith,
              same ∙ ap (gathered (b ++ flatten run)) (omega arith),
              bound,
            )
        | inr before ↦
            let (skip, c, run, rest, split, low, high, same, bound) =
              first-Covers (n + record_count b) (at + length b) bs others later (ground arith)
                (omega arith) in
            rw (step-behind ([], pos o) b n at base fits (ground arith)) (
              b ∷ skip,
              c,
              run,
              rest,
              ap (λ l. b ∷ l) split,
              omega arith,
              omega arith,
              same ∙ ap (gathered (c ++ flatten run)) (omega arith),
              bound,
            )
      ]

  scan-visit :
      (before bs : List (List ℕ)) (s : SegmentStorage)
      → s.log.bytes ≡ flatten (before ++ bs)
      → All IsBatch bs
      → scan step s.log (length (flatten before)) ([], pos o)
        ≡ visit step (length (flatten before)) ([], pos o) bs
  scan-visit before bs s bytes batches =
      rw (bytes, flatten-append before bs)
        (scan_from-visit step (flatten before) bs (length (flatten before ++ flatten bs))
          ([], pos o) (All-IsFramed bs batches)
          (omega (arith, length-append (flatten before) (flatten bs))))

module _ (s : SegmentStorage) (n o : ℕ) (max_bytes : ℤ) (bs : List (List ℕ)) where
  whole : Gathered
  whole = visit (read_step (pos o) max_bytes) 0 ([], pos o) bs

  from_entry :
      (e : OffsetEntry)
      → s.log.bytes ≡ flatten bs
      → All IsBatch bs
      → Numbered n bs
      → n ≤ o
      → PointsInto bs e
      → e.relative_offset ≤ℤ pos (o - n)
      → read_from s (pos o) max_bytes (some e.position) ≡ whole
  unfolding whole
  from_entry e bytes batches numbered from (before, after, split, at, rel) passed =
      rw (at, split)
        (scan-visit o max_bytes before after s (bytes ∙ ap flatten split)
            (All-behind IsBatch before after (subst (All IsBatch) split batches))
          ∙ ap (λ (k : ℕ). visit (step o max_bytes) k ([], pos o) after) (omega arith)
          ∙ sym (
              visit-behind o max_bytes n 0 ([], pos o) before after
                (Numbered-front n before after (subst (Numbered n) split numbered))
                (omega (arith, subst (λ z. z ≤ℤ pos (o - n)) rel passed))))

  -- A read of a segment from an offset that is not below it, and less than 2 ^ 31 above its base
  -- offset, is the scan of all its batches: what the offset index saves the scan is nothing but
  -- batches that end before the offset.
  pub read_segment-visit :
      Holds s n bs
      → n ≤ o
      → o - n < 2 ^ 31
      → read_segment s (pos o) max_bytes ≡ visit (read_step (pos o) max_bytes) 0 ([], pos o) bs
  unfolding whole read_segment
  read_segment-visit (base, bytes, batches, numbered, index) from near =
      let rel : wrap_i32 (pos o -ℤ s.base_offset) ≡ pos (o - n) =
        ap (λ z. wrap_i32 (pos o -ℤ z)) base ∙ wrap_i32_close o n from near in
      rw (read_segment, rel)
        (elim (lookup_position_sound s.offset_idx (pos (o - n))) [
          | inl nothing ↦ rw nothing (scan-visit o max_bytes [] bs s bytes batches)
          | inr (i, below, found, passed) ↦ rw found (
              from_entry (read_entry s.offset_idx.mapped i) bytes batches numbered from
                (index i below) passed)
        ])

  -- A read of a segment at an offset that it covers answers the bytes of a run of its batches, the
  -- first of which covers the offset, and the offset after the last.
  pub read_segment-Covers :
      Holds s n bs
      → n ≤ o
      → o < n + total bs
      → o - n < 2 ^ 31
      → Covers o max_bytes n bs (read_segment s (pos o) max_bytes)
  read_segment-Covers holds from below near =
      let (base, bytes, batches, numbered, index) = holds in
      rw (read_segment-visit holds from near)
        (first-Covers o max_bytes n 0 bs batches numbered from below)
