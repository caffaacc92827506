-- ===== src/Storage/LogSegment/Scan.antt =====
-- A scan of a log that is a sequence of batches visits them in their order.
use mathlib.Core.List.{append_assoc}
use bunnymq.Prelude.{
  ℕ, zero, suc, some, ◌+◌, ◌-◌, ◌≤◌, List, [], ◌∷◌, ◌++◌, length, take, drop, Bool, true, false,
  ltb, ◌||◌, ◌≡◌, refl, sym, ap, ◌∙◌, subst, arith, if◌then◌else◌, length-append, All, length-take,
  eqb_refl,
}
use bunnymq.Storage.BigEndian.{get_bytes}
use bunnymq.Storage.Slices.{slice-append, slice-within, slice-of_take}
use bunnymq.Storage.LogSegment.{field, read_at, full, batch_at, scan_from}

-- The bytes of a sequence of batches.
abbrev pub flatten : List (List ℕ) → List ℕ
flatten [] = []
flatten (b ∷ bs) = b ++ flatten bs

pub flatten-append : (xs ys : List (List ℕ)) → flatten (xs ++ ys) ≡ flatten xs ++ flatten ys
flatten-append [] ys = refl
flatten-append (x ∷ xs) ys =
    rw (flatten-append xs ys) (sym (append_assoc x (flatten xs) (flatten ys)))

-- A batch with a whole header, whose length field is its length.
abbrev pub IsFramed : List ℕ → Type 0
IsFramed b = (38 ≤ length b) × (field 8 12 b ≡ length b)

-- `ReadAt` where a batch begins, of its header and of the whole batch.
pub read_at-batch :
    (before b after : List ℕ) → read_at (before ++ (b ++ after)) (length before) (length b) ≡ full b
unfolding read_at
read_at-batch before b after =
    rw (slice-append (length before) before b after (length b) refl refl)
      (rw (eqb_refl (length b)) refl)

pub read_at-header :
    (before b after : List ℕ) (w : ℕ)
    → w ≤ length b
    → read_at (before ++ (b ++ after)) (length before) w ≡ full (take w b)
unfolding read_at
read_at-header before b after w h =
    let n : length (take w b) ≡ w = omega (arith, length-take w b) in
    rw (slice-within before b after w h) (rw (n, eqb_refl w) refl)

-- A field of the header is read off the bytes that have it.
pub field-take :
    (lo w n : ℕ) (b : List ℕ) → lo + w ≤ n → field lo (lo + w) (take n b) ≡ field lo (lo + w) b
field-take lo w n b h =
    let k : w ≡ lo + w - lo = omega arith in
    subst (λ (k : ℕ). get_bytes 0 (take k (drop lo (take n b))) ≡ get_bytes 0 (take k (drop lo b)))
      k (ap (get_bytes 0) (slice-of_take lo w n b h))

pub length-file :
    (before b after : List ℕ)
    → length (before ++ (b ++ after)) ≡ length before + length b + length after
length-file before b after = omega (arith, length-append before (b ++ after), length-append b after)

pub batch_at-batch :
    (before b after : List ℕ)
    → IsFramed b
    → batch_at (before ++ (b ++ after)) (length before) ≡ some b
unfolding batch_at
batch_at-batch before b after (long, framed) =
    let len : field 8 12 (take 12 b) ≡ length b = field-take 8 4 12 b (omega arith) ∙ framed in
    let whole : ltb (length b) 12
          || ltb (length (before ++ (b ++ after))) (length before + length b)
        ≡ false =
      ground (arith, length-file before b after) in
    rw
      (
        batch_at,
        read_at-header before b after 12 (omega arith),
        len,
        whole,
        read_at-batch before b after,
      )
      refl

module _ {ℓ} {S : Type ℓ} (callback : S → List ℕ → ℕ → S × Bool) where
  -- The batches are passed to the callback one after the other, with their positions.
  abbrev pub visit : ℕ → S → List (List ℕ) → S
  visit at s [] = s
  visit at s (b ∷ bs) =
      let after = callback s b at in
      let rest = visit (at + length b) after.0 bs in if after.1 then rest else after.0

  -- A scan of batches that follow other bytes of the file, with rounds enough, visits them.
  pub scan_from-visit :
      (before : List ℕ) (bs : List (List ℕ)) (k : ℕ) (s : S)
      → All IsFramed bs
      → length (flatten bs) ≤ k
      → scan_from callback k (before ++ flatten bs) (length before) s ≡ visit (length before) s bs
  unfolding scan_from
  scan_from-visit before [] zero s framed fuel = refl
  scan_from-visit before [] (suc k) s framed fuel =
      let at_end : ltb (length before) (length (before ++ [])) ≡ false =
        ground (arith, length-append before []) in
      rw at_end refl
  scan_from-visit before (b ∷ bs) zero s (now, later) fuel =
      absurd (omega (arith, now.0, length-append b (flatten bs)))
  scan_from-visit before (b ∷ bs) (suc k) s (now, later) fuel =
      let more : ltb (length before) (length (before ++ (b ++ flatten bs))) ≡ true =
        ground (arith, now.0, length-file before b (flatten bs)) in
      let after = callback s b (length before) in
      let file : before ++ (b ++ flatten bs) ≡ (before ++ b) ++ flatten bs =
        sym (append_assoc before b (flatten bs)) in
      let at : length before + length b ≡ length (before ++ b) = sym (length-append before b) in
      let rest : scan_from callback k (before ++ (b ++ flatten bs)) (length before + length b)
            after.0
          ≡ visit (length before + length b) after.0 bs =
        rw (file, at)
          (scan_from-visit (before ++ b) bs k after.0 later
            (omega (arith, now.0, length-append b (flatten bs)))) in
      rw (more, batch_at-batch before b (flatten bs) now, rest) refl
