-- ===== src/Storage/Recovery/Scan.antt =====
-- The recovery scan of an active log: it accepts the valid batches at the beginning, and stops there.
use mathlib.Core.List.{append_assoc, append-nil}
use bunnymq.Prelude.{
  ℕ, zero, suc, ◌+◌, ◌-◌, ◌≤◌, ℤ, List, [], ◌∷◌, ◌++◌, length, length-append, length-take,
  length-drop, take, drop, take-append-drop, true, false, ltb, eqb, eqb_refl, eqb_iff, ◌||◌, ◌≡◌,
  refl, sym, ◌∙◌, ap, subst, arith, All, of_u64, if_rule,
}
use bunnymq.Storage.BigEndian.{slice_of}
use bunnymq.Storage.Slices.{slice-append, slice-within, slice-front}
use bunnymq.Storage.LogSegment.{field}
use bunnymq.Storage.LogSegment.Scan.{flatten, IsFramed, field-take, length-file}
use bunnymq.Storage.Segment.{batch_end}
use bunnymq.Storage.Recovery.{
  ActiveRound, incomplete, crc_failed, valid, ActiveScan, round_at, scan_active,
}

-- The end of the last batch, or an offset where there is none.
abbrev pub last_end : ℤ → List (List ℕ) → ℤ
last_end offset [] = offset
last_end offset (b ∷ bs) = last_end (batch_end b) bs

batch_end-header : (b : List ℕ) → batch_end (take 38 b) ≡ batch_end b
batch_end-header b = cc (field-take 0 8 38 b (omega arith), field-take 12 4 38 b (omega arith))

module _ (checksum : List ℕ → ℕ) where
  -- A whole batch whose checksum is that of its header.
  abbrev pub IsValid : List ℕ → Type 0
  IsValid b = IsFramed b × (checksum (drop 38 b) ≡ field 16 20 b)

  -- No valid batch begins here.
  abbrev pub IsTorn : List ℕ → Type 0
  IsTorn tail = (b after : List ℕ) → tail ≡ b ++ after → ¬ IsValid b

  records-slice :
      (before b after : List ℕ)
      → 38 ≤ length b
      → slice_of (length before + 38) (length before + length b) (before ++ (b ++ after))
        ≡ drop 38 b
  records-slice before b after long =
      let front : length (take 38 b) ≡ 38 = omega (arith, length-take 38 b) in
      let whole : (before ++ take 38 b) ++ (drop 38 b ++ after) ≡ before ++ (b ++ after) =
        append_assoc before (take 38 b) (drop 38 b ++ after)
        ∙ ap (λ l. before ++ l)
            (sym (append_assoc (take 38 b) (drop 38 b) after)
              ∙ ap (λ l. l ++ after) (take-append-drop 38 b)) in
      let end : length before + 38 + length (drop 38 b) ≡ length before + length b =
        omega (arith, length-drop 38 b) in
      subst (λ l. slice_of (length before + 38) (length before + length b) l ≡ drop 38 b) whole
        (subst
          (λ (k : ℕ).
            slice_of (length before + 38) k ((before ++ take 38 b) ++ (drop 38 b ++ after))
            ≡ drop 38 b)
          end
          (slice-append (length before + 38) (before ++ take 38 b) (drop 38 b) after
            (length (drop 38 b)) (omega (arith, length-append before (take 38 b), front)) refl))

  round_at-valid :
      (before b after : List ℕ)
      → IsValid b
      → round_at checksum (before ++ (b ++ after)) (length before) ≡ valid (length b) (batch_end b)
  unfolding round_at of_u64
  round_at-valid before b after ((long, framed), checked) =
      let header = slice-within before b after 38 long in
      let len : field 8 12 (take 38 b) ≡ length b = field-take 8 4 38 b (omega arith) ∙ framed in
      let crc : eqb (checksum (drop 38 b)) (field 16 20 (take 38 b)) ≡ true =
        ap (λ (n : ℕ). eqb n (field 16 20 (take 38 b)))
          (checked ∙ sym (field-take 16 4 38 b (omega arith)))
        ∙ eqb_refl (field 16 20 (take 38 b)) in
      let whole : ltb (length (take 38 b)) 38
            || ltb (length b) 38
            || ltb (length (before ++ (b ++ after))) (length before + length b)
            || ltb (length (drop 38 b)) (length b - 38)
          ≡ false =
        ground (arith, length-take 38 b, length-drop 38 b, length-file before b after) in
      rw (header, len, records-slice before b after long, whole, crc, batch_end-header b) refl

  abbrev Stopped : List ℕ → ℤ → ActiveScan → Type 0
  Stopped accepted offset r =
      (crc_errors : ℕ) × (r
        ≡ record { valid_pos = length accepted; next_offset = offset; crc_errors = crc_errors })

  abbrev NotValid : ActiveRound → Type 0
  NotValid incomplete = Unit
  NotValid crc_failed = Unit
  NotValid (valid len next) = ¬ (Unit {0})

  -- A round that finds a valid batch finds one that begins there.
  torn-absurd :
      (before tail : List ℕ) (len : ℕ)
      → IsTorn tail
      → field 8 12 (take 38 tail) ≡ len
      → 38 ≤ len
      → len ≤ length tail
      → checksum (slice_of (length before + 38) (length before + len) (before ++ tail))
        ≡ field 16 20 (take 38 tail)
      → ¬ (Unit {0})
  torn-absurd before tail len torn framed long fits checked unit =
      let b = take len tail in
      let whole : b ++ drop len tail ≡ tail = take-append-drop len tail in
      let size : length b ≡ len = omega (arith, length-take len tail) in
      let frame : field 8 12 b ≡ length b =
        field-take 8 4 len tail (omega arith)
        ∙ sym (field-take 8 4 38 tail (omega arith))
        ∙ framed
        ∙ sym size in
      let crc : field 16 20 (take 38 tail) ≡ field 16 20 b =
        field-take 16 4 38 tail (omega arith) ∙ sym (field-take 16 4 len tail (omega arith)) in
      let records : slice_of (length before + 38) (length before + len) (before ++ tail)
          ≡ drop 38 b =
        subst (λ l. slice_of (length before + 38) (length before + len) (before ++ l) ≡ drop 38 b)
          whole
          (subst
            (λ (k : ℕ).
              slice_of (length before + 38) (length before + k) (before ++ (b ++ drop len tail))
              ≡ drop 38 b)
            size (records-slice before b (drop len tail) (omega arith))) in
      torn b (drop len tail) (sym whole)
        ((omega arith, frame), ap checksum (sym records) ∙ checked ∙ crc)

  -- A round where no valid batch begins ends the scan.
  round_at-torn :
      (before tail : List ℕ)
      → IsTorn tail
      → NotValid (round_at checksum (before ++ tail) (length before))
  unfolding round_at
  round_at-torn before tail torn =
      let len = field 8 12 (take 38 tail) in
      let records = slice_of (length before + 38) (length before + len) (before ++ tail) in
      rw (slice-front before tail 38) (
        if_rule NotValid
          (ltb (length (take 38 tail)) 38
            || ltb len 38
            || ltb (length (before ++ tail)) (length before + len)
            || ltb (length records) (len - 38))
          (λ short. tt)
          (λ whole.
            if_rule NotValid (eqb (checksum records) (field 16 20 (take 38 tail)))
              (λ same.
                torn-absurd before tail len torn refl (ground arith)
                  (ground (arith, length-append before tail))
                  ((eqb_iff (checksum records) (field 16 20 (take 38 tail))).0 same))
              (λ differs. tt)))

  scan_torn :
      (k : ℕ) (before tail : List ℕ) (offset : ℤ)
      → IsTorn tail
      → length tail ≤ k
      → Stopped before offset (scan_active checksum k (before ++ tail) (length before) offset)
  unfolding scan_active
  scan_torn zero before tail offset torn fuel = (0, refl)
  scan_torn (suc k) before tail offset torn fuel =
      if_rule (Stopped before offset) (ltb (length before) (length (before ++ tail)))
        (λ more.
          stop (round_at checksum (before ++ tail) (length before))
            (round_at-torn before tail torn))
        (λ done. (0, refl))
    where
      stop :
          (r : ActiveRound)
          → NotValid r
          → Stopped before offset (elim r [
            | incomplete ↦ record {
              valid_pos = length before;
              next_offset = offset;
              crc_errors = 0;
            }
            | crc_failed ↦ record {
              valid_pos = length before;
              next_offset = offset;
              crc_errors = 1;
            }
            | valid batch_len next ↦
                scan_active checksum k (before ++ tail) (length before + batch_len) next
          ])
      stop incomplete h = (0, refl)
      stop crc_failed h = (1, refl)
      stop (valid batch_len next) h = absurd (h tt)

  pub scan_active-valid :
      (k : ℕ) (before : List ℕ) (bs : List (List ℕ)) (tail : List ℕ) (offset : ℤ)
      → All IsValid bs
      → IsTorn tail
      → length (flatten bs ++ tail) ≤ k
      → Stopped
          (before ++ flatten bs)
          (last_end offset bs)
          (scan_active checksum k (before ++ (flatten bs ++ tail)) (length before) offset)
  unfolding scan_active
  scan_active-valid k before [] tail offset all torn fuel =
      rw (append-nil before) (scan_torn k before tail offset torn fuel)
  scan_active-valid zero before (b ∷ bs) tail offset (now, later) torn fuel =
      absurd
        (omega (arith, now.0.0, length-append (b ++ flatten bs) tail, length-append b (flatten bs)))
  scan_active-valid (suc k) before (b ∷ bs) tail offset (now, later) torn fuel =
      let file : before ++ ((b ++ flatten bs) ++ tail) ≡ before ++ (b ++ (flatten bs ++ tail)) =
        ap (λ l. before ++ l) (append_assoc b (flatten bs) tail) in
      let more : ltb (length before) (length (before ++ (b ++ (flatten bs ++ tail)))) ≡ true =
        ground (arith, now.0.0, length-file before b (flatten bs ++ tail)) in
      let at : length before + length b ≡ length (before ++ b) = sym (length-append before b) in
      let size : length (flatten bs ++ tail) ≤ k = omega (
        arith,
        now.0.0,
        ap length (append_assoc b (flatten bs) tail),
        length-append b (flatten bs ++ tail),
      ) in
      let Result : List ℕ → Type 0 = λ l.
        Stopped (before ++ (b ++ flatten bs)) (last_end (batch_end b) bs)
          (scan_active checksum (suc k) l (length before) offset) in
      subst Result (sym file) (
        rw (more, round_at-valid before b (flatten bs ++ tail) now, at)
          (subst
            (λ l. Stopped l (last_end (batch_end b) bs) (
              scan_active checksum k (before ++ (b ++ (flatten bs ++ tail))) (length (before ++ b))
                (batch_end b)))
            (append_assoc before b (flatten bs))
            (subst
              (λ l.
                Stopped ((before ++ b) ++ flatten bs) (last_end (batch_end b) bs)
                  (scan_active checksum k l (length (before ++ b)) (batch_end b)))
              (append_assoc before b (flatten bs ++ tail))
              (scan_active-valid k (before ++ b) bs tail (batch_end b) later torn size))))
