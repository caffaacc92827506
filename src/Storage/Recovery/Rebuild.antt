-- ===== src/Storage/Recovery/Rebuild.antt =====
-- The indexes that are rebuilt from a log point to its batches, and leave the segment open.
use bunnymq.Prelude.{
  ℕ, ◌+◌, ◌*◌, ◌^◌, ◌≤◌, ◌<◌, ℤ, pos, List, [], ◌∷◌, ◌++◌, length, length-append, All, some, Bool,
  true, false, leb, ltb, ◌≡◌, refl, sym, ◌∙◌, ap, subst, arith, Bool-cases, inl, inr, if_rule,
}
use mathlib.Core.List.{append_assoc, append-nil}
use bunnymq.Storage.LogSegment.{LogSegment}
use bunnymq.Storage.LogSegment.Scan.{flatten, flatten-append, visit, scan_from-visit}
use bunnymq.Storage.OffsetIndex
use bunnymq.Storage.TimeIndex
use bunnymq.Storage.OffsetIndex.{OffsetEntry}
use bunnymq.Storage.OffsetIndex.Rebuild.{IsEntry, rebuild-All}
use bunnymq.Storage.TimeIndex.Rebuild.{rebuild-length}
use bunnymq.Storage.Segment.{StorageConfig, SegmentStorage, offset_entry, time_entry, new_segment}
use bunnymq.Storage.Segment.Layout.{
  IsBatch, Numbered, BeginsBelow, PointsInto, Holds, All-IsFramed, All-append, All-front,
  All-behind, Numbered-behind,
}
use bunnymq.Storage.Segment.Room.{IsConfig, IsOpen, DuePaid, have_slots}
use bunnymq.Storage.Segment.Pointers.{longer-PointsInto, next-PointsInto, offset_entry-IsI32}
use bunnymq.Storage.Log.Contains.{new_segment-IsOpen}
use bunnymq.Storage.Recovery.{Sampled, sample_step, sample_log, rebuild_segment_indexes}

module _ (c : StorageConfig) (n : ℕ) (bs : List (List ℕ)) where
  abbrev Points : OffsetEntry → Type 0
  Points e = PointsInto bs e × IsEntry e

  -- What holds of the sampled entries when so many bytes have been scanned.
  abbrev Good : ℕ → Sampled → Type 0
  Good size s =
      All Points s.off_entries
      × (length s.off_entries * c.index_sample_bytes + s.bytes_since ≤ size)
      × (length s.t_entries ≡ length s.off_entries)
      × (length s.off_entries * c.index_sample_bytes ≤ c.segment_max_bytes)
      × (s.panicked ≡ false)
      × (c.index_sample_bytes ≤ s.bytes_since
          → length s.off_entries * c.index_sample_bytes < c.segment_max_bytes)

  -- The entry of a batch points to it.
  batch-Points :
      (before : List (List ℕ)) (b : List ℕ) (rest : List (List ℕ))
      → bs ≡ before ++ (b ∷ rest)
      → All IsBatch bs
      → Numbered n bs
      → length (flatten before) < 2 ^ 31
      → Points (offset_entry (pos n) b (length (flatten before)))
  batch-Points before b rest split batches numbered small =
      let parts : All IsBatch (before ++ (b ∷ rest)) = subst (All IsBatch) split batches in
      let numbers : Numbered n (before ++ (b ∷ rest)) = subst (Numbered n) split numbered in
      let here = Numbered-behind n before (b ∷ rest) numbers in
      let whole : (before ++ (b ∷ [])) ++ rest ≡ bs =
        append_assoc before (b ∷ []) rest ∙ sym split in
      let e = offset_entry (pos n) b (length (flatten before)) in
      (
        subst (λ (l : List (List ℕ)). PointsInto l e) whole
            (longer-PointsInto (before ++ (b ∷ [])) rest e (
              next-PointsInto (pos n) n before b refl here.0
                (All-front IsBatch before (b ∷ rest) parts) small)),
        offset_entry-IsI32 (pos n) b (length (flatten before)),
      )

  has_header :
      (before : List (List ℕ)) (b : List ℕ) (rest : List (List ℕ))
      → bs ≡ before ++ (b ∷ rest)
      → All IsBatch bs
      → ltb (length b) 38 ≡ false
  has_header before b rest split batches =
      let whole =
        (All-behind IsBatch before (b ∷ rest) (subst (All IsBatch) split batches)).0.0.0 in
      ground (arith, whole)

  sample-Good :
      (before : List (List ℕ)) (b : List ℕ) (rest : List (List ℕ)) (s : Sampled)
      → bs ≡ before ++ (b ∷ rest)
      → All IsBatch bs
      → Numbered n bs
      → IsConfig c
      → length (flatten before) < c.segment_max_bytes
      → Good (length (flatten before)) s
      → Good
          (length (flatten before) + length b)
          (sample_step c (pos n) s b (length (flatten before))).0
  unfolding sample_step
  sample-Good before b rest s split batches numbered config small
        (points, paid, same, slots, goes, _) =
      let long = has_header before b rest split batches in
      let e = offset_entry (pos n) b (length (flatten before)) in
      let more = length-append s.off_entries (e ∷ []) in
      elim (Bool-cases (leb c.index_sample_bytes s.bytes_since)) [
        | inl due ↦
            rw (long, due)
              (
                All-append Points s.off_entries (e ∷ []) points (
                  batch-Points before b rest split batches numbered (omega (arith, config.1)),
                  tt,
                ),
                (let sample : c.index_sample_bytes ≤ s.bytes_since = ground arith in
                    rw more (omega (arith, paid, sample))),
                omega (arith, same, more, length-append s.t_entries (time_entry (pos n) b ∷ [])),
                (let sample : c.index_sample_bytes ≤ s.bytes_since = ground arith in
                    rw more (omega (arith, paid, sample))),
                goes,
                λ next. absurd (omega (arith, next, config.0)),
              )
        | inr early ↦
            rw (long, early)
              (points, omega (arith, paid), same, slots, goes, λ next. omega (arith, paid))
      ]

  goes_on :
      (s : Sampled) (b : List ℕ) (at : ℕ)
      → ltb (length b) 38 ≡ false
      → (sample_step c (pos n) s b at).1 ≡ true
  unfolding sample_step
  goes_on s b at long = rw long (
      if_rule (λ (p : Sampled × Bool). p.1 ≡ true) (leb c.index_sample_bytes s.bytes_since)
        (λ due. refl) (λ early. refl))

  visit-Good :
      (before rest : List (List ℕ)) (s : Sampled)
      → bs ≡ before ++ rest
      → All IsBatch bs
      → Numbered n bs
      → IsConfig c
      → BeginsBelow c.segment_max_bytes (length (flatten before)) rest
      → Good (length (flatten before)) s
      → Good (length (flatten bs)) (visit (sample_step c (pos n)) (length (flatten before)) s rest)
  visit-Good before [] s split batches numbered config below good =
      subst (λ (l : List (List ℕ)). Good (length (flatten l)) s) (sym (split ∙ append-nil before))
        good
  visit-Good before (b ∷ rest) s split batches numbered config below good =
      let s' = (sample_step c (pos n) s b (length (flatten before))).0 in
      let at : length (flatten before) + length b ≡ length (flatten (before ++ (b ∷ []))) = omega (
        arith,
        ap length (flatten-append before (b ∷ [])),
        length-append (flatten before) (b ++ []),
        length-append b [],
      ) in
      let next = sample-Good before b rest s split batches numbered config below.0 good in
      rw (goes_on s b (length (flatten before)) (has_header before b rest split batches), at)
        (visit-Good (before ++ (b ∷ [])) rest s' (split ∙ sym (append_assoc before (b ∷ []) rest))
          batches numbered config
          (subst (λ (k : ℕ). BeginsBelow c.segment_max_bytes k rest) at below.1)
          (subst (λ (k : ℕ). Good k s') at next))

  -- The entries sampled from a log of batches point to them, and are paid for by its bytes.
  sample_log-Good :
      (log : LogSegment)
      → log.bytes ≡ flatten bs
      → All IsBatch bs
      → Numbered n bs
      → IsConfig c
      → BeginsBelow c.segment_max_bytes 0 bs
      → Good (length (flatten bs)) (sample_log c log (pos n))
  unfolding sample_log
  sample_log-Good log bytes batches numbered config below =
      let start : Sampled = record {
        off_entries = [];
        t_entries = [];
        bytes_since = 0;
        panicked = false;
      } in
      rw bytes (
        rw
          (scan_from-visit (sample_step c (pos n)) [] bs (length (flatten bs)) start
            (All-IsFramed bs batches) (omega arith))
          (visit-Good [] bs start refl batches numbered config below (
            tt,
            omega arith,
            refl,
            omega arith,
            refl,
            λ next. absurd (omega (arith, next, config.0)),
          )))

  All-fst : (es : List OffsetEntry) → All Points es → All (PointsInto bs) es
  All-fst [] all = tt
  All-fst (e ∷ es) (now, later) = (now.0, All-fst es later)

  All-snd : (es : List OffsetEntry) → All Points es → All IsEntry es
  All-snd [] all = tt
  All-snd (e ∷ es) (now, later) = (now.1, All-snd es later)

  -- The indexes of an open segment that holds batches, made anew from its log, where every batch
  -- begins below the rolling size.
  pub rebuild_segment_indexes-Holds :
      (page_size : ℕ) (s : SegmentStorage)
      → 1 ≤ page_size
      → IsConfig c
      → s.base_offset ≡ pos n
      → s.log.bytes ≡ flatten bs
      → s.log.readonly ≡ false
      → All IsBatch bs
      → Numbered n bs
      → BeginsBelow c.segment_max_bytes 0 bs
      → (s' : SegmentStorage) × (rebuild_segment_indexes page_size c s ≡ some s')
        × Holds s' n bs
        × IsOpen c s'
        × DuePaid c s'
  unfolding new_segment rebuild_segment_indexes
  rebuild_segment_indexes-Holds page_size s page config base bytes writable batches numbered below =
      let (_, ((_, enough), fit), ((_, t_enough), t_fit)) =
        new_segment-IsOpen page_size c n page config in
      let sampled = sample_log c s.log (pos n) in
      let (points, paid, same, sampled_below, goes, due) =
        sample_log-Good s.log bytes batches numbered config below in
      let pays = have_slots c (length sampled.off_entries) _ config.0 sampled_below enough in
      let t_pays =
        have_slots c (length sampled.t_entries) _ config.0 (rw same sampled_below) t_enough in
      let (idx, done, count, max, size, slots) =
        rebuild-All (PointsInto bs) (new_segment page_size c (pos n)).offset_idx sampled.off_entries
          (All-fst sampled.off_entries points) (All-snd sampled.off_entries points) (omega arith) in
      let (tidx, t_done, t_count, t_max, t_size) =
        rebuild-length (new_segment page_size c (pos n)).time_idx sampled.t_entries (omega arith) in
      let paid_for : length sampled.off_entries * c.index_sample_bytes + sampled.bytes_since
          ≤ length s.log.bytes =
        omega (arith, paid, ap length bytes) in
      (
        rebuilt idx tidx sampled.bytes_since,
        equation idx tidx goes done t_done,
        (refl, bytes, batches, numbered, slots),
        (
          writable,
          ((rw count paid_for, rw max enough), rw (max, size) fit),
          ((rw (t_count, same) paid_for, rw t_max t_enough), rw (t_max, t_size) t_fit),
        ),
        λ next. (rw count (due next), rw (t_count, same) (due next)),
      )
    where
      rebuilt : OffsetIndex.OffsetIndexSegment → TimeIndex.TimeIndexSegment → ℕ → SegmentStorage
      rebuilt idx tidx since = record s {
        offset_idx = idx;
        time_idx = tidx;
        base_offset = pos n;
        bytes_since_last_index = since;
      }

      equation :
          (idx : OffsetIndex.OffsetIndexSegment) (tidx : TimeIndex.TimeIndexSegment)
          → (sample_log c s.log (pos n)).panicked ≡ false
          → OffsetIndex.rebuild
              (new_segment page_size c (pos n)).offset_idx
              (sample_log c s.log (pos n)).off_entries
            ≡ some idx
          → TimeIndex.rebuild
              (new_segment page_size c (pos n)).time_idx
              (sample_log c s.log (pos n)).t_entries
            ≡ some tidx
          → rebuild_segment_indexes page_size c s
            ≡ some (rebuilt idx tidx (sample_log c s.log (pos n)).bytes_since)
      equation idx tidx goes done t_done =
          ap (λ (z : ℤ). rebuild_segment_indexes page_size c (record s { base_offset = z })) base
          ∙ rw (rebuild_segment_indexes, goes, done, t_done) refl
