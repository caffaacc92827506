-- ===== src/Storage/Segment/Append.antt =====
-- An append to an active segment: its indexes do not run full before the segment is rolled, and it
-- holds the batch after those that it held.
use mathlib.Core.List.{append-nil}
use bunnymq.Prelude.{
  ℕ, ◌+◌, ◌^◌, ◌≤◌, ◌<◌, pos, List, [], ◌∷◌, ◌++◌, length, length-append, true, false, ltb, leb,
  ◌≡◌, refl, sym, ◌∙◌, ap, subst, arith, inl, inr, Bool-cases,
}
use bunnymq.Storage.LogSegment.{append_log}
use bunnymq.Storage.LogSegment.Scan.{flatten, flatten-append}
use bunnymq.Storage.OffsetIndex
use bunnymq.Storage.TimeIndex
use bunnymq.Storage.OffsetIndex.{OffsetIndexSegment, OffsetEntry, read_entry}
use bunnymq.Storage.TimeIndex.{TimeIndexSegment}
use bunnymq.Storage.OffsetIndex.Append.{append_entry-read_entry}
use bunnymq.Storage.OffsetIndex.Append as OffsetAppend
use bunnymq.Storage.TimeIndex.Append as TimeAppend
use bunnymq.Storage.Segment.{
  StorageConfig, SegmentStorage, written, batch_base, record_count, offset_entry, time_entry,
  index_time, index_batch, append_segment,
}
use bunnymq.Storage.Segment.Layout.{
  total, IsBatch, PointsInto, IsIndexOf, Holds, Numbered-append, All-append,
}
use bunnymq.Storage.Segment.Room.{IsConfig, due_slot, Pays-entry, IsOpen, DuePaid, IsOpen-DuePaid}
use bunnymq.Storage.Segment.Pointers.{
  longer-PointsInto, next-PointsInto, offset_entry-IsI32, indexed-IsIndexOf,
}

module _ (c : StorageConfig) (s : SegmentStorage) (b : List ℕ) where
  abbrev with_batch : SegmentStorage
  with_batch = record s { log = record s.log { bytes = s.log.bytes ++ b } }

  abbrev unindexed : SegmentStorage
  unindexed = record with_batch { bytes_since_last_index = s.bytes_since_last_index + length b }

  abbrev indexed : OffsetIndexSegment → TimeIndexSegment → SegmentStorage
  indexed idx tidx = record with_batch {
    offset_idx = idx;
    time_idx = tidx;
    bytes_since_last_index = 0;
  }

  append-unindexed :
      s.log.readonly ≡ false
      → 38 ≤ length b
      → leb c.index_sample_bytes s.bytes_since_last_index ≡ false
      → append_segment c s b ≡ written unindexed (length s.log.bytes)
  unfolding append_segment append_log
  append-unindexed writable long early =
      let short : ltb (length b) 38 ≡ false = ground arith in rw (writable, short, early) refl

  append-indexed :
      (idx : OffsetIndexSegment) (tidx : TimeIndexSegment)
      → s.log.readonly ≡ false
      → 38 ≤ length b
      → leb c.index_sample_bytes s.bytes_since_last_index ≡ true
      → OffsetIndex.append_entry s.offset_idx (offset_entry s.base_offset b (length s.log.bytes))
        ≡ OffsetIndex.appended idx
      → TimeIndex.append_entry s.time_idx (time_entry s.base_offset b) ≡ TimeIndex.appended tidx
      → append_segment c s b ≡ written (indexed idx tidx) (length s.log.bytes)
  unfolding append_segment append_log index_batch index_time
  append-indexed idx tidx writable long due first second =
      let short : ltb (length b) 38 ≡ false = ground arith in
      rw (writable, short, due, index_batch, first, index_time, second) refl

module _ (c : StorageConfig) (s : SegmentStorage) (b : List ℕ) (n : ℕ) (bs : List (List ℕ)) where
  abbrev Taken : Type 0
  Taken =
      (s' : SegmentStorage) × (append_segment c s b ≡ written s' (length s.log.bytes))
      × Holds s' n (bs ++ (b ∷ []))
      × IsOpen c s'
      × (s'.sealed ≡ s.sealed)

  -- The batch behind those that a segment holds.
  next_holds :
      (s' : SegmentStorage)
      → s'.base_offset ≡ pos n
      → s'.log.bytes ≡ s.log.bytes ++ b
      → Holds s n bs
      → IsBatch b
      → batch_base b ≡ pos (n + total bs)
      → n + total bs + record_count b < 2 ^ 63
      → IsIndexOf (bs ++ (b ∷ [])) s'.offset_idx
      → Holds s' n (bs ++ (b ∷ []))
  next_holds s' base bytes (_, was, batches, numbered, _) batch next fits index = (
    base,
    bytes
        ∙ ap (λ l. l ++ b) was
        ∙ sym (flatten-append bs (b ∷ []) ∙ ap (λ l. flatten bs ++ l) (append-nil b)),
    All-append IsBatch bs (b ∷ []) batches (batch, tt),
    Numbered-append n bs (b ∷ []) numbered (next, fits, tt),
    index,
  )

  append_unindexed :
      IsConfig c
      → Holds s n bs
      → IsOpen c s
      → IsBatch b
      → batch_base b ≡ pos (n + total bs)
      → n + total bs + record_count b < 2 ^ 63
      → leb c.index_sample_bytes s.bytes_since_last_index ≡ false
      → Taken
  append_unindexed config holds (writable, (opays, ofit), (tpays, tfit)) batch next fits early =
      let (base, was, batches, numbered, index) = holds in
      let size = length-append s.log.bytes b in
      (
        unindexed c s b,
        append-unindexed c s b writable batch.0.0 early,
        next_holds (unindexed c s b) base refl holds batch next fits
            (λ i p. longer-PointsInto bs (b ∷ []) (read_entry s.offset_idx.mapped i) (index i p)),
        (
          writable,
          ((omega (arith, size, opays.0), opays.1), ofit),
          ((omega (arith, size, tpays.0), tpays.1), tfit),
        ),
        refl,
      )

  append_indexed :
      IsConfig c
      → Holds s n bs
      → IsOpen c s
      → DuePaid c s
      → length s.log.bytes < 2 ^ 31
      → IsBatch b
      → batch_base b ≡ pos (n + total bs)
      → n + total bs + record_count b < 2 ^ 63
      → leb c.index_sample_bytes s.bytes_since_last_index ≡ true
      → Taken
  append_indexed config holds (writable, (opays, ofit), (tpays, tfit)) paid small batch next fits
        due =
      let (base, was, batches, numbered, index) = holds in
      let sample : c.index_sample_bytes ≤ s.bytes_since_last_index = ground arith in
      let size = length-append s.log.bytes b in
      let e = offset_entry s.base_offset b (length s.log.bytes) in
      let (idx, first, count, max, length_of) =
        OffsetAppend.append_entry-HasSlot s.offset_idx e
          (due_slot c _ _ (paid sample).0 opays.1, ofit) in
      let (tidx, second, tcount, tmax, tlength) =
        TimeAppend.append_entry-HasSlot s.time_idx (time_entry s.base_offset b)
          (due_slot c _ _ (paid sample).1 tpays.1, tfit) in
      (
        indexed c s b idx tidx,
        append-indexed c s b idx tidx writable batch.0.0 due first second,
        next_holds (indexed c s b idx tidx) base refl holds batch next fits (
            indexed-IsIndexOf s.offset_idx idx e bs (b ∷ []) first
              (offset_entry-IsI32 s.base_offset b (length s.log.bytes)) index
              (subst (λ (k : ℕ). PointsInto (bs ++ (b ∷ [])) (offset_entry s.base_offset b k))
                (sym (ap length was))
                (next-PointsInto s.base_offset n bs b base next batches
                  (omega (arith, ap length was))))),
        (
          writable,
          (Pays-entry c _ _ opays sample count max size, omega arith),
          (Pays-entry c _ _ tpays sample tcount tmax size, omega arith),
        ),
        refl,
      )

  -- An append to a segment whose next entries are paid for, and that may have reached the rolling
  -- size.
  pub append_segment-Taken :
      IsConfig c
      → Holds s n bs
      → IsOpen c s
      → DuePaid c s
      → length s.log.bytes < 2 ^ 31
      → IsBatch b
      → batch_base b ≡ pos (n + total bs)
      → n + total bs + record_count b < 2 ^ 63
      → Taken
  append_segment-Taken config holds writable paid small batch next fits =
      elim (Bool-cases (leb c.index_sample_bytes s.bytes_since_last_index)) [
        | inl due ↦ append_indexed config holds writable paid small batch next fits due
        | inr early ↦ append_unindexed config holds writable batch next fits early
      ]

  pub append_segment-Holds :
      IsConfig c
      → Holds s n bs
      → IsOpen c s
      → length s.log.bytes < c.segment_max_bytes
      → IsBatch b
      → batch_base b ≡ pos (n + total bs)
      → n + total bs + record_count b < 2 ^ 63
      → (s' : SegmentStorage) × (append_segment c s b ≡ written s' (length s.log.bytes))
        × Holds s' n (bs ++ (b ∷ []))
        × IsOpen c s'
        × (s'.sealed ≡ s.sealed)
  append_segment-Holds config holds writable small batch next fits =
      append_segment-Taken config holds writable (IsOpen-DuePaid c s writable small)
        (omega (arith, config.1)) batch next fits
