-- ===== src/Storage/Log/Append.antt =====
-- An append to a log adds the batch, with the next offset, behind those that it contains.
use bunnymq.Prelude.{
  ℕ, ◌+◌, ◌^◌, ◌≤◌, ◌<◌, pos, ◌+ℤ◌, to_u64, of_u64, List, [], ◌∷◌, ◌++◌, length, length-append,
  false, ltb, leb, ◌≡◌, refl, sym, ◌∙◌, ap, subst, arith, Bool-cases, inl, inr,
}
use mathlib.Core.List.{append_assoc, append-nil}
use bunnymq.Storage.Records.{wrap_i64}
use bunnymq.Storage.LogSegment.Scan.{flatten, flatten-append}
use bunnymq.Storage.Segment.{
  StorageConfig, SegmentStorage, new_segment, seal_segment, append_segment, written, record_count,
}
use bunnymq.Storage.Segment.Layout.{total, total-append, IsBatch, Holds}
use bunnymq.Storage.Segment.Room.{IsConfig, IsOpen}
use bunnymq.Storage.Segment.Append.{append_segment-Taken}
use bunnymq.Storage.Log.{StorageImpl, done, stamp, roll_full, after_append, append_batch}
use bunnymq.Storage.Log.Stamp.{
  last_split-append, stamp-batch_base, stamp-record_count, stamp-length, stamp-IsBatch,
}
use bunnymq.Storage.Log.Contains.{
  Chain, Contains, HoldsLog, as_log, Chain-append, seal_segment-Holds, new_segment-Holds,
  new_segment-IsOpen,
}

module _ (page_size : ℕ) (c : StorageConfig) (first : ℕ) where
  -- The segments after an append, rolled or not, contain the batches of the older ones and of the
  -- active one.
  rolled-Contains :
      (s : StorageImpl) (front : List SegmentStorage) (active : SegmentStorage)
      (old recent : List (List ℕ))
      → 1 ≤ page_size
      → IsConfig c
      → 0 < c.segment_max_bytes
      → Chain front first old
      → Holds active (first + total old) recent
      → IsOpen c active
      → length active.log.bytes < 2 ^ 31
      → s.segments ≡ roll_full page_size c front active (pos (first + total (old ++ recent)))
      → s.next_offset ≡ pos (first + total (old ++ recent))
      → Contains c s first (old ++ recent)
  unfolding roll_full seal_segment new_segment
  rolled-Contains s front active old recent page config positive chained held writable small
        segments next =
      elim (Bool-cases (leb c.segment_max_bytes (length active.log.bytes))) [
        | inl is_full ↦ record {
          front = front ++ (seal_segment active ∷ []);
          active = new_segment page_size c (pos (first + total (old ++ recent)));
          old = old ++ recent;
          recent = [];
          segments =
              segments
              ∙ rw is_full (
                  sym (
                    append_assoc front (seal_segment active ∷ [])
                      (new_segment page_size c (pos (first + total (old ++ recent))) ∷ [])));
          batches = sym (append-nil (old ++ recent));
          chained =
              Chain-append front (seal_segment active) first old recent chained
                (seal_segment-Holds active (first + total old) recent held) small;
          held = new_segment-Holds page_size c (first + total (old ++ recent));
          writable = new_segment-IsOpen page_size c (first + total (old ++ recent)) page config;
          small = positive;
          next = next;
        }
        | inr below ↦ record {
          front = front;
          active = active;
          old = old;
          recent = recent;
          segments = segments ∙ rw below refl;
          batches = refl;
          chained = chained;
          held = held;
          writable = writable;
          small = ground arith;
          next = next;
        }
      ]

  next_lem :
      (n : ℕ) (b : List ℕ)
      → n + record_count b < 2 ^ 63
      → wrap_i64 (pos n +ℤ pos (record_count (stamp (pos n) b))) ≡ pos (n + record_count b)
  unfolding to_u64 of_u64 ◌+ℤ◌
  next_lem n b fits = rw (stamp-record_count n b) (small (record_count b) fits)
    where
      small : (k : ℕ) → n + k < 2 ^ 63 → wrap_i64 (pos n +ℤ pos k) ≡ pos (n + k)
      small k h = ground arith

  append_batch-written :
      (s : StorageImpl) (b : List ℕ) (front : List SegmentStorage) (active active' : SegmentStorage)
      (n at : ℕ)
      → s.closed ≡ false
      → 8 ≤ length b
      → s.segments ≡ front ++ (active ∷ [])
      → s.next_offset ≡ pos n
      → append_segment c active (stamp (pos n) b) ≡ written active' at
      → n + record_count b < 2 ^ 63
      → append_batch page_size c s b
        ≡ done
            (record s {
              segments = roll_full page_size c front active' (pos (n + record_count b));
              next_offset = pos (n + record_count b);
            })
            (pos n)
  unfolding append_batch after_append
  append_batch-written s b front active active' n at running long segments next wrote fits =
      let enough : ltb (length b) 8 ≡ false = ground arith in
      simp
        (running, enough, segments, last_split-append front active, next, wrote, next_lem n b fits)

  -- An append to a log that holds batches, and whose active segment may have reached the
  -- rolling size, of a batch with a whole header and at least one record that fits the file's
  -- positions, answers the log's end as its base offset; the log then contains the batch,
  -- stamped with that offset, behind the others. The configuration has a sample of one byte at
  -- least and a rolling size of 2 ^ 31 at most.
  pub append_batch-HoldsLog :
      (s : StorageImpl) (log : List (List ℕ)) (b : List ℕ)
      → 1 ≤ page_size
      → IsConfig c
      → 0 < c.segment_max_bytes
      → (has : HoldsLog c s first log) → length (flatten has.recent) + length b < 2 ^ 31
      → s.closed ≡ false
      → IsBatch b
      → first + total log + record_count b < 2 ^ 63
      → (s' : StorageImpl) × (append_batch page_size c s b ≡ done s' (pos (first + total log)))
        × Contains c s' first (log ++ (stamp (pos (first + total log)) b ∷ []))
        × (s'.closed ≡ false)
  append_batch-HoldsLog s log b page config positive has room running batch fits =
      let record {
        front = front;
        active = active;
        old = old;
        recent = recent;
        segments = segments;
        batches = batches;
        chained = chained;
        held = held;
        writable = writable;
        begins = _;
        due_paid = due_paid;
        next = next;
      } =
        has in
      let n = first + total log in
      let stamped = stamp (pos n) b in
      let size = stamp-length n b (omega (arith, batch.0.0)) in
      let count = stamp-record_count n b in
      let middle : first + total log ≡ first + total old + total recent =
        omega (arith, ap total batches, total-append old recent) in
      let (active', wrote, held', writable', _) =
        append_segment-Taken c active stamped (first + total old) recent config held writable
          due_paid (omega (arith, batch.0.0, ap length held.1, room)) (stamp-IsBatch n b batch)
          (stamp-batch_base n b (omega arith) ∙ ap pos middle) (omega (arith, count)) in
      let whole : log ++ (stamped ∷ []) ≡ old ++ (recent ++ (stamped ∷ [])) =
        ap (λ (l : List (List ℕ)). l ++ (stamped ∷ [])) batches
        ∙ append_assoc old recent (stamped ∷ []) in
      let end : first + total (old ++ (recent ++ (stamped ∷ []))) ≡ n + record_count b =
        omega (arith, ap total whole, total-append log (stamped ∷ []), count) in
      let s' : StorageImpl = record s {
        segments = roll_full page_size c front active' (pos (n + record_count b));
        next_offset = pos (n + record_count b);
      } in
      (
        s',
        append_batch-written s b front active active' n (length active.log.bytes) running
            (omega (arith, batch.0.0)) segments next wrote fits,
        subst (λ (l : List (List ℕ)). Contains c s' first l) (sym whole)
            (rolled-Contains s' front active' old (recent ++ (stamped ∷ [])) page config positive
              chained held' writable'
              (omega (
                arith,
                ap length held'.1,
                ap length held.1,
                ap length (flatten-append recent (stamped ∷ [])),
                length-append (flatten recent) (stamped ++ []),
                length-append stamped [],
                size,
                room,
              ))
              (ap (λ (k : ℕ). roll_full page_size c front active' (pos k)) (sym end))
              (ap pos (sym end))),
        running,
      )

  -- An append to a log that contains batches, of a batch with a whole header, at least one record
  -- and room left in the file's positions, answers the log's end as its base offset; the log then
  -- contains the batch, stamped with that offset, behind the others.
  pub append_batch-Contains :
      (s : StorageImpl) (log : List (List ℕ)) (b : List ℕ)
      → 1 ≤ page_size
      → IsConfig c
      → Contains c s first log
      → s.closed ≡ false
      → IsBatch b
      → c.segment_max_bytes + length b ≤ 2 ^ 31
      → first + total log + record_count b < 2 ^ 63
      → (s' : StorageImpl) × (append_batch page_size c s b ≡ done s' (pos (first + total log)))
        × Contains c s' first (log ++ (stamp (pos (first + total log)) b ∷ []))
        × (s'.closed ≡ false)
  append_batch-Contains s log b page config has running batch room fits =
      append_batch-HoldsLog s log b page config (omega (arith, has.small)) (as_log has)
        (omega (arith, has.small, ap length has.held.1, batch.0.0)) running batch fits
