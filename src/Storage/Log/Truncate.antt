-- ===== src/Storage/Log/Truncate.antt =====
-- A log that is cut before a batch of its active segment contains the batches before it.
use mathlib.Core.List.{append_assoc, append-nil}
use bunnymq.Prelude.{
  ℕ, zero, suc, ◌+◌, ◌-◌, ◌^◌, ◌≤◌, ◌<◌, ℤ, pos, eqb_ℤ, leb_ℤ, ltb_ℤ, ltb, List, [], ◌∷◌, ◌++◌,
  length, length-append, take, take-append, get_elem?, Bool, true, false, ◌≡◌, refl, sym, ◌∙◌, ap,
  subst, arith, All, Option, none, some, Bool-cases, inl, inr, if_rule,
}
use bunnymq.Storage.LogSegment.{field, truncate_log}
use bunnymq.Storage.LogSegment.Scan.{
  flatten, flatten-append, read_at-header, field-take, length-file,
}
use bunnymq.Storage.Segment.{StorageConfig, SegmentStorage, batch_base, record_count}
use bunnymq.Storage.Segment.Layout.{
  total, total-append, IsBatch, Numbered, BeginsBelow, BeginsBelow-small, BeginsBelow-kept, Holds,
  All-front, All-behind, Numbered-front,
}
use bunnymq.Storage.Segment.Room.{IsConfig, IsOpen, DuePaid}
use bunnymq.Storage.Recovery.{find_from, find_byte_pos_for_offset}
use bunnymq.Storage.Recovery.Rebuild.{rebuild_segment_indexes-Holds}
use bunnymq.Storage.Log.{
  StorageImpl, done, begins_by, last_kept, reopen, truncate_segment, truncate_kept, truncate_to,
}
use bunnymq.Storage.Log.Stamp.{last_split-append}
use bunnymq.Storage.Log.Contains.{Contains, HoldsLog, as_log}

-- The search of the log's headers finds the batch with the offset.
find_from-batch :
    (k : ℕ) (before : List ℕ) (m o : ℕ) (kept : List (List ℕ)) (b : List ℕ) (cut : List (List ℕ))
    → All IsBatch (kept ++ (b ∷ cut))
    → Numbered m (kept ++ (b ∷ cut))
    → m + total kept ≡ o
    → length (flatten kept) < k
    → find_from (pos o) k (before ++ flatten (kept ++ (b ∷ cut))) (length before)
      ≡ length before + length (flatten kept)
unfolding find_from
find_from-batch zero before m o kept b cut batches numbered at fuel = absurd (omega arith)
find_from-batch (suc k) before m o [] b cut (now, later) (base, _, _) at fuel =
    let more : ltb (length before) (length (before ++ (b ++ flatten cut))) ≡ true =
      ground (arith, now.0.0, length-file before b (flatten cut)) in
    let here : eqb_ℤ (batch_base (take 12 b)) (pos o) ≡ true =
      ap (λ (n : ℕ). eqb_ℤ (bunnymq.Prelude.of_u64 n) (pos o)) (field-take 0 8 12 b (omega arith))
      ∙ ap (λ z. eqb_ℤ z (pos o)) base
      ∙ (ground arith) in
    rw (more, read_at-header before b (flatten cut) 12 (omega (arith, now.0.0)), here) (omega arith)
find_from-batch (suc k) before m o (x ∷ kept) b cut (now, later) (base, _, numbered) at fuel =
    let file = flatten (kept ++ (b ∷ cut)) in
    let more : ltb (length before) (length (before ++ (x ++ file))) ≡ true =
      ground (arith, now.0.0, length-file before x file) in
    let behind : eqb_ℤ (batch_base (take 12 x)) (pos o) ≡ false =
      ap (λ (n : ℕ). eqb_ℤ (bunnymq.Prelude.of_u64 n) (pos o)) (field-take 0 8 12 x (omega arith))
      ∙ ap (λ z. eqb_ℤ z (pos o)) base
      ∙ (ground (arith, now.1)) in
    let len : field 8 12 (take 12 x) ≡ length x = field-take 8 4 12 x (omega arith) ∙ now.0.1 in
    let long : ltb (length x) 12 ≡ false = ground (arith, now.0.0) in
    let place : length before + length x ≡ length (before ++ x) = sym (length-append before x) in
    let size = length-append x (flatten kept) in
    let rest : find_from (pos o) k (before ++ (x ++ file)) (length before + length x)
        ≡ length before + length (x ++ flatten kept) =
      rw (sym (append_assoc before x file), place)
        (find_from-batch k (before ++ x) (m + record_count x) o kept b cut later numbered
            (omega (arith, at)) (omega (arith, fuel, size, now.0.0))
          ∙ omega (arith, length-append before x, size)) in
    rw (more, read_at-header before x file 12 (omega (arith, now.0.0)), behind, len, long) rest

-- A segment that is opened again for writing keeps its bytes and its base offset.
reopen_lem :
    (s : SegmentStorage)
    → s.log.readonly ≡ false
    → ((reopen s).base_offset ≡ s.base_offset)
      × ((reopen s).log.bytes ≡ s.log.bytes)
      × ((reopen s).log.readonly ≡ false)
reopen_lem s writable =
    if_rule
      (λ (r : SegmentStorage).
        (r.base_offset ≡ s.base_offset) × (r.log.bytes ≡ s.log.bytes) × (r.log.readonly ≡ false))
      s.sealed (λ sealed. (refl, refl, refl)) (λ active. (refl, refl, writable))

find_byte_pos-batch :
    (s : SegmentStorage) (n o : ℕ) (kept : List (List ℕ)) (b : List ℕ) (cut : List (List ℕ))
    → s.base_offset ≡ pos n
    → s.log.bytes ≡ flatten (kept ++ (b ∷ cut))
    → All IsBatch (kept ++ (b ∷ cut))
    → Numbered n (kept ++ (b ∷ cut))
    → n + total kept ≡ o
    → find_byte_pos_for_offset s (pos o) ≡ length (flatten kept)
unfolding find_byte_pos_for_offset
find_byte_pos-batch s n o [] b cut base bytes batches numbered at =
    let same : eqb_ℤ (pos o) s.base_offset ≡ true =
      ap (λ z. eqb_ℤ (pos o) z) base ∙ (ground arith) in
    rw same refl
find_byte_pos-batch s n o (x ∷ kept) b cut base bytes (now, later) numbered at =
    let differs : eqb_ℤ (pos o) s.base_offset ≡ false =
      ap (λ z. eqb_ℤ (pos o) z) base ∙ (ground (arith, now.1)) in
    let size : length (flatten (x ∷ kept)) < length (flatten (x ∷ kept ++ (b ∷ cut))) = omega (
      arith,
      ap length (flatten-append (x ∷ kept) (b ∷ cut)),
      length-append (flatten (x ∷ kept)) (b ++ flatten cut),
      length-append b (flatten cut),
      (All-behind IsBatch kept (b ∷ cut) later).0.0.0,
    ) in
    rw (differs, bytes)
      (find_from-batch (length (flatten (x ∷ kept ++ (b ∷ cut)))) [] n o (x ∷ kept) b cut
          (now, later) numbered at size
        ∙ omega arith)

module _ (page_size : ℕ) (c : StorageConfig) where
  -- A segment cut before a batch that it holds, with its indexes made anew.
  truncate_segment-Holds :
      (s : SegmentStorage) (n o : ℕ) (kept : List (List ℕ)) (b : List ℕ) (cut : List (List ℕ))
      → 1 ≤ page_size
      → IsConfig c
      → Holds s n (kept ++ (b ∷ cut))
      → s.log.readonly ≡ false
      → BeginsBelow c.segment_max_bytes 0 kept
      → n + total kept ≡ o
      → (s' : SegmentStorage) × (truncate_segment page_size c s (pos o) ≡ some s')
        × Holds s' n kept
        × IsOpen c s'
        × DuePaid c s'
  unfolding truncate_segment truncate_log
  truncate_segment-Holds s n o kept b cut page config (base, bytes, batches, numbered, index)
        writable begins at =
      let (base', bytes', writable') = reopen_lem s writable in
      let place =
        find_byte_pos-batch (reopen s) n o kept b cut (base' ∙ base) (bytes' ∙ bytes) batches
          numbered at in
      let left : take (find_byte_pos_for_offset (reopen s) (pos o)) (reopen s).log.bytes
          ≡ flatten kept =
        ap (λ (k : ℕ). take k (reopen s).log.bytes) place
        ∙ ap (λ l. take (length (flatten kept)) l) (bytes' ∙ bytes ∙ flatten-append kept (b ∷ cut))
        ∙ take-append (flatten kept) (flatten (b ∷ cut)) in
      rebuild_segment_indexes-Holds c n kept page_size
        (record (reopen s) {
          log = truncate_log (reopen s).log (find_byte_pos_for_offset (reopen s) (pos o));
        })
        page config (base' ∙ base) left writable' (All-front IsBatch kept (b ∷ cut) batches)
        (Numbered-front n kept (b ∷ cut) numbered) begins

last_kept-at : (test : ℕ → Bool) (i : ℕ) → test i ≡ true → last_kept test i ≡ i
unfolding last_kept
last_kept-at test zero h = refl
last_kept-at test (suc i) h = rw h refl

get_elem-last {ℓ} :
    {A : Type ℓ} (xs : List A) (x : A) → get_elem? (xs ++ (x ∷ [])) (length xs) ≡ some x
get_elem-last [] x = refl
get_elem-last (y ∷ xs) x = get_elem-last xs x

module _ (page_size : ℕ) (c : StorageConfig) (s : StorageImpl) where
  -- The segments up to the active one, where it begins by the offset.
  all_kept :
      (front : List SegmentStorage) (active : SegmentStorage) (n o : ℕ)
      → active.base_offset ≡ pos n
      → n ≤ o
      → take
          (last_kept
              (begins_by (front ++ (active ∷ [])) (pos o))
              (length (front ++ (active ∷ [])) - 1)
            + 1)
          (front ++ (active ∷ []))
        ≡ front ++ (active ∷ [])
  all_kept front active n o base from =
      let segs = front ++ (active ∷ []) in
      let last : length segs - 1 ≡ length front =
        omega (arith, length-append front (active ∷ [])) in
      let begins : begins_by segs (pos o) (length front) ≡ true =
        rw (begins_by, get_elem-last front active)
          (ap (λ z. leb_ℤ z (pos o)) base ∙ (ground arith)) in
      let at = last_kept-at (begins_by segs (pos o)) (length front) begins in
      let all : length front + 1 ≡ length segs = omega (arith, length-append front (active ∷ [])) in
      rw (last, at, all)
        (ap (λ (l : List SegmentStorage). take (length segs) l) (sym (append-nil segs))
          ∙ take-append segs [])

  truncate_to-active :
      (front : List SegmentStorage) (active active' : SegmentStorage) (n o end : ℕ)
      → s.segments ≡ front ++ (active ∷ [])
      → s.next_offset ≡ pos end
      → o < end
      → active.base_offset ≡ pos n
      → n ≤ o
      → truncate_segment page_size c active (pos o) ≡ some active'
      → truncate_to page_size c s (pos o)
        ≡ done (record s { segments = front ++ (active' ∷ []); next_offset = pos o }) tt
  unfolding truncate_to truncate_kept
  truncate_to-active front active active' n o end segments next below base from truncated =
      let differs : eqb_ℤ (pos o) s.next_offset ≡ false =
        ap (λ z. eqb_ℤ (pos o) z) next ∙ (ground arith) in
      let within : ltb_ℤ s.next_offset (pos o) ≡ false =
        ap (λ z. ltb_ℤ z (pos o)) next ∙ (ground arith) in
      ap
        (λ (segs : List SegmentStorage).
          truncate_to page_size c (record s { segments = segs }) (pos o))
        segments
      ∙ rw
          (
            differs,
            within,
            all_kept front active n o base from,
            truncate_kept,
            last_split-append front active,
            truncated,
          )
          refl

  -- A log is cut before a batch of its active segment, where every batch of that segment begins
  -- below the rolling size.
  pub truncate_to-HoldsLog :
      (first : ℕ) (log kept : List (List ℕ)) (b : List ℕ) (cut : List (List ℕ))
      → 1 ≤ page_size
      → IsConfig c
      → (has : HoldsLog c s first log) → has.recent ≡ kept ++ (b ∷ cut)
      → (s' : StorageImpl) × (truncate_to page_size c s (pos (first + total (has.old ++ kept)))
          ≡ done s' tt)
        × Contains c s' first (has.old ++ kept)
        × (s'.closed ≡ s.closed)
  truncate_to-HoldsLog first log kept b cut page config has split =
      let n = first + total has.old in
      let o = first + total (has.old ++ kept) in
      let at : n + total kept ≡ o = omega (arith, total-append has.old kept) in
      let holds : Holds has.active n (kept ++ (b ∷ cut)) =
        subst (Holds has.active n) split has.held in
      let (_, one, _) = (All-behind IsBatch kept (b ∷ cut) holds.2).0 in
      let below : o < first + total log = omega (
        arith,
        at,
        one,
        ap total has.batches,
        total-append has.old has.recent,
        ap total split,
        total-append kept (b ∷ cut),
      ) in
      let shorter : length (flatten kept) < c.segment_max_bytes = omega (
        arith,
        BeginsBelow-kept c.segment_max_bytes 0 kept b cut
            (subst (BeginsBelow c.segment_max_bytes 0) split has.begins),
      ) in
      let (active', truncated, held', writable', _) =
        truncate_segment-Holds page_size c has.active n o kept b cut page config holds
          has.writable.0 (BeginsBelow-small c.segment_max_bytes 0 kept (omega arith)) at in
      (
        record s { segments = has.front ++ (active' ∷ []); next_offset = pos o },
        truncate_to-active has.front has.active active' n o (first + total log) has.segments
            has.next below holds.0 (omega (arith, at)) truncated,
        record {
          front = has.front;
          active = active';
          old = has.old;
          recent = kept;
          segments = refl;
          batches = refl;
          chained = has.chained;
          held = held';
          writable = writable';
          small = omega (arith, shorter, ap length held'.1);
          next = refl;
        },
        refl,
      )

  -- Cutting a log to the offset of a batch of its active segment succeeds, and leaves the batches
  -- before that batch, and the offset as the end.
  pub truncate_to-Contains :
      (first : ℕ) (log kept : List (List ℕ)) (b : List ℕ) (cut : List (List ℕ))
      → 1 ≤ page_size
      → IsConfig c
      → (has : Contains c s first log) → has.recent ≡ kept ++ (b ∷ cut)
      → (s' : StorageImpl) × (truncate_to page_size c s (pos (first + total (has.old ++ kept)))
          ≡ done s' tt)
        × Contains c s' first (has.old ++ kept)
        × (s'.closed ≡ s.closed)
  truncate_to-Contains first log kept b cut page config has split =
      truncate_to-HoldsLog first log kept b cut page config (as_log has) split
