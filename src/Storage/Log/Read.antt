-- ===== src/Storage/Log/Read.antt =====
-- A read of a log answers a run of the log's batches.
use mathlib.Core.List.{append_assoc}
use bunnymq.Prelude.{
  ℕ, ◌+◌, ◌-◌, ◌≤◌, ◌<◌, ℤ, pos, leb_ℤ, ltb_ℤ, List, [], ◌∷◌, ◌++◌, length, get_elem?, true, false,
  ◌≡◌, refl, sym, ◌∙◌, ap, subst, arith, some,
}
use bunnymq.Storage.LogSegment.Scan.{flatten}
use bunnymq.Storage.Segment.{StorageConfig, SegmentStorage, Gathered, record_count, read_segment}
use bunnymq.Storage.Segment.Layout.{total, total-append}
use bunnymq.Storage.Segment.Room.{IsConfig}
use bunnymq.Storage.Segment.Pointers.{total-≤}
use bunnymq.Storage.Segment.Read.{Covers, read_segment-Covers}
use bunnymq.Storage.Log.{StorageImpl, Outcome, done, begins_by, last_beginning, read_in, read}
use bunnymq.Storage.Log.Locate.{last_beginning-IsLast, begins_mono, locate}
use bunnymq.Storage.Log.Contains.{Chain, Contains, Chain-append}

module _ (c : StorageConfig) (s : StorageImpl) (first : ℕ) (log : List (List ℕ)) where
  pub chained_all : IsConfig c → Contains c s first log → Chain s.segments first log
  chained_all config has =
      subst (λ (segs : List SegmentStorage). Chain segs first log) (sym has.segments)
        (subst (Chain (has.front ++ (has.active ∷ [])) first) (sym has.batches) (
          Chain-append has.front has.active first has.old has.recent has.chained has.held
            (omega (arith, config.1, has.small))))

  -- A run of a segment's batches is one of the whole log's.
  wider_Covers :
      (o : ℕ) (max_bytes : ℤ) (before bs after : List (List ℕ)) (g : Gathered)
      → log ≡ before ++ (bs ++ after)
      → Covers o max_bytes (first + total before) bs g
      → Covers o max_bytes first log g
  wider_Covers o max_bytes before bs after g split
        (skip, b, run, rest, parts, low, high, same, bound) =
      let at : first + total (before ++ skip) ≡ first + total before + total skip =
        omega (arith, total-append before skip) in
      (
        before ++ skip,
        b,
        run,
        rest ++ after,
        split
            ∙ ap (λ (l : List (List ℕ)). before ++ (l ++ after)) parts
            ∙ ap (λ (l : List (List ℕ)). before ++ l)
                (append_assoc skip (b ∷ run ++ rest) after
                  ∙ ap (λ (l : List (List ℕ)). skip ++ (b ∷ l)) (append_assoc run rest after))
            ∙ sym (append_assoc before skip (b ∷ run ++ (rest ++ after))),
        omega arith,
        omega arith,
        same ∙ ap (λ (k : ℕ). (b ++ flatten run, pos (k + record_count b + total run))) (sym at),
        bound,
      )

  abbrev Answered : StorageImpl → ℕ → ℤ → Outcome Gathered → Type 0
  Answered t o max_bytes r = (g : Gathered) × (r ≡ done t g) × Covers o max_bytes first log g

  read_in-found :
      (t : StorageImpl) (segs : List SegmentStorage) (o : ℕ) (max_bytes : ℤ) (seg : SegmentStorage)
      → get_elem? segs (last_beginning (begins_by segs (pos o)) (length segs) 0 (length segs - 1))
        ≡ some seg
      → read_in segs (pos o) max_bytes t ≡ done t (read_segment seg (pos o) max_bytes)
  unfolding read_in
  read_in-found t segs o max_bytes seg found = rw (read_in, found) refl

  read_in-Covers :
      (t : StorageImpl) (segs : List SegmentStorage) (o : ℕ) (max_bytes : ℤ)
      → Chain segs first log
      → begins_by segs (pos o) 0 ≡ true
      → o < first + total log
      → Answered t o max_bytes (read_in segs (pos o) max_bytes t)
  read_in-Covers t segs o max_bytes chained begins below =
      let i = last_beginning (begins_by segs (pos o)) (length segs) 0 (length segs - 1) in
      let (last, later) =
        last_beginning-IsLast (begins_by segs (pos o)) (length segs) (length segs) 0
          (length segs - 1) (begins_mono o segs first log chained) (omega arith) (omega arith)
          begins (λ j p q. absurd (omega arith)) in
      let (seg, before, bs, after, found, split, held, small, low, high) =
        locate o segs first log chained i last later below in
      let size = total-≤ bs held.2 in
      (
        read_segment seg (pos o) max_bytes,
        read_in-found t segs o max_bytes seg found,
        wider_Covers o max_bytes before bs after (read_segment seg (pos o) max_bytes) split (
            read_segment-Covers seg (first + total before) o max_bytes bs held low high
              (omega (arith, size, ap length held.1))),
      )

  abbrev with_segments : List SegmentStorage → StorageImpl
  with_segments segs = record s { segments = segs }

  read-read_in :
      (x : SegmentStorage) (segs : List SegmentStorage) (o : ℕ) (max_bytes : ℤ)
      → s.next_offset ≡ pos (first + total log)
      → x.base_offset ≡ pos first
      → first ≤ o
      → o < first + total log
      → read (with_segments (x ∷ segs)) (pos o) max_bytes
        ≡ read_in (x ∷ segs) (pos o) max_bytes (with_segments (x ∷ segs))
  unfolding read
  read-read_in x segs o max_bytes next base from below =
      let above : ltb_ℤ (pos o) x.base_offset ≡ false =
        ap (λ z. ltb_ℤ (pos o) z) base ∙ (ground arith) in
      let within : leb_ℤ s.next_offset (pos o) ≡ false =
        ap (λ z. leb_ℤ z (pos o)) next ∙ (ground arith) in
      rw (above, within) refl

  read_segments :
      (segs : List SegmentStorage) (o : ℕ) (max_bytes : ℤ)
      → s.next_offset ≡ pos (first + total log)
      → Chain segs first log
      → first ≤ o
      → o < first + total log
      → Answered (with_segments segs) o max_bytes (read (with_segments segs) (pos o) max_bytes)
  read_segments [] o max_bytes next chained from below = absurd (omega (arith, ap total chained))
  read_segments (x ∷ segs) o max_bytes next chained from below =
      let begins : leb_ℤ (pos first) (pos o) ≡ true = ground arith in
      subst (Answered (with_segments (x ∷ segs)) o max_bytes)
        (sym (read-read_in x segs o max_bytes next chained.3.0 from below))
        (read_in-Covers (with_segments (x ∷ segs)) (x ∷ segs) o max_bytes chained
          (ap (λ z. leb_ℤ z (pos o)) chained.3.0 ∙ begins) below)

  -- A read of a log at an offset that it contains answers the bytes of a run of its batches, the
  -- first of which covers the offset, and the offset after the last.
  pub read-Covers :
      (o : ℕ) (max_bytes : ℤ)
      → IsConfig c
      → Contains c s first log
      → first ≤ o
      → o < first + total log
      → (g : Gathered) × (read s (pos o) max_bytes ≡ done s g) × Covers o max_bytes first log g
  read-Covers o max_bytes config has from below =
      read_segments s.segments o max_bytes has.next (chained_all config has) from below
