-- ===== src/Storage/Log/Contains.antt =====
-- The log of a partition as one sequence of batches, which its segments hold one after the other.
use native.Mathlib.Nat.{div-add-mod', mod-lt}
use mathlib.Core.List.{append_assoc, append-nil}
use bunnymq.Prelude.{
  ℕ, zero, suc, ◌+◌, ◌*◌, ◌-◌, ◌/◌, ◌^◌, ◌≤◌, ◌<◌, pos, List, [], ◌∷◌, ◌++◌, length, take, drop,
  length-replicate, ◌≡◌, refl, sym, ◌∙◌, ap, subst, arith,
}
use bunnymq.Storage.BigEndian.{slice_of}
use bunnymq.Storage.Slices.{slice-of_take}
use bunnymq.Storage.LogSegment.Scan.{flatten}
use bunnymq.Storage.OffsetIndex
use bunnymq.Storage.TimeIndex
use bunnymq.Storage.OffsetIndex.{OffsetIndexSegment, read_entry}
use bunnymq.Storage.Segment.{StorageConfig, SegmentStorage, new_segment, seal_segment}
use bunnymq.Storage.Segment.Layout.{
  total, total-append, PointsInto, Holds, BeginsBelow, BeginsBelow-small,
}
use bunnymq.Storage.Segment.Room.{IsConfig, IsOpen, DuePaid, IsOpen-DuePaid}
use bunnymq.Storage.Log.{StorageImpl}

-- Segments that hold a sequence of batches, one after the other from an offset on.
abbrev pub Chain : List SegmentStorage → ℕ → List (List ℕ) → Type 0
Chain [] n log = log ≡ []
Chain (s ∷ segs) n log =
    (bs : List (List ℕ)) × (rest : List (List ℕ)) × (log ≡ bs ++ rest)
    × Holds s n bs
    × (length s.log.bytes < 2 ^ 31)
    × Chain segs (n + total bs) rest

-- A storage that contains a sequence of batches from an offset on: its older segments hold the
-- first of them, and the active one, which has not reached the rolling size, the others.
pub record Contains (c : StorageConfig) (s : StorageImpl) (first : ℕ) (log : List (List ℕ))
    : Type 0 where
  pub front : List SegmentStorage
  pub active : SegmentStorage
  pub old : List (List ℕ)
  pub recent : List (List ℕ)
  pub segments : s.segments ≡ front ++ (active ∷ [])
  pub batches : log ≡ old ++ recent
  pub chained : Chain front first old
  pub held : Holds active (first + total old) recent
  pub writable : IsOpen c active
  pub small : length active.log.bytes < c.segment_max_bytes
  pub next : s.next_offset ≡ pos (first + total log)

-- A storage that holds a sequence of batches in the same way, where every batch of the active
-- segment begins below the rolling size, and the last one may end above it.
pub record HoldsLog (c : StorageConfig) (s : StorageImpl) (first : ℕ) (log : List (List ℕ))
    : Type 0 where
  pub front : List SegmentStorage
  pub active : SegmentStorage
  pub old : List (List ℕ)
  pub recent : List (List ℕ)
  pub segments : s.segments ≡ front ++ (active ∷ [])
  pub batches : log ≡ old ++ recent
  pub chained : Chain front first old
  pub held : Holds active (first + total old) recent
  pub writable : IsOpen c active
  pub begins : BeginsBelow c.segment_max_bytes 0 recent
  pub due_paid : DuePaid c active
  pub next : s.next_offset ≡ pos (first + total log)

abbrev pub as_log :
    {c : StorageConfig} {s : StorageImpl} {first : ℕ} {log : List (List ℕ)}
    → Contains c s first log
    → HoldsLog c s first log
as_log {c} has = record {
  front = has.front;
  active = has.active;
  old = has.old;
  recent = has.recent;
  segments = has.segments;
  batches = has.batches;
  chained = has.chained;
  held = has.held;
  writable = has.writable;
  begins =
      BeginsBelow-small c.segment_max_bytes 0 has.recent
        (omega (arith, has.small, ap length has.held.1));
  due_paid = IsOpen-DuePaid c has.active has.writable has.small;
  next = has.next;
}

-- Where the active segment's batches end below the rolling size, the log is contained.
abbrev pub as_contained :
    {c : StorageConfig} {s : StorageImpl} {first : ℕ} {log : List (List ℕ)}
    → (has : HoldsLog c s first log) → length (flatten has.recent) < c.segment_max_bytes
    → Contains c s first log
as_contained has below = record {
  front = has.front;
  active = has.active;
  old = has.old;
  recent = has.recent;
  segments = has.segments;
  batches = has.batches;
  chained = has.chained;
  held = has.held;
  writable = has.writable;
  small = omega (arith, below, ap length has.held.1);
  next = has.next;
}

-- `seal` keeps the entries of an index.
seal-read_entry :
    (idx : OffsetIndexSegment) (i : ℕ)
    → i < idx.entry_count
    → read_entry (OffsetIndex.seal idx).mapped i ≡ read_entry idx.mapped i
unfolding OffsetIndex.seal read_entry
seal-read_entry idx i below = cc (same (i * 8) (omega arith), same (i * 8 + 4) (omega arith))
  where
    same :
        (lo : ℕ)
        → lo + 4 ≤ idx.entry_count * 8
        → slice_of lo (lo + 4) (take (idx.entry_count * 8) idx.mapped)
          ≡ slice_of lo (lo + 4) idx.mapped
    same lo h =
        let four : 4 ≡ lo + 4 - lo = omega arith in
        subst
          (λ (w : ℕ).
            take w (drop lo (take (idx.entry_count * 8) idx.mapped)) ≡ take w (drop lo idx.mapped))
          four (slice-of_take lo 4 (idx.entry_count * 8) idx.mapped h)

pub seal_segment-Holds :
    (s : SegmentStorage) (n : ℕ) (bs : List (List ℕ)) → Holds s n bs → Holds (seal_segment s) n bs
unfolding seal_segment OffsetIndex.seal
seal_segment-Holds s n bs (base, bytes, batches, numbered, index) = (
  base,
  bytes,
  batches,
  numbered,
  λ i p. subst (PointsInto bs) (sym (seal-read_entry s.offset_idx i p)) (index i p),
)

-- A quotient that is rounded up covers its dividend.
ceiling_covers : (x p : ℕ) → 1 ≤ p → x ≤ (x + p - 1) / p * p
ceiling_covers x zero h = absurd (omega arith)
ceiling_covers x (suc p) h =
    let positive : 0 < suc p = omega arith in
    omega (arith, div-add-mod' (x + suc p - 1) (suc p), mod-lt (x + suc p - 1) positive)

pub new_segment-Holds :
    (page_size : ℕ) (c : StorageConfig) (n : ℕ) → Holds (new_segment page_size c (pos n)) n []
unfolding new_segment OffsetIndex.open_index
new_segment-Holds page_size c n = (refl, refl, tt, tt, λ i p. absurd (omega arith))

pub new_segment-IsOpen :
    (page_size : ℕ) (c : StorageConfig) (n : ℕ)
    → 1 ≤ page_size
    → IsConfig c
    → IsOpen c (new_segment page_size c (pos n))
unfolding new_segment OffsetIndex.open_index TimeIndex.open_index
new_segment-IsOpen page_size c n page (sample, small) =
    let room = ceiling_covers c.segment_max_bytes c.index_sample_bytes sample in
    let max = (c.segment_max_bytes + c.index_sample_bytes - 1) / c.index_sample_bytes in
    let alloc = ceiling_covers (max * 8) page_size page in
    let t_alloc = ceiling_covers (max * 12) page_size page in
    (
      refl,
      (
        (omega arith, room),
        omega (
          arith,
          alloc,
          length-replicate {A = ℕ} ((max * 8 + page_size - 1) / page_size * page_size) 0,
        ),
      ),
      (
        (omega arith, room),
        omega (
          arith,
          t_alloc,
          length-replicate {A = ℕ} ((max * 12 + page_size - 1) / page_size * page_size) 0,
        ),
      ),
    )

-- A segment behind others.
pub Chain-append :
    (segs : List SegmentStorage) (s : SegmentStorage) (n : ℕ) (log bs : List (List ℕ))
    → Chain segs n log
    → Holds s (n + total log) bs
    → length s.log.bytes < 2 ^ 31
    → Chain (segs ++ (s ∷ [])) n (log ++ bs)
Chain-append [] s n log bs chained holds small =
    let at : n + total log ≡ n = omega (arith, ap total chained) in
    let empty : log ++ bs ≡ bs = ap (λ (l : List (List ℕ)). l ++ bs) chained in
    (bs, [], empty ∙ sym (append-nil bs), subst (λ (m : ℕ). Holds s m bs) at holds, small, refl)
Chain-append (x ∷ segs) s n log bs (b, rest, split, held, short, chained) holds small =
    let at : n + total log ≡ n + total b + total rest =
      omega (arith, ap total split, total-append b rest) in
    (
      b,
      rest ++ bs,
      ap (λ (l : List (List ℕ)). l ++ bs) split ∙ append_assoc b rest bs,
      held,
      short,
      Chain-append segs s (n + total b) rest bs chained (subst (λ (m : ℕ). Holds s m bs) at holds)
          small,
    )
