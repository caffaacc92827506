-- ===== src/Storage/Log.antt =====
-- internal/storage/storage.go: the log of a partition, a list of segments of which the last is
-- active. Every operation holds the lock while it changes the list. The notification channel,
-- metrics and logging are not modelled.
pub mod Stamp
pub mod Contains
pub mod Append
pub mod Locate
pub mod Read
pub mod Consume
pub mod Truncate
use bunnymq.Prelude.{
  ℕ, zero, suc, ◌+◌, ◌-◌, ◌/◌, ◌≤◌, ℤ, pos, ◌+ℤ◌, to_u64, leb_ℤ, ltb_ℤ, eqb_ℤ, Option, none, some,
  List, [], ◌∷◌, ◌++◌, length, take, drop, get_elem?, Bool, true, false, ltb, leb, not, ◌≡◌,
  if◌then◌else◌,
}
use bunnymq.Storage.BigEndian.{put_bytes}
use bunnymq.Storage.Records.{wrap_i64}
use bunnymq.Storage.LogSegment.{LogSegment, truncate_log}
use bunnymq.Storage.Segment.{
  StorageConfig, SegmentStorage, StorageError, SegmentReply, storage_closed, offset_out_of_range,
  truncate_beyond_end, Gathered, record_count, new_segment, append_segment, read_segment,
  read_segment_by_time, seal_segment,
}
use bunnymq.Storage.Segment
use bunnymq.Storage.Recovery.{
  SegmentFiles, rebuild_segment_indexes, find_byte_pos_for_offset, recover_storage,
}

pub record StorageImpl : Type 0 where
  pub segments : List SegmentStorage
  pub next_offset : ℤ
  pub closed : Bool
  pub retention_ms : ℤ
  pub retention_bytes : ℤ

-- The replies of an operation: the storage as it is left, with a result or an error, or the panic
-- of an index out of range.
pub data Outcome {ℓ} (A : Type ℓ) : Type ℓ where
  done : StorageImpl → A → Outcome A
  failed : StorageImpl → StorageError → Outcome A
  panicked : Outcome A

-- The segments before the active one, and it.
unfoldable pub last_split {ℓ} : {A : Type ℓ} → List A → Option (List A × A)
last_split [] = none
last_split (x ∷ xs) = elim (last_split xs) [ none ↦ some ([], x) | some p ↦ some (x ∷ p.0, p.1) ]

-- `binary.BigEndian.PutUint64(batch[0:8], uint64(baseOffset))`
unfoldable pub stamp : ℤ → List ℕ → List ℕ
stamp base_offset batch = put_bytes 8 (to_u64 base_offset) ++ drop 8 batch

module _ (page_size : ℕ) (config : StorageConfig) where
  -- The segments after an append: at the rolling size the active one is sealed, `roll`.
  unfoldable pub roll_full : List SegmentStorage → SegmentStorage → ℤ → List SegmentStorage
  roll_full front active next_offset =
      if leb config.segment_max_bytes (length active.log.bytes)
      then front ++ (seal_segment active ∷ new_segment page_size config next_offset ∷ [])
      else front ++ (active ∷ [])

  -- The segment's reply to a batch, taken over by the storage.
  unfoldable pub after_append :
      StorageImpl → List SegmentStorage → List ℕ → SegmentReply → Outcome ℤ
  after_append s front batch (Segment.written active at) =
      let next = wrap_i64 (s.next_offset +ℤ pos (record_count batch)) in
      done (record s { segments = roll_full front active next; next_offset = next }) s.next_offset
  after_append s front batch (Segment.failed active e) =
      failed (record s { segments = front ++ (active ∷ []) }) e
  after_append s front batch Segment.panicked = panicked

  -- `Append`; the first eight bytes of a shorter batch are taken to be beyond its capacity.
  unfoldable pub append_batch : StorageImpl → List ℕ → Outcome ℤ
  append_batch s batch =
      if s.closed
      then failed s storage_closed
      else (if ltb (length batch) 8 then panicked else elim (last_split s.segments) [
        | none ↦ panicked
        | some p ↦
            let stamped = stamp s.next_offset batch in
            after_append s p.0 stamped (append_segment config p.1 stamped)
      ])

-- `segs[i].BaseOffset() <= offset`
abbrev pub begins_by : List SegmentStorage → ℤ → ℕ → Bool
begins_by segs offset i = elim (get_elem? segs i) [
  | none ↦ false
  | some seg ↦ leb_ℤ seg.base_offset offset
]

-- The binary search of `Read`, with the rounds left: each makes the interval shorter.
unfoldable pub last_beginning : (ℕ → Bool) → ℕ → ℕ → ℕ → ℕ
last_beginning test zero lo hi = lo
last_beginning test (suc k) lo hi =
    let mid = (lo + hi + 1) / 2 in
    let above = last_beginning test k mid hi in
    let below = last_beginning test k lo (mid - 1) in
    if ltb lo hi then if test mid then above else below else lo

unfoldable pub read_in : List SegmentStorage → ℤ → ℤ → StorageImpl → Outcome Gathered
read_in segs offset max_bytes s =
    elim (get_elem? segs
      (last_beginning (begins_by segs offset) (length segs) 0 (length segs - 1))) [
        | none ↦ panicked
        | some seg ↦ done s (read_segment seg offset max_bytes)
      ]

-- `Read`
unfoldable pub read : StorageImpl → ℤ → ℤ → Outcome Gathered
read s offset max_bytes = elim (get_elem? s.segments 0) [
  | none ↦ done s ([], offset)
  | some first ↦
      if ltb_ℤ offset first.base_offset
      then failed s offset_out_of_range
      else (if leb_ℤ s.next_offset offset
          then done s ([], offset)
          else read_in s.segments offset max_bytes s)
]

-- `ReadByTime`; `none` is ErrTimestampNotFound.
unfoldable pub read_by_time : List SegmentStorage → ℤ → ℤ → Option Gathered
read_by_time [] timestamp_ms max_bytes = none
read_by_time (seg ∷ segs) timestamp_ms max_bytes =
    let rest = read_by_time segs timestamp_ms max_bytes in
    elim (read_segment_by_time seg timestamp_ms max_bytes) [
      | none ↦ rest
      | some g ↦ if ltb 0 (length g.0) then some g else rest
    ]

unfoldable pub earliest_offset : StorageImpl → ℤ
earliest_offset s = elim (get_elem? s.segments 0) [ none ↦ pos 0 | some first ↦ first.base_offset ]

unfoldable pub latest_offset : StorageImpl → ℤ
latest_offset s = s.next_offset

unfoldable pub set_retention_config : StorageImpl → ℤ → ℤ → StorageImpl
set_retention_config s retention_ms retention_bytes = record s {
  retention_ms = retention_ms;
  retention_bytes = retention_bytes;
}

-- The search of `TruncateTo`, from the last segment down.
unfoldable pub last_kept : (ℕ → Bool) → ℕ → ℕ
last_kept test zero = zero
last_kept test (suc i) = if test (suc i) then suc i else last_kept test i

-- A sealed segment, opened again for writing.
abbrev pub reopen : SegmentStorage → SegmentStorage
reopen s =
    if s.sealed
    then record s {
      log = record { bytes = s.log.bytes; base_offset = s.base_offset; readonly = false };
      sealed = false;
    }
    else s

-- A segment cut before the batch at an offset.
unfoldable pub truncate_segment : ℕ → StorageConfig → SegmentStorage → ℤ → Option SegmentStorage
truncate_segment page_size config seg offset =
    let active = reopen seg in
    rebuild_segment_indexes page_size config
      (record active { log = truncate_log active.log (find_byte_pos_for_offset active offset) })

unfoldable pub truncate_kept :
    ℕ → StorageConfig → StorageImpl → ℤ → List SegmentStorage → Outcome (Unit {0})
truncate_kept page_size config s offset kept = elim (last_split kept) [
  | none ↦ done s tt
  | some p ↦ elim (truncate_segment page_size config p.1 offset) [
    | none ↦ panicked
    | some active ↦ done (record s { segments = p.0 ++ (active ∷ []); next_offset = offset }) tt
  ]
]

-- `TruncateTo`
unfoldable pub truncate_to : ℕ → StorageConfig → StorageImpl → ℤ → Outcome (Unit {0})
truncate_to page_size config s offset =
    if eqb_ℤ offset s.next_offset
    then done s tt
    else (if ltb_ℤ s.next_offset offset
        then failed s truncate_beyond_end
        else truncate_kept page_size config s offset
            (take (last_kept (begins_by s.segments offset) (length s.segments - 1) + 1) s.segments))

-- `Close`, as far as the segments go: the active one is sealed.
unfoldable pub close_storage : StorageImpl → StorageImpl
close_storage s = if s.closed then s else elim (last_split s.segments) [
  | none ↦ record s { closed = true }
  | some p ↦ record s {
    closed = true;
    segments = p.0 ++ ((if p.1.sealed then p.1 else seal_segment p.1) ∷ []);
  }
]

-- `Open`, with the configured retention; `none` is a panic of the recovery.
unfoldable pub open_storage :
    (List ℕ → ℕ) → ℕ → StorageConfig → ℤ → ℤ → List SegmentFiles → Option StorageImpl
open_storage checksum page_size config retention_ms retention_bytes files =
    elim (recover_storage checksum page_size config files) [
      | none ↦ none
      | some p ↦ some (record {
        segments = p.0;
        next_offset = p.1;
        closed = false;
        retention_ms = retention_ms;
        retention_bytes = retention_bytes;
      })
    ]
