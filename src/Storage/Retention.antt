-- ===== src/Storage/Retention.antt =====
-- internal/storage/retention.go: which sealed segments a pass deletes. The clock is an argument; the
-- loop that starts the passes, appends that run between two deletions of a pass, metrics and logging
-- are not modelled.
pub mod Kept
pub mod Size
use bunnymq.Prelude.{
  ℕ, zero, suc, ◌+◌, ◌-◌, ◌≤◌, ℤ, pos, ◌-ℤ◌, of_u64, leb_ℤ, ltb_ℤ, Option, none, some, List, [],
  ◌∷◌, ◌++◌, length, Bool, true, false, ltb, leb, map, if◌then◌else◌,
}
use bunnymq.Storage.Records.{wrap_i64}
use bunnymq.Storage.LogSegment.{field, read_at, full, unexpected_eof}
use bunnymq.Storage.Segment.{SegmentStorage}
use bunnymq.Storage.Log.{StorageImpl, last_split}

-- `reasons[i]`
pub data Reason : Type 0 where
  not_deleted by_bytes by_time : Reason

-- `LogSize`
abbrev pub log_size : SegmentStorage → ℕ
log_size s = length s.log.bytes

abbrev pub total_size : List SegmentStorage → ℕ
total_size [] = 0
total_size (s ∷ segs) = log_size s + total_size segs

abbrev pub unmarked : List SegmentStorage → List Reason
unmarked sealed_segs = map (λ s. not_deleted) sealed_segs

-- The bytes pass over the sealed segments, with the total that is left.
unfoldable pub mark_bytes : ℤ → ℕ → List SegmentStorage → List Reason
mark_bytes retention_bytes rest [] = []
mark_bytes retention_bytes rest (s ∷ sealed_segs) =
    let marked = mark_bytes retention_bytes (rest - log_size s) sealed_segs in
    if ltb_ℤ retention_bytes (pos rest) then by_bytes ∷ marked else unmarked (s ∷ sealed_segs)

-- `firstBatchTimestamp`; `none` is its error.
unfoldable pub first_batch_timestamp : SegmentStorage → Option ℤ
first_batch_timestamp s = elim (read_at s.log.bytes 0 38) [
  | full header ↦ some (of_u64 (field 22 30 header))
  | unexpected_eof short ↦ none
]

-- The time pass: the reasons of the sealed segments, with the segments behind the first one.
unfoldable pub expire : ℤ → Reason → SegmentStorage → Reason
expire horizon by_bytes next = by_bytes
expire horizon by_time next = by_time
expire horizon not_deleted next = elim (first_batch_timestamp next) [
  | none ↦ not_deleted
  | some ts ↦ if ltb_ℤ ts horizon then by_time else not_deleted
]

unfoldable pub mark_time : ℤ → List Reason → List SegmentStorage → List Reason
mark_time horizon [] segs = []
mark_time horizon (r ∷ reasons) [] = r ∷ reasons
mark_time horizon (r ∷ reasons) (next ∷ segs) =
    expire horizon r next ∷ mark_time horizon reasons segs

-- The segments without those that have a reason.
unfoldable pub delete_marked : List Reason → List SegmentStorage → List SegmentStorage
delete_marked [] segs = segs
delete_marked (r ∷ reasons) [] = []
delete_marked (not_deleted ∷ reasons) (s ∷ segs) = s ∷ delete_marked reasons segs
delete_marked (by_bytes ∷ reasons) (s ∷ segs) = delete_marked reasons segs
delete_marked (by_time ∷ reasons) (s ∷ segs) = delete_marked reasons segs

-- The reasons after the bytes pass, over the sealed segments and the active one.
unfoldable pub size_reasons : ℤ → List SegmentStorage → SegmentStorage → List Reason
size_reasons retention_bytes sealed_segs active =
    if leb_ℤ (pos 0) retention_bytes
    then mark_bytes retention_bytes (total_size (sealed_segs ++ (active ∷ []))) sealed_segs
    else unmarked sealed_segs

-- `segs[1:]`
abbrev pub later : List SegmentStorage → List SegmentStorage
later [] = []
later (s ∷ segs) = segs

-- The reasons after both passes.
unfoldable pub reasons_of : ℤ → ℤ → ℤ → List SegmentStorage → SegmentStorage → List Reason
reasons_of retention_ms retention_bytes now_ms sealed_segs active =
    if ltb_ℤ (pos 0) retention_ms
    then mark_time (wrap_i64 (now_ms -ℤ retention_ms))
        (size_reasons retention_bytes sealed_segs active) (later (sealed_segs ++ (active ∷ [])))
    else size_reasons retention_bytes sealed_segs active

-- `EnforceRetention`, with the number of segments deleted
unfoldable pub enforce_retention : StorageImpl → ℤ → ℤ → ℤ → StorageImpl × ℕ
enforce_retention s retention_ms retention_bytes now_ms = elim (last_split s.segments) [
  | none ↦ (s, 0)
  | some p ↦
      let kept =
        delete_marked (reasons_of retention_ms retention_bytes now_ms p.0 p.1) s.segments in
      (record s { segments = kept }, length s.segments - length kept)
]
