-- ===== src/Storage/Segment.antt =====
-- internal/storage/segment_storage.go: a segment, of a log and its two indexes. The system calls on
-- its files succeed, and the configured sizes are positive.
pub mod Layout
pub mod Read
pub mod Append
pub mod Room
pub mod Pointers
use bunnymq.Prelude.{
  ℕ, zero, suc, ◌+◌, ◌-◌, ◌≤◌, ℤ, pos, negsuc, ◌+ℤ◌, ◌-ℤ◌, wrap_i32, to_u64, of_u64, leb_ℤ, ltb_ℤ,
  Option, none, some, List, [], ◌∷◌, ◌++◌, length, Bool, true, false, ltb, leb, ◌||◌, ◌&&◌, ◌≡◌,
  if◌then◌else◌,
}
use bunnymq.Storage.BigEndian.{get_bytes, slice_of}
use bunnymq.Storage.Records.{wrap_i64}
use bunnymq.Storage.OffsetIndex
use bunnymq.Storage.TimeIndex
use bunnymq.Storage.OffsetIndex.{OffsetIndexSegment, OffsetEntry, lookup_position}
use bunnymq.Storage.TimeIndex.{TimeIndexSegment, TimeEntry, lookup_relative_offset}
use bunnymq.Storage.LogSegment.{LogSegment, append_log, field, scan_from, scan}

pub record StorageConfig : Type 0 where
  pub segment_max_bytes : ℕ
  pub index_sample_bytes : ℕ

pub record SegmentStorage : Type 0 where
  pub log : LogSegment
  pub offset_idx : OffsetIndexSegment
  pub time_idx : TimeIndexSegment
  pub base_offset : ℤ
  pub sealed : Bool
  pub bytes_since_last_index : ℕ

pub data StorageError : Type 0 where
  segment_read_only index_full storage_closed offset_out_of_range timestamp_not_found : StorageError
  truncate_beyond_end : StorageError

-- The replies of `Append`: the segment with the position of the batch, or an error with the segment
-- as it is left, or the panic of a slice or slot out of range.
pub data SegmentReply : Type 0 where
  written : SegmentStorage → ℕ → SegmentReply
  failed : SegmentStorage → StorageError → SegmentReply
  panicked : SegmentReply

-- The numbers of a batch's header that the segment reads.
abbrev pub batch_base : List ℕ → ℤ
batch_base batch = of_u64 (field 0 8 batch)

abbrev pub record_count : List ℕ → ℕ
record_count batch = field 12 16 batch

abbrev pub max_timestamp : List ℕ → ℤ
max_timestamp batch = of_u64 (field 30 38 batch)

-- The index entries of a batch.
abbrev pub offset_entry : ℤ → List ℕ → ℕ → OffsetEntry
offset_entry base_offset batch at = record {
  relative_offset = wrap_i32 (batch_base batch -ℤ base_offset);
  position = wrap_i32 (pos at);
}

abbrev pub time_entry : ℤ → List ℕ → TimeEntry
time_entry base_offset batch = record {
  timestamp_ms = max_timestamp batch;
  relative_offset = wrap_i32 (batch_base batch -ℤ base_offset);
}

-- `NewSegmentStorage`
unfoldable pub new_segment : ℕ → StorageConfig → ℤ → SegmentStorage
new_segment page_size config base_offset = record {
  log = record { bytes = []; base_offset = base_offset; readonly = false };
  offset_idx =
      OffsetIndex.open_index page_size config.segment_max_bytes config.index_sample_bytes
        base_offset;
  time_idx =
      TimeIndex.open_index page_size config.segment_max_bytes config.index_sample_bytes base_offset;
  base_offset = base_offset;
  sealed = false;
  bytes_since_last_index = 0;
}

-- The entry of the time index, after that of the offset index.
unfoldable pub index_time : SegmentStorage → List ℕ → ℕ → SegmentReply
index_time s batch at = elim (TimeIndex.append_entry s.time_idx (time_entry s.base_offset batch)) [
  | TimeIndex.appended idx ↦ written (record s { time_idx = idx; bytes_since_last_index = 0 }) at
  | TimeIndex.index_full ↦ failed s index_full
  | TimeIndex.panicked ↦ panicked
]

unfoldable pub index_batch : SegmentStorage → List ℕ → ℕ → SegmentReply
index_batch s batch at =
    elim (OffsetIndex.append_entry s.offset_idx (offset_entry s.base_offset batch at)) [
      | OffsetIndex.appended idx ↦ index_time (record s { offset_idx = idx }) batch at
      | OffsetIndex.index_full ↦ failed s index_full
      | OffsetIndex.panicked ↦ panicked
    ]

-- `Append`; the batch is in the log before the indexes are written.
unfoldable pub append_segment : StorageConfig → SegmentStorage → List ℕ → SegmentReply
append_segment config s batch = elim (append_log s.log batch) [
  | none ↦ failed s segment_read_only
  | some p ↦
      let s' : SegmentStorage = record s { log = p.0 } in
      if ltb (length batch) 38
      then panicked
      else (if leb config.index_sample_bytes s.bytes_since_last_index
          then index_batch s' batch p.1
          else written
              (record s' { bytes_since_last_index = s.bytes_since_last_index + length batch }) p.1)
]

-- The bytes that a read has gathered, and the offset after them.
abbrev pub Gathered : Type 0
Gathered = List ℕ × ℤ

-- The offset after a batch.
abbrev pub batch_end : List ℕ → ℤ
batch_end batch = wrap_i64 (batch_base batch +ℤ pos (record_count batch))

-- The callback of `Read`; the batches of a log have whole headers.
unfoldable pub read_step : ℤ → ℤ → Gathered → List ℕ → ℕ → Gathered × Bool
read_step offset max_bytes g batch at =
    if leb_ℤ (batch_end batch) offset
    then (g, true)
    else (if ltb 0 (length g.0) && ltb_ℤ max_bytes (pos (length g.0 + length batch))
        then (g, false)
        else ((g.0 ++ batch, batch_end batch), true))

-- The scan of `Read` from the position that the index gives; a negative one is an error of the
-- file, which `Read` ignores.
abbrev pub read_from : SegmentStorage → ℤ → ℤ → Option ℤ → Gathered
read_from s offset max_bytes none = scan (read_step offset max_bytes) s.log 0 ([], offset)
read_from s offset max_bytes (some (pos at)) =
    scan (read_step offset max_bytes) s.log at ([], offset)
read_from s offset max_bytes (some (negsuc n)) = ([], offset)

-- `Read`
unfoldable pub read_segment : SegmentStorage → ℤ → ℤ → Gathered
read_segment s offset max_bytes =
    read_from s offset max_bytes (lookup_position s.offset_idx (wrap_i32 (offset -ℤ s.base_offset)))

-- `ReadByTime`; `none` is ErrTimestampNotFound.
unfoldable pub read_segment_by_time : SegmentStorage → ℤ → ℤ → Option Gathered
read_segment_by_time s timestamp_ms max_bytes =
    elim (lookup_relative_offset s.time_idx timestamp_ms) [
      | none ↦ none
      | some relative_offset ↦
          some (read_segment s (wrap_i64 (s.base_offset +ℤ relative_offset)) max_bytes)
    ]

-- `Seal`
unfoldable pub seal_segment : SegmentStorage → SegmentStorage
seal_segment s = record s {
  offset_idx = OffsetIndex.seal s.offset_idx;
  time_idx = TimeIndex.seal s.time_idx;
  sealed = true;
}
