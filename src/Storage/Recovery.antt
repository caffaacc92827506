-- ===== src/Storage/Recovery.antt =====
-- internal/storage/recovery.go: the recovery of the segments of a directory, and the rebuild of a
-- segment's indexes. The directory is the sequence of its segments' files in the order of their
-- names; the system calls succeed; `checksum` is that of hash/crc32.
pub mod Scan
pub mod Rebuild
pub mod Crash
use bunnymq.Prelude.{
  ℕ, zero, suc, ◌+◌, ◌-◌, ◌≤◌, ℤ, pos, ◌+ℤ◌, eqb_ℤ, Option, none, some, List, [], ◌∷◌, ◌++◌, length,
  Bool, true, false, ltb, leb, eqb, not, ◌||◌, ◌≡◌, if◌then◌else◌, map,
}
use bunnymq.Storage.BigEndian.{get_bytes, slice_of}
use bunnymq.Storage.Records.{wrap_i64}
use bunnymq.Storage.OffsetIndex
use bunnymq.Storage.TimeIndex
use bunnymq.Storage.OffsetIndex.{OffsetEntry}
use bunnymq.Storage.TimeIndex.{TimeEntry}
use bunnymq.Storage.LogSegment.{
  LogSegment, field, read_at, full, unexpected_eof, scan, truncate_log,
}
use bunnymq.Storage.Segment.{
  StorageConfig, SegmentStorage, new_segment, batch_base, batch_end, offset_entry, time_entry,
}

-- The variables of a rebuild: the entries and `bytesSince`, and whether the callback has panicked.
pub record Sampled : Type 0 where
  pub off_entries : List OffsetEntry
  pub t_entries : List TimeEntry
  pub bytes_since : ℕ
  pub panicked : Bool

-- The callback of a rebuild, which goes on to the end of the log. It panics at a batch that is
-- shorter than a header.
unfoldable pub sample_step : StorageConfig → ℤ → Sampled → List ℕ → ℕ → Sampled × Bool
sample_step config base_offset s batch at =
    if ltb (length batch) 38
    then (record s { panicked = true }, false)
    else if leb config.index_sample_bytes s.bytes_since
    then (
      record s {
        off_entries = s.off_entries ++ (offset_entry base_offset batch at ∷ []);
        t_entries = s.t_entries ++ (time_entry base_offset batch ∷ []);
        bytes_since = 0;
      },
      true,
    )
    else (record s { bytes_since = s.bytes_since + length batch }, true)

unfoldable pub sample_log : StorageConfig → LogSegment → ℤ → Sampled
sample_log config log base_offset =
    scan (sample_step config base_offset) log 0
      (record { off_entries = []; t_entries = []; bytes_since = 0; panicked = false })

-- The indexes made anew from the log: `rebuildSegmentIndexes`, and the end of `recoverStorage`.
-- `none` is the panic of an index that is too small, or of the callback.
unfoldable pub rebuild_segment_indexes : ℕ → StorageConfig → SegmentStorage → Option SegmentStorage
rebuild_segment_indexes page_size config s =
    let sampled = sample_log config s.log s.base_offset in
    if sampled.panicked
    then none
    else elim (OffsetIndex.rebuild
        (OffsetIndex.open_index page_size config.segment_max_bytes config.index_sample_bytes
          s.base_offset)
        sampled.off_entries) [
          | none ↦ none
          | some idx ↦
              elim (TimeIndex.rebuild
                (TimeIndex.open_index page_size config.segment_max_bytes config.index_sample_bytes
                  s.base_offset)
                sampled.t_entries) [
                  | none ↦ none
                  | some tidx ↦ some (record s {
                    offset_idx = idx;
                    time_idx = tidx;
                    bytes_since_last_index = sampled.bytes_since;
                  })
                ]
        ]

-- The loop of `findBytePosForOffset`, with the rounds left: a round passes twelve bytes at least.
unfoldable pub find_from : ℤ → ℕ → List ℕ → ℕ → ℕ
find_from offset zero file at = length file
find_from offset (suc k) file at =
    if ltb at (length file)
    then elim (read_at file at 12) [
      | unexpected_eof short ↦ length file
      | full header ↦
          if eqb_ℤ (batch_base header) offset
          then at
          else (let batch_len = field 8 12 header in
              let rest = find_from offset k file (at + batch_len) in
              if ltb batch_len 12 then length file else rest)
    ]
    else length file

unfoldable pub find_byte_pos_for_offset : SegmentStorage → ℤ → ℕ
find_byte_pos_for_offset s offset =
    if eqb_ℤ offset s.base_offset then 0 else find_from offset (length s.log.bytes) s.log.bytes 0

-- What a round of `scanActiveLog` finds: no whole batch, one that fails the check, or the length of
-- a valid one and the offset after it.
pub data ActiveRound : Type 0 where
  incomplete crc_failed : ActiveRound
  valid : ℕ → ℤ → ActiveRound

pub record ActiveScan : Type 0 where
  pub valid_pos : ℕ
  pub next_offset : ℤ
  pub crc_errors : ℕ

-- The files of a segment.
pub record SegmentFiles : Type 0 where
  pub base_offset : ℤ
  pub log : List ℕ
  pub index : List ℕ
  pub timeindex : List ℕ

-- `OpenSegmentStorage` of a sealed segment
unfoldable pub open_sealed : SegmentFiles → SegmentStorage
open_sealed f = record {
  log = record { bytes = f.log; base_offset = f.base_offset; readonly = true };
  offset_idx = OffsetIndex.open_read_only f.index f.base_offset;
  time_idx = TimeIndex.open_read_only f.timeindex f.base_offset;
  base_offset = f.base_offset;
  sealed = true;
  bytes_since_last_index = 0;
}

module _ (checksum : List ℕ → ℕ) where
  unfoldable pub round_at : List ℕ → ℕ → ActiveRound
  round_at file at =
      let header = slice_of at (at + 38) file in
      let batch_len = field 8 12 header in
      let records = slice_of (at + 38) (at + batch_len) file in
      if ltb (length header) 38
        || ltb batch_len 38
        || ltb (length file) (at + batch_len)
        || ltb (length records) (batch_len - 38)
      then incomplete
      else (if eqb (checksum records) (field 16 20 header)
          then valid batch_len (batch_end header)
          else crc_failed)

  -- The loop of `scanActiveLog`, with the rounds left: a round passes 38 bytes at least.
  unfoldable pub scan_active : ℕ → List ℕ → ℕ → ℤ → ActiveScan
  scan_active zero file at offset = record { valid_pos = at; next_offset = offset; crc_errors = 0 }
  scan_active (suc k) file at offset =
      if ltb at (length file)
      then elim (round_at file at) [
        | incomplete ↦ record { valid_pos = at; next_offset = offset; crc_errors = 0 }
        | crc_failed ↦ record { valid_pos = at; next_offset = offset; crc_errors = 1 }
        | valid batch_len next ↦ scan_active k file (at + batch_len) next
      ]
      else record { valid_pos = at; next_offset = offset; crc_errors = 0 }

  -- `scanActiveLog`
  abbrev pub scan_active_log : List ℕ → ℤ → ActiveScan
  scan_active_log file base_offset = scan_active (length file) file 0 base_offset

  -- The active segment, recovered: its log is cut after the valid batches, and its indexes are made
  -- anew.
  unfoldable pub recover_active :
      ℕ → StorageConfig → SegmentFiles → Option (SegmentStorage × ActiveScan)
  recover_active page_size config f =
      let found = scan_active_log f.log f.base_offset in
      let log =
        truncate_log (record { bytes = f.log; base_offset = f.base_offset; readonly = false })
          found.valid_pos in
      elim (rebuild_segment_indexes page_size config
        (record (new_segment page_size config f.base_offset) { log = log })) [
          | none ↦ none
          | some s ↦ some (s, found)
        ]

  -- `recoverStorage`, with the number of failed checks; `none` is the panic of a rebuild.
  unfoldable pub recover_storage :
      ℕ → StorageConfig → List SegmentFiles → Option (List SegmentStorage × ℤ × ℕ)
  recover_storage page_size config [] = some (new_segment page_size config (pos 0) ∷ [], pos 0, 0)
  recover_storage page_size config (f ∷ []) = elim (recover_active page_size config f) [
    | none ↦ none
    | some p ↦ some (p.0 ∷ [], p.1.next_offset, p.1.crc_errors)
  ]
  recover_storage page_size config (f ∷ g ∷ files) =
      elim (recover_storage page_size config (g ∷ files)) [
        | none ↦ none
        | some p ↦ some (open_sealed f ∷ p.0, p.1, p.2)
      ]
