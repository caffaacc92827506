-- ===== src/Storage/TimeIndex.antt =====
-- internal/storage/time_index.go: the slots of the mapped file, `Append`, `Lookup`, `Rebuild` and the
-- effect of `Seal` on them. A file is opened on new zeros or on the bytes of a sealed one; syncing
-- and closing it are not modelled.
pub mod Lookup
pub mod Append
pub mod Rebuild
use bunnymq.Prelude.{
  ℕ, zero, suc, ◌+◌, ◌*◌, ◌-◌, ℤ, pos, negsuc, leb_ℤ, wrap_i32, to_u64, of_u64, Option, none, some,
  List, [], ◌∷◌, ◌++◌, length, take, drop, replicate, ◌/◌, Bool, true, false, ltb, leb, eqb,
  if◌then◌else◌,
}
use bunnymq.Storage.BigEndian.{put_bytes, get_bytes, slice_of}
use bunnymq.Storage.Search.{Window, ceiling_search}

pub record TimeEntry : Type 0 where
  pub timestamp_ms : ℤ
  pub relative_offset : ℤ

-- The twelve bytes of an entry.
abbrev pub entry_bytes : TimeEntry → List ℕ
entry_bytes e = put_bytes 8 (to_u64 e.timestamp_ms) ++ put_bytes 4 (to_u64 e.relative_offset)

-- The entry in a slot.
unfoldable pub read_entry : List ℕ → ℕ → TimeEntry
unfolding get_bytes wrap_i32 of_u64
read_entry input i = record {
  timestamp_ms = of_u64 (get_bytes 0 (slice_of (i * 12) (i * 12 + 8) input));
  relative_offset = wrap_i32 (pos (get_bytes 0 (slice_of (i * 12 + 8) (i * 12 + 12) input)));
}

-- `base_offset` is only kept by the source.
pub record TimeIndexSegment : Type 0 where
  pub mapped : List ℕ
  pub entry_count : ℕ
  pub base_offset : ℤ
  pub max_entries : ℕ

-- `copy(data[off:], bytes)`, for bytes that fit
abbrev pub write_at : ℕ → List ℕ → List ℕ → List ℕ
write_at off bytes input = take off input ++ bytes ++ drop (off + length bytes) input

-- The replies of `Append`: its error, and the panic at a slot beyond the mapped file.
pub data AppendReply : Type 0 where
  appended : TimeIndexSegment → AppendReply
  index_full : AppendReply
  panicked : AppendReply

unfoldable pub append_entry : TimeIndexSegment → TimeEntry → AppendReply
unfolding put_bytes to_u64
append_entry s e =
    if leb s.max_entries s.entry_count
    then index_full
    else (if ltb (length s.mapped) (s.entry_count * 12 + 12)
        then panicked
        else appended (record s {
          mapped = write_at (s.entry_count * 12) (entry_bytes e) s.mapped;
          entry_count = s.entry_count + 1;
        }))

-- The test that `Lookup` makes of the entry in the middle.
unfoldable pub passes : TimeIndexSegment → ℤ → ℕ → Bool
unfolding read_entry
passes s timestamp_ms i = leb_ℤ timestamp_ms (read_entry s.mapped i).timestamp_ms

abbrev found_relative_offset : TimeIndexSegment → Option ℕ → Option ℤ
found_relative_offset s none = none
found_relative_offset s (some i) = some (read_entry s.mapped i).relative_offset

-- `Lookup`; an interval of n slots is halved at most n times.
unfoldable pub lookup_relative_offset : TimeIndexSegment → ℤ → Option ℤ
unfolding ceiling_search passes read_entry
lookup_relative_offset s timestamp_ms = found_relative_offset s (
    ceiling_search (passes s timestamp_ms) s.entry_count
      (record { lo = 0; top = s.entry_count; result = none }))

-- The loop of `Rebuild`, from a slot on; `none` is the panic at a slot beyond the mapped file.
unfoldable pub write_entries : ℕ → List TimeEntry → List ℕ → Option (List ℕ)
unfolding put_bytes to_u64
write_entries i [] input = some input
write_entries i (e ∷ es) input =
    let rest = write_entries (i + 1) es (write_at (i * 12) (entry_bytes e) input) in
    if ltb (length input) (i * 12 + 12) then none else rest

unfoldable pub rebuild : TimeIndexSegment → List TimeEntry → Option TimeIndexSegment
unfolding write_entries
rebuild s entries = elim (write_entries 0 entries s.mapped) [
  | none ↦ none
  | some m ↦ some (record s { mapped = m; entry_count = length entries })
]

-- `Seal`, where the system calls succeed: the file is cut to its entries, and is full.
unfoldable pub seal : TimeIndexSegment → TimeIndexSegment
seal s = record s { mapped = take (s.entry_count * 12) s.mapped; max_entries = s.entry_count }

-- `OpenTimeIndex` of a file that it creates: zeros, in whole pages.
unfoldable pub open_index : ℕ → ℕ → ℕ → ℤ → TimeIndexSegment
open_index page_size segment_max_bytes index_sample_bytes base_offset =
    let max_entries = (segment_max_bytes + index_sample_bytes - 1) / index_sample_bytes in
    record {
      mapped = replicate ((max_entries * 12 + page_size - 1) / page_size * page_size) 0;
      entry_count = 0;
      base_offset = base_offset;
      max_entries = max_entries;
    }

-- `openTimeIndexReadOnly`, of a file with these bytes
unfoldable pub open_read_only : List ℕ → ℤ → TimeIndexSegment
open_read_only bytes base_offset = record {
  mapped = bytes;
  entry_count = length bytes / 12;
  base_offset = base_offset;
  max_entries = length bytes / 12;
}
