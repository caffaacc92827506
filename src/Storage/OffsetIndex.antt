-- ===== src/Storage/OffsetIndex.antt =====
-- internal/storage/offset_index.go: the slots of the mapped file, `Append`, `Lookup`, `Rebuild` and the
-- effect of `Seal` on them. A file is opened on new zeros or on the bytes of a sealed one; syncing
-- and closing it are not modelled.
pub mod Lookup
pub mod Append
pub mod Rebuild
use bunnymq.Prelude.{
  ℕ, zero, suc, ◌+◌, ◌*◌, ◌-◌, ℤ, pos, negsuc, leb_ℤ, wrap_i32, to_u64, of_u64, Option, none, some,
  List, [], ◌∷◌, ◌++◌, length, take, drop, replicate, ◌/◌, Bool, true, false, ltb, leb, eqb,
  if◌then◌else◌,
}
use bunnymq.Storage.BigEndian.{put_bytes, get_bytes, slice_of}
use bunnymq.Storage.Search.{Window, floor_search}

pub record OffsetEntry : Type 0 where
  pub relative_offset : ℤ
  pub position : ℤ

-- The eight bytes of an entry.
abbrev pub entry_bytes : OffsetEntry → List ℕ
entry_bytes e = put_bytes 4 (to_u64 e.relative_offset) ++ put_bytes 4 (to_u64 e.position)

-- `int32(binary.BigEndian.Uint32(data[off:off+4]))`
abbrev read_i32 : ℕ → List ℕ → ℤ
read_i32 off input = wrap_i32 (pos (get_bytes 0 (slice_of off (off + 4) input)))

-- The entry in a slot.
unfoldable pub read_entry : List ℕ → ℕ → OffsetEntry
unfolding get_bytes wrap_i32
read_entry input i = record {
  relative_offset = read_i32 (i * 8) input;
  position = read_i32 (i * 8 + 4) input;
}

-- `base_offset` is only kept by the source.
pub record OffsetIndexSegment : Type 0 where
  pub mapped : List ℕ
  pub entry_count : ℕ
  pub base_offset : ℤ
  pub max_entries : ℕ

-- `copy(data[off:], bytes)`, for bytes that fit
abbrev pub write_at : ℕ → List ℕ → List ℕ → List ℕ
write_at off bytes input = take off input ++ bytes ++ drop (off + length bytes) input

-- The replies of `Append`: its error, and the panic at a slot beyond the mapped file.
pub data AppendReply : Type 0 where
  appended : OffsetIndexSegment → AppendReply
  index_full : AppendReply
  panicked : AppendReply

unfoldable pub append_entry : OffsetIndexSegment → OffsetEntry → AppendReply
unfolding put_bytes to_u64
append_entry s e =
    if leb s.max_entries s.entry_count
    then index_full
    else (if ltb (length s.mapped) (s.entry_count * 8 + 8)
        then panicked
        else appended (record s {
          mapped = write_at (s.entry_count * 8) (entry_bytes e) s.mapped;
          entry_count = s.entry_count + 1;
        }))

-- The test that `Lookup` makes of the entry in the middle.
unfoldable pub passes : OffsetIndexSegment → ℤ → ℕ → Bool
unfolding read_entry
passes s relative_offset i = leb_ℤ (read_entry s.mapped i).relative_offset relative_offset

abbrev found_position : OffsetIndexSegment → Option ℕ → Option ℤ
found_position s none = none
found_position s (some i) = some (read_entry s.mapped i).position

-- `Lookup`; an interval of n slots is halved at most n times.
unfoldable pub lookup_position : OffsetIndexSegment → ℤ → Option ℤ
unfolding floor_search passes read_entry
lookup_position s relative_offset = found_position s (
    floor_search (passes s relative_offset) s.entry_count
      (record { lo = 0; top = s.entry_count; result = none }))

-- The loop of `Rebuild`, from a slot on; `none` is the panic at a slot beyond the mapped file.
unfoldable pub write_entries : ℕ → List OffsetEntry → List ℕ → Option (List ℕ)
unfolding put_bytes to_u64
write_entries i [] input = some input
write_entries i (e ∷ es) input =
    let rest = write_entries (i + 1) es (write_at (i * 8) (entry_bytes e) input) in
    if ltb (length input) (i * 8 + 8) then none else rest

unfoldable pub rebuild : OffsetIndexSegment → List OffsetEntry → Option OffsetIndexSegment
unfolding write_entries
rebuild s entries = elim (write_entries 0 entries s.mapped) [
  | none ↦ none
  | some m ↦ some (record s { mapped = m; entry_count = length entries })
]

-- `Seal`, where the system calls succeed: the file is cut to its entries, and is full.
unfoldable pub seal : OffsetIndexSegment → OffsetIndexSegment
seal s = record s { mapped = take (s.entry_count * 8) s.mapped; max_entries = s.entry_count }

-- `OpenOffsetIndex` of a file that it creates: zeros, in whole pages.
unfoldable pub open_index : ℕ → ℕ → ℕ → ℤ → OffsetIndexSegment
open_index page_size segment_max_bytes index_sample_bytes base_offset =
    let max_entries = (segment_max_bytes + index_sample_bytes - 1) / index_sample_bytes in
    record {
      mapped = replicate ((max_entries * 8 + page_size - 1) / page_size * page_size) 0;
      entry_count = 0;
      base_offset = base_offset;
      max_entries = max_entries;
    }

-- `openOffsetIndexReadOnly`, of a file with these bytes
unfoldable pub open_read_only : List ℕ → ℤ → OffsetIndexSegment
open_read_only bytes base_offset = record {
  mapped = bytes;
  entry_count = length bytes / 8;
  base_offset = base_offset;
  max_entries = length bytes / 8;
}
