-- ===== src/Storage/Segment/Room.antt =====
-- The room that the indexes of an active segment have for the bytes that it may take.
use native.Mathlib.Nat.{lt_of_mul-lt-mul_right}
use bunnymq.Prelude.{ℕ, suc, ◌+◌, ◌*◌, ◌^◌, ◌≤◌, ◌<◌, length, false, ◌≡◌, arith}
use bunnymq.Storage.OffsetIndex.{OffsetIndexSegment}
use bunnymq.Storage.TimeIndex.{TimeIndexSegment}
use bunnymq.Storage.Segment.{StorageConfig, SegmentStorage}

-- Sizes that the index entries of a segment can be written with.
abbrev pub IsConfig : StorageConfig → Type 0
IsConfig c = (1 ≤ c.index_sample_bytes) × (c.segment_max_bytes ≤ 2 ^ 31)

-- The bytes of a segment pay for the entries of an index: each takes a sample of them.
abbrev pub Pays : StorageConfig → ℕ → ℕ → ℕ → ℕ → Type 0
Pays c size since entry_count max_entries =
    (entry_count * c.index_sample_bytes + since ≤ size)
    × (c.segment_max_bytes ≤ max_entries * c.index_sample_bytes)

abbrev pub OffsetRoom : StorageConfig → ℕ → ℕ → OffsetIndexSegment → Type 0
OffsetRoom c size since idx =
    Pays c size since idx.entry_count idx.max_entries × (idx.max_entries * 8 ≤ length idx.mapped)

abbrev pub TimeRoom : StorageConfig → ℕ → ℕ → TimeIndexSegment → Type 0
TimeRoom c size since idx =
    Pays c size since idx.entry_count idx.max_entries × (idx.max_entries * 12 ≤ length idx.mapped)

-- A segment that is open for appending, with indexes that have room for the bytes it may take.
abbrev pub IsOpen : StorageConfig → SegmentStorage → Type 0
IsOpen c s =
    (s.log.readonly ≡ false)
    × OffsetRoom c (length s.log.bytes) s.bytes_since_last_index s.offset_idx
    × TimeRoom c (length s.log.bytes) s.bytes_since_last_index s.time_idx

-- Where an index entry is due, another one can be paid for below the rolling size.
abbrev pub DuePaid : StorageConfig → SegmentStorage → Type 0
DuePaid c s =
    c.index_sample_bytes ≤ s.bytes_since_last_index
    → (s.offset_idx.entry_count * c.index_sample_bytes < c.segment_max_bytes)
      × (s.time_idx.entry_count * c.index_sample_bytes < c.segment_max_bytes)

-- An entry more that can be paid for has a slot.
pub due_slot :
    (c : StorageConfig) (count max_count : ℕ)
    → count * c.index_sample_bytes < c.segment_max_bytes
    → c.segment_max_bytes ≤ max_count * c.index_sample_bytes
    → count < max_count
due_slot c count max_count paid enough = lt_of_mul-lt-mul_right c.index_sample_bytes (omega arith)

-- The rolling size is not reached, so an entry more can be paid for.
pub has_slot :
    (c : StorageConfig) (size since count max_count : ℕ)
    → Pays c size since count max_count
    → size < c.segment_max_bytes
    → count < max_count
has_slot c size since count max_count (paid, enough) h =
    due_slot c count max_count (omega arith) enough

pub IsOpen-DuePaid :
    (c : StorageConfig) (s : SegmentStorage)
    → IsOpen c s
    → length s.log.bytes < c.segment_max_bytes
    → DuePaid c s
IsOpen-DuePaid c s (_, (opays, _), (tpays, _)) small due =
    (omega (arith, opays.0), omega (arith, tpays.0))

-- An entry is written when a sample of bytes has gone by without one.
pub Pays-entry :
    (c : StorageConfig) (count len : ℕ) {size since max_count size' count' max' : ℕ}
    → Pays c size since count max_count
    → c.index_sample_bytes ≤ since
    → count' ≡ count + 1
    → max' ≡ max_count
    → size' ≡ size + len
    → Pays c size' 0 count' max'
Pays-entry c count len (paid, enough) h more same grown =
    rw (more, same, grown) (omega arith, enough)

-- Entries that are paid for by the bytes below the rolling size have their slots.
pub have_slots :
    (c : StorageConfig) (count max_count : ℕ)
    → 1 ≤ c.index_sample_bytes
    → count * c.index_sample_bytes ≤ c.segment_max_bytes
    → c.segment_max_bytes ≤ max_count * c.index_sample_bytes
    → count ≤ max_count
have_slots c count max_count sample paid enough =
    let less : count < suc max_count = lt_of_mul-lt-mul_right c.index_sample_bytes (omega arith) in
    omega arith
