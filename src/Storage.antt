-- ===== src/Storage.antt =====
-- The storage of a partition's log, internal/storage: the format of record batches and the two
-- indexes of a segment.
pub mod Decoded
pub mod BigEndian
pub mod Slices
pub mod Varint
pub mod Records
pub mod Batch
pub mod Search
pub mod OffsetIndex
pub mod TimeIndex
pub mod LogSegment
pub mod Segment
pub mod Recovery
pub mod Log
pub mod Retention
