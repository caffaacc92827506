-- ===== src/Tests/Batches.antt =====
-- A batch, an empty log and a torn file, for the tests.
use bunnymq.Prelude.{
  ℕ, ◌+◌, ◌-◌, ◌^◌, ◌≤◌, ◌<◌, ℤ, pos, negsuc, to_u64, List, [], ◌∷◌, ◌++◌, length, length-append,
  All, Option, some, none, false, true, map, ◌≡◌, refl, sym, ap, ◌∙◌, arith, ◌⊎◌,
}
use bunnymq.Storage.BigEndian.{get_bytes}
use bunnymq.Storage.LogSegment.Scan.{flatten}
use bunnymq.Storage.Segment.{StorageConfig, SegmentStorage, new_segment, record_count}
use bunnymq.Storage.Segment.Layout.{IsBatch, Holds, Numbered}
use bunnymq.Storage.Segment.Room.{IsConfig, IsOpen}
use bunnymq.Storage.Recovery.{SegmentFiles}
use bunnymq.Storage.Recovery.Scan.{IsValid, IsTorn}
use bunnymq.Storage.Log.{StorageImpl}
use bunnymq.Storage.Log.Contains.{Contains, new_segment-Holds, new_segment-IsOpen}

abbrev pub small_config : StorageConfig
small_config = record { segment_max_bytes = 100; index_sample_bytes = 1 }

-- One batch reaches the rolling size.
abbrev pub tiny_config : StorageConfig
tiny_config = record small_config { segment_max_bytes = 30 }

pub tiny_config-IsConfig : IsConfig tiny_config
tiny_config-IsConfig = (omega arith, omega arith)

pub small_config-IsConfig : IsConfig small_config
small_config-IsConfig = (omega arith, omega arith)

-- A batch of forty bytes with one record, whose checksum is two.
abbrev pub header_bytes : List ℕ
header_bytes = 0 ∷ 0 ∷ 0 ∷ 0 ∷ 0 ∷ 0 ∷ 0 ∷ 0 ∷ 0 ∷ 0 ∷ 0 ∷ 40 ∷ 0 ∷ 0 ∷ 0 ∷ 1 ∷ 0 ∷ 0 ∷ 0 ∷ 2 ∷ []

abbrev pub batch_40 : List ℕ
batch_40 =
    header_bytes
    ++ (0 ∷ 0 ∷ 0 ∷ 0 ∷ 0 ∷ 0 ∷ 0 ∷ 0 ∷ 0 ∷ 9 ∷ 0 ∷ 0 ∷ 0 ∷ 0 ∷ 0 ∷ 0 ∷ 0 ∷ 9 ∷ 5 ∷ 6 ∷ [])

pub batch_40-IsBatch : IsBatch batch_40
unfolding get_bytes
batch_40-IsBatch = ((omega arith, refl), omega arith, omega arith)

pub batch_40-record_count : record_count batch_40 ≡ 1
unfolding get_bytes
batch_40-record_count = refl

pub batch_40-Numbered : Numbered 0 (batch_40 ∷ [])
unfolding get_bytes bunnymq.Prelude.of_u64
batch_40-Numbered = (refl, omega arith, tt)

abbrev pub fresh_segment : SegmentStorage
fresh_segment = new_segment 1 small_config (pos 0)

abbrev pub fresh : StorageImpl
fresh = record {
  segments = fresh_segment ∷ [];
  next_offset = pos 0;
  closed = false;
  retention_ms = negsuc 0;
  retention_bytes = negsuc 0;
}

pub fresh-Contains : Contains small_config fresh 0 []
unfolding new_segment
fresh-Contains = record {
  front = [];
  active = fresh_segment;
  old = [];
  recent = [];
  segments = refl;
  batches = refl;
  chained = refl;
  held = new_segment-Holds 1 small_config 0;
  writable = new_segment-IsOpen 1 small_config 0 (omega arith) small_config-IsConfig;
  small = omega arith;
  next = refl;
}

pub fresh-small : length fresh_segment.log.bytes < 100
unfolding new_segment
fresh-small = omega arith

pub fresh-Holds : Holds fresh_segment 0 []
fresh-Holds = new_segment-Holds 1 small_config 0

pub fresh-IsOpen : IsOpen small_config fresh_segment
fresh-IsOpen = new_segment-IsOpen 1 small_config 0 (omega arith) small_config-IsConfig

-- The length of the records for a checksum, of which the batch has two bytes.
abbrev pub length_sum : List ℕ → ℕ
length_sum records = length records

pub batch_40-IsValid : IsValid length_sum batch_40
unfolding get_bytes
batch_40-IsValid = ((omega arith, refl), refl)

abbrev pub torn_bytes : List ℕ
torn_bytes = 1 ∷ 2 ∷ 3 ∷ []

pub torn_bytes-IsTorn : IsTorn length_sum torn_bytes
torn_bytes-IsTorn b after same valid =
    absurd (omega (arith, valid.0.0, ap length same, length-append b after))

abbrev pub torn_file : SegmentFiles
torn_file = record {
  base_offset = pos 0;
  log = flatten (batch_40 ∷ []) ++ torn_bytes;
  index = [];
  timeindex = [];
}
