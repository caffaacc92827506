-- ===== src/Tests/Storage.antt =====
-- Runs of the batch codec, and the theorems on storage at concrete inputs.
use bunnymq.Prelude.{
  ℕ, zero, suc, ◌≡◌, ◌<◌, ◌≤◌, ◌+◌, refl, arith, pos, negsuc, [], ◌∷◌, ◌++◌, List, ◌≤ℤ◌, ◌<ℤ◌, none,
  some, length, ◌⊎◌,
}
use bunnymq.Storage.Decoded.{Decoded, ok, err}
use bunnymq.Storage.Varint.{append_uvarint, decode_uvarint, zigzag, unzigzag}
use bunnymq.Storage.Varint.RoundTrip.{decode-append_uvarint, unzigzag-zigzag}
use bunnymq.Storage.Records.{Record}
use bunnymq.Storage.Batch.{encode_batch, decode_batch}
use bunnymq.Storage.OffsetIndex
use bunnymq.Storage.OffsetIndex.Lookup.{offset_at, lookup_position_lem}
use bunnymq.Storage.OffsetIndex.Append.{append_entry-read_entry}
use bunnymq.Storage.TimeIndex

decode-append_uvarint_example :
    decode_uvarint (append_uvarint (9 ∷ []) 300 ++ (7 ∷ [])) 1
    ≡ ok (300, length (append_uvarint (9 ∷ []) 300))
decode-append_uvarint_example = decode-append_uvarint (9 ∷ []) (7 ∷ []) 300 (omega arith)

unzigzag-zigzag_example : unzigzag (zigzag (negsuc 4)) ≡ negsuc 4
unzigzag-zigzag_example = unzigzag-zigzag (negsuc 4) (omega arith, omega arith)

-- Two entries, at the offsets 0 and 10.
abbrev offsets : OffsetIndex.OffsetIndexSegment
offsets = record {
  mapped = 0 ∷ 0 ∷ 0 ∷ 0 ∷ 0 ∷ 0 ∷ 0 ∷ 0 ∷ 0 ∷ 0 ∷ 0 ∷ 10 ∷ 0 ∷ 0 ∷ 1 ∷ 0 ∷ [];
  entry_count = 2;
  base_offset = pos 0;
  max_entries = 2;
}

offsets-rise :
    (i j : ℕ) → i ≤ j → j < offsets.entry_count → offset_at offsets i ≤ℤ offset_at offsets j
unfolding OffsetIndex.read_entry
offsets-rise zero zero p q = omega arith
offsets-rise zero (suc zero) p q = omega arith
offsets-rise (suc zero) (suc zero) p q = omega arith
offsets-rise (suc i) zero p q = absurd (omega arith)
offsets-rise (suc (suc i)) (suc zero) p q = absurd (omega arith)
offsets-rise i (suc (suc j)) p q = absurd (omega arith)

lookup_position_lem_example :
    ((OffsetIndex.lookup_position offsets (pos 5) ≡ none)
      × ((i : ℕ) → i < offsets.entry_count → pos 5 <ℤ offset_at offsets i))
    ⊎ ((i : ℕ) × (i < offsets.entry_count)
        × (OffsetIndex.lookup_position offsets (pos 5)
            ≡ some (OffsetIndex.read_entry offsets.mapped i).position)
        × (offset_at offsets i ≤ℤ pos 5)
        × ((j : ℕ) → i < j → j < offsets.entry_count → pos 5 <ℤ offset_at offsets j))
lookup_position_lem_example = lookup_position_lem offsets (pos 5) offsets-rise

floor_run : OffsetIndex.lookup_position offsets (pos 11) ≡ some (pos 256)
unfolding OffsetIndex.lookup_position
floor_run = refl

-- Two entries, at the times 3 and 4.
abbrev times : TimeIndex.TimeIndexSegment
times = record {
  mapped =
      0 ∷ 0 ∷ 0 ∷ 0 ∷ 0 ∷ 0 ∷ 0 ∷ 3 ∷ 0 ∷ 0 ∷ 0 ∷ 0 ∷ 0 ∷ 0 ∷ 0 ∷ 0 ∷ 0 ∷ 0 ∷ 0 ∷ 4 ∷ 0 ∷ 0 ∷ 0 ∷ 10
      ∷ [];
  entry_count = 2;
  base_offset = pos 0;
  max_entries = 2;
}

ceiling_run : TimeIndex.lookup_relative_offset times (pos 4) ≡ some (pos 10)
unfolding TimeIndex.lookup_relative_offset
ceiling_run = refl

abbrev sample : List Record
sample =
    record { timestamp_ms = pos 7; key = some (1 ∷ []); value = 2 ∷ 3 ∷ []; headers = [] }
    ∷ record {
      timestamp_ms = pos 5;
      key = none;
      value = [];
      headers = record { key = 4 ∷ []; value = 5 ∷ [] } ∷ [];
    }
    ∷ []

abbrev sum : List ℕ → ℕ
sum [] = 0
sum (b ∷ bs) = b + sum bs

abbrev records_of : Decoded (List ℕ) → Decoded (List Record)
records_of (err x) = err x
records_of (ok input) = elim (decode_batch sum 1000 input) [ ok b ↦ ok b.records | err x ↦ err x ]

batch_run : records_of (encode_batch sum sample) ≡ ok sample
unfolding encode_batch decode_batch
batch_run = refl

-- The same index with its second slot free.
abbrev half_full : OffsetIndex.OffsetIndexSegment
half_full = record offsets { entry_count = 1 }

abbrev entry : OffsetIndex.OffsetEntry
entry = record { relative_offset = pos 20; position = pos 512 }

abbrev filled : OffsetIndex.OffsetIndexSegment
filled = record half_full {
  mapped = 0 ∷ 0 ∷ 0 ∷ 0 ∷ 0 ∷ 0 ∷ 0 ∷ 0 ∷ 0 ∷ 0 ∷ 0 ∷ 20 ∷ 0 ∷ 0 ∷ 2 ∷ 0 ∷ [];
  entry_count = 2;
}

fills : OffsetIndex.append_entry half_full entry ≡ OffsetIndex.appended filled
unfolding OffsetIndex.append_entry
fills = refl

append_entry-read_entry_example :
    (filled.entry_count ≡ half_full.entry_count + 1)
    × (OffsetIndex.read_entry filled.mapped half_full.entry_count ≡ entry)
    × ((i : ℕ)
        → i < half_full.entry_count
        → OffsetIndex.read_entry filled.mapped i ≡ OffsetIndex.read_entry half_full.mapped i)
append_entry-read_entry_example =
    append_entry-read_entry half_full entry filled fills (omega arith, omega arith)
      (omega arith, omega arith)
