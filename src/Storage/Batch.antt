-- ===== src/Storage/Batch.antt =====
-- internal/storage/batch.go: `EncodeBatch`, `DecodeBatch` and `DecodeNextBatch`.
-- The checksum, `crc32.Checksum` with the Castagnoli table of hash/crc32, is a parameter.
use bunnymq.Prelude.{
  ℕ, zero, suc, ◌+◌, ◌-◌, ◌^◌, ℤ, pos, negsuc, pos_part, ltb_ℤ, wrap_i32, to_u64, of_u64, List, [],
  ◌∷◌, ◌++◌, length, drop, Bool, true, false, ◌||◌, ltb, leb, eqb, not, if◌then◌else◌,
}
use bunnymq.Storage.Decoded.{
  Decoded, batch_too_short, batch_data_truncated, crc_mismatch, no_more_batches, records_empty,
  panicked, ok, err, ◌>>=◌, ◌>>◌, fail_when,
}
use bunnymq.Storage.BigEndian.{put_bytes, get_bytes, slice_of}
use bunnymq.Storage.Records.{Record, append_record, decode_record}

pub record BatchHeader : Type 0 where
  pub base_offset : ℤ
  pub batch_length : ℤ
  pub record_count : ℤ
  pub crc32 : ℕ
  pub attributes : ℤ
  pub base_timestamp : ℤ
  pub max_timestamp : ℤ

pub record Batch : Type 0 where
  pub header : BatchHeader
  pub records : List Record

-- `for i, rec := range records`
unfoldable pub append_records : List ℕ → ℤ → ℕ → List Record → List ℕ
unfolding append_record
append_records buf base_timestamp i [] = buf
append_records buf base_timestamp i (rec ∷ recs) =
    append_records (append_record buf rec base_timestamp (pos i)) base_timestamp (i + 1) recs

-- `records[len(records)-1].TimestampMs`, after the first record
unfoldable pub last_timestamp : ℤ → List Record → ℤ
last_timestamp t [] = t
last_timestamp t (rec ∷ recs) = last_timestamp rec.timestamp_ms recs

-- `int16(x)` of sixteen bits
abbrev of_bits16 : ℕ → ℤ
of_bits16 r = if ltb r (2 ^ 15) then pos r else negsuc (2 ^ 16 - 1 - r)

-- The header of a batch that spells `n` bytes of records.
unfoldable pub parse_header : List ℕ → BatchHeader
unfolding get_bytes of_u64 wrap_i32
parse_header input = record {
  base_offset = of_u64 (get_bytes 0 (slice_of 0 8 input));
  batch_length = wrap_i32 (pos (get_bytes 0 (slice_of 8 12 input)));
  record_count = wrap_i32 (pos (get_bytes 0 (slice_of 12 16 input)));
  crc32 = get_bytes 0 (slice_of 16 20 input);
  attributes = of_bits16 (get_bytes 0 (slice_of 20 22 input));
  base_timestamp = of_u64 (get_bytes 0 (slice_of 22 30 input));
  max_timestamp = of_u64 (get_bytes 0 (slice_of 30 38 input));
}

module _ (checksum : List ℕ → ℕ) where
  -- A number is put in as many bytes as its field has, so the conversion to 32 bits is `put_bytes`.
  unfoldable pub encode_batch : List Record → Decoded (List ℕ)
  unfolding append_records last_timestamp put_bytes to_u64
  encode_batch [] = err records_empty
  encode_batch (rec ∷ recs) =
      let body = append_records [] rec.timestamp_ms 0 (rec ∷ recs) in
      ok (
        put_bytes 8 0
        ++ put_bytes 4 (38 + length body)
        ++ put_bytes 4 (length (rec ∷ recs))
        ++ put_bytes 4 (checksum body)
        ++ put_bytes 2 0
        ++ put_bytes 8 (to_u64 rec.timestamp_ms)
        ++ put_bytes 8 (to_u64 (last_timestamp rec.timestamp_ms recs))
        ++ body)

  module _ (limit : ℕ) where
    -- `for pos < len(recsData)`, with the rounds left. A record ends after it begins, so the
    -- length of the input is enough.
    unfoldable pub decode_records : ℕ → List ℕ → ℕ → ℤ → Decoded (List Record)
    unfolding decode_record
    decode_records zero input p base_timestamp = ok []
    decode_records (suc k) input p base_timestamp =
        if ltb p (length input)
        then (do
          (rec, p') ← decode_record limit input p base_timestamp
          rest ← decode_records k input (pos_part p') base_timestamp
          ok (rec ∷ rest))
        else ok []

    abbrev is_negative : ℤ → Bool
    is_negative (pos n) = false
    is_negative (negsuc n) = true

    -- `make([]Record, 0, bh.RecordCount)` panics at a negative capacity.
    unfoldable pub decode_batch : List ℕ → Decoded Batch
    unfolding parse_header wrap_i32 decode_records
    decode_batch input = do
      fail_when (ltb (length input) 38) batch_too_short
      let bh = parse_header input
      fail_when (ltb_ℤ bh.batch_length (pos 38) || ltb_ℤ (pos (length input)) bh.batch_length)
          batch_data_truncated
      let recs_data = slice_of 38 (pos_part bh.batch_length) input
      fail_when (not (eqb (checksum recs_data) bh.crc32)) crc_mismatch
      fail_when (is_negative bh.record_count || ltb limit (pos_part bh.record_count)) panicked
      records ← decode_records (length recs_data) recs_data 0 bh.base_timestamp
      ok (record { header = bh; records = records })

    -- The batch at a position, and the position after it.
    unfoldable pub decode_next_batch : List ℕ → ℕ → Decoded (Batch × ℕ)
    unfolding decode_batch
    decode_next_batch input p = do
      fail_when (leb (length input) p) no_more_batches
      batch ← decode_batch (drop p input)
      ok (batch, p + pos_part batch.header.batch_length)
