-- ===== src/Storage/Records.antt =====
-- internal/storage/batch.go: the records of a batch, `appendRecord` and `decodeRecord`.
-- A nil slice and an empty one differ only for a record's key. `make` panics above a number of
-- elements that depends on the platform; the number is the parameter `limit`. An `int` is 64 bits.
use bunnymq.Prelude.{
  ℕ, zero, suc, ◌+◌, ℤ, pos, negsuc, ◌+ℤ◌, ◌-ℤ◌, ltb_ℤ, leb_ℤ, to_u64, of_u64, Option, none, some,
  List, [], ◌∷◌, ◌++◌, length, take, drop, ltb,
}
use bunnymq.Prelude.Keys.{Bytes}
use bunnymq.Storage.Decoded.{
  Decoded, DecodeError, record_beyond_data, truncated_record, key_beyond_record,
  value_beyond_record, header_key_beyond_record, header_value_beyond_record, panicked, ok, ◌>>=◌,
  ◌>>◌, fail_when,
}
use bunnymq.Storage.Varint.{append_uvarint, append_zigzag_varint, decode_uvarint, unzigzag}

pub record RecordHeader : Type 0 where
  pub key : Bytes
  pub value : Bytes

-- `key` is `none` for a nil key.
pub record Record : Type 0 where
  pub timestamp_ms : ℤ
  pub key : Option Bytes
  pub value : Bytes
  pub headers : List RecordHeader

-- An exact result stored in an `int64`.
abbrev pub wrap_i64 : ℤ → ℤ
wrap_i64 z = of_u64 (to_u64 z)

abbrev append_key : List ℕ → Option Bytes → List ℕ
append_key body none = append_zigzag_varint body (negsuc 0)
append_key body (some key) = append_zigzag_varint body (pos (length key)) ++ key

-- A length as a varint, and the bytes.
abbrev append_sized : List ℕ → Bytes → List ℕ
append_sized body b = append_uvarint body (length b) ++ b

unfoldable pub append_headers : List ℕ → List RecordHeader → List ℕ
unfolding append_uvarint
append_headers body [] = body
append_headers body (h ∷ hs) = append_headers (append_sized (append_sized body h.key) h.value) hs

-- The body of a record, its attributes byte first.
unfoldable pub record_body : Record → ℤ → ℤ → List ℕ
unfolding append_zigzag_varint append_uvarint append_headers to_u64 of_u64 ◌-ℤ◌
record_body rec base_timestamp offset_delta =
    let body = append_zigzag_varint (0 ∷ []) (wrap_i64 (rec.timestamp_ms -ℤ base_timestamp)) in
    let body = append_zigzag_varint body offset_delta in
    let body = append_key body rec.key in
    let body = append_sized body rec.value in
    append_headers (append_uvarint body (length rec.headers)) rec.headers

unfoldable pub append_record : List ℕ → Record → ℤ → ℤ → List ℕ
unfolding append_uvarint record_body
append_record buf rec base_timestamp offset_delta =
    append_sized buf (record_body rec base_timestamp offset_delta)

-- `pos + int(n)`, with the wrap-around of both
abbrev advance : ℕ → ℕ → ℤ
advance p n = wrap_i64 (pos p +ℤ of_u64 n)

module _ (limit : ℕ) where
  -- `if pos+int(n) > end { return error }; b := make([]byte, n); copy(b, input[pos:pos+int(n)])`
  unfoldable pub read_sized : DecodeError → List ℕ → ℤ → ℕ → ℕ → Decoded (Bytes × ℕ)
  unfolding to_u64 of_u64 ◌+ℤ◌
  read_sized x input end p n = do
    fail_when (ltb_ℤ end (advance p n)) x
    fail_when (ltb limit n) panicked
    ok (take n (drop p input), p + n)

  abbrev read_key : List ℕ → ℤ → ℕ → ℤ → Decoded (Option Bytes × ℕ)
  read_key input end p (negsuc n) = ok (none, p)
  read_key input end p (pos n) = do
    (key, p) ← read_sized key_beyond_record input end p n
    ok (some key, p)

  -- `for i := range headers`, with the rounds left
  unfoldable pub decode_headers : ℕ → List ℕ → ℤ → ℕ → Decoded (List RecordHeader)
  unfolding decode_uvarint read_sized
  decode_headers zero input end p = ok []
  decode_headers (suc k) input end p = do
    (key_length, p) ← decode_uvarint input p
    (key, p) ← read_sized header_key_beyond_record input end p key_length
    (value_length, p) ← decode_uvarint input p
    (value, p) ← read_sized header_value_beyond_record input end p value_length
    rest ← decode_headers k input end p
    ok (record { key = key; value = value } ∷ rest)

  -- The record at a position, and the position after it.
  unfoldable pub decode_record : List ℕ → ℕ → ℤ → Decoded (Record × ℤ)
  unfolding decode_uvarint unzigzag read_sized decode_headers to_u64 of_u64 ◌+ℤ◌
  decode_record input p base_timestamp = do
    (len, p) ← decode_uvarint input p
    let end = advance p len
    fail_when (ltb_ℤ (pos (length input)) end) record_beyond_data
    fail_when (leb_ℤ end (pos p)) truncated_record
    (delta, p) ← decode_uvarint input (p + 1)
    (_, p) ← decode_uvarint input p
    (key_length, p) ← decode_uvarint input p
    (key, p) ← read_key input end p (unzigzag key_length)
    (value_length, p) ← decode_uvarint input p
    (value, p) ← read_sized value_beyond_record input end p value_length
    (count, p) ← decode_uvarint input p
    fail_when (ltb limit count) panicked
    headers ← decode_headers count input end p
    ok (
      record {
        timestamp_ms = wrap_i64 (base_timestamp +ℤ unzigzag delta);
        key = key;
        value = value;
        headers = headers;
      },
      end,
    )
