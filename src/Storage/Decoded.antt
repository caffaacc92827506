-- ===== src/Storage/Decoded.antt =====
-- internal/storage/batch.go: the results of its decoders, with their errors and panics as values.
use bunnymq.Prelude.{Bool, true, false}

pub data DecodeError : Type 0 where
  truncated_varint varint_overflow record_beyond_data truncated_record key_beyond_record :
      DecodeError
  value_beyond_record header_key_beyond_record header_value_beyond_record : DecodeError
  batch_too_short batch_data_truncated crc_mismatch no_more_batches records_empty : DecodeError
  panicked : DecodeError

pub data Decoded {ℓ} (A : Type ℓ) : Type ℓ where
  ok : A → Decoded A
  err : DecodeError → Decoded A

infixl 5 ◌>>=◌ ◌>>◌
abbrev pub ◌>>=◌ {ℓ κ} : {A : Type ℓ} {B : Type κ} → Decoded A → (A → Decoded B) → Decoded B
ok a >>= f = f a
err x >>= f = err x

abbrev pub ◌>>◌ {ℓ} : {B : Type ℓ} → Decoded (Unit {0}) → Decoded B → Decoded B
m >> k = m >>= λ _. k

-- `if test { return error }`
abbrev pub fail_when : Bool → DecodeError → Decoded (Unit {0})
fail_when true x = err x
fail_when false x = ok tt
