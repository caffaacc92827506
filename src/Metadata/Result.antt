-- ===== src/Metadata/Result.antt =====
-- internal/metadata/result.go, with `sm.Result` of the Raft library.
use Prim.Native.String.{String}
use bunnymq.Prelude.{ℕ, ℤ, List}
use bunnymq.Prelude.Keys.{Bytes}
use bunnymq.Metadata.Types.{PartitionKey}

pub record JoinResult : Type 0 where
  pub member_id : Bytes
  pub assigned_partitions : List PartitionKey
  pub generation_id : ℤ

-- The bytes of `Data`, before they are encoded.
pub data Payload : Type 0 where
  empty : Payload
  message : String → Payload
  joined : JoinResult → Payload

pub record Result : Type 0 where
  pub value : ℕ
  pub payload : Payload

abbrev pub result_ok : ℕ
result_ok = 0

abbrev pub result_err_already_exists : ℕ
result_err_already_exists = 1

abbrev pub result_err_not_found : ℕ
result_err_not_found = 2

abbrev pub result_err_invalid_arg : ℕ
result_err_invalid_arg = 3

abbrev pub ok_result : Result
ok_result = record { value = result_ok; payload = empty }

abbrev pub error_result : ℕ → String → Result
error_result code msg = record { value = code; payload = message msg }
