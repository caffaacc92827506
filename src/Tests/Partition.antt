-- ===== src/Tests/Partition.antt =====
-- The state machine of a partition on concrete inputs.
use bunnymq.Prelude.{
  ℕ, ◌+◌, pos, negsuc, List, [], ◌∷◌, ◌++◌, Option, some, none, false, map, ◌≡◌, refl, arith,
}
use bunnymq.Storage.Segment.Layout.{total}
use bunnymq.Storage.Log.{StorageImpl, open_storage}
use bunnymq.Storage.Log.Contains.{Contains}
use bunnymq.Partition.{
  PartitionFsm, RetentionConfigPayload, last_index, encode_sidecar, read_sidecar, update,
}
use bunnymq.Partition.Sidecar.{read_sidecar-encode_sidecar}
use bunnymq.Partition.Update.{append_entry, batches_of, offsets_from, stamp_all, update-Contains}
use bunnymq.Partition.{opened, open_partition}
use bunnymq.Partition.Crash.{crash-update}
use bunnymq.Tests.Batches.{
  small_config, small_config-IsConfig, tiny_config, tiny_config-IsConfig, batch_40,
  batch_40-IsBatch, batch_40-record_count, batch_40-Numbered, fresh, fresh-Contains, length_sum,
  batch_40-IsValid, torn_bytes, torn_bytes-IsTorn, torn_file,
}

read_sidecar-encode_sidecar_example :
    read_sidecar (encode_sidecar 7 (pos 3))
    ≡ some (record { last_applied_index = 7; latest_offset = pos 3 })
read_sidecar-encode_sidecar_example =
    read_sidecar-encode_sidecar 7 (pos 3) (omega arith) (omega arith, omega arith)

abbrev fresh_fsm : PartitionFsm
fresh_fsm = record { storage = fresh; last_applied_index = 0; closed = false; sidecar = none }

abbrev no_config : List ℕ → Option RetentionConfigPayload
no_config payload = none

update-Contains_example :
    (fsm' : PartitionFsm) × (update 1 small_config no_config fresh_fsm
        (map append_entry ((5, batch_40) ∷ []))
      ≡ some (fsm', offsets_from (0 + total []) (batch_40 ∷ batches_of [])))
    × Contains small_config fsm'.storage 0
        ([] ++ stamp_all (0 + total []) (batch_40 ∷ batches_of []))
    × (fsm'.last_applied_index ≡ last_index (append_entry (5, batch_40)) (map append_entry []))
    × (fsm'.sidecar
        ≡ some (
            encode_sidecar fsm'.last_applied_index
              (pos (0 + total [] + total (batch_40 ∷ batches_of [])))))
update-Contains_example =
    update-Contains 1 small_config no_config 0 fresh_fsm [] 5 batch_40 [] (omega arith)
      small_config-IsConfig fresh-Contains refl ((batch_40-IsBatch, omega arith), tt)
      (omega (arith, batch_40-record_count))

-- The file reached the rolling size before the crash.
crash-update_example :
    (s : StorageImpl) × (fsm : PartitionFsm) × (fsm' : PartitionFsm) × (open_storage length_sum 1
        tiny_config
        (negsuc 0)
        (negsuc 0)
        ([] ++ (torn_file ∷ []))
      ≡ some s)
    × (open_partition 1 tiny_config s (some (encode_sidecar 4 (pos (0 + total ([] ++ [])))))
        ≡ opened fsm 4)
    × (update 1 tiny_config no_config fsm (map append_entry ((5, batch_40) ∷ []))
        ≡ some (fsm', offsets_from (0 + total ([] ++ [])) (batch_40 ∷ batches_of [])))
    × Contains tiny_config fsm'.storage 0
        (([] ++ []) ++ stamp_all (0 + total ([] ++ [])) (batch_40 ∷ batches_of []))
crash-update_example =
    crash-update length_sum 1 tiny_config no_config (negsuc 0) (negsuc 0) [] torn_file 0 [] []
      (batch_40 ∷ []) torn_bytes 4 5 batch_40 [] (omega arith) tiny_config-IsConfig refl refl refl
      (batch_40-IsBatch, tt) batch_40-Numbered (batch_40-IsValid, tt) torn_bytes-IsTorn
      (omega arith, tt) (omega arith) (omega arith) ((batch_40-IsBatch, omega arith), tt)
      (omega (arith, batch_40-record_count))
