-- ===== src/Tests/Log.antt =====
-- The log of a partition, its recovery and retention, on concrete inputs.
use bunnymq.Prelude.{
  ℕ, ◌+◌, ◌≤◌, pos, negsuc, List, [], ◌∷◌, ◌++◌, length, some, false, ◌≡◌, refl, ◌∙◌, ap, arith,
  ◌⊎◌,
}
use bunnymq.Storage.LogSegment.Scan.{flatten, visit}
use bunnymq.Storage.Segment.{SegmentStorage, Gathered, read_step, read_segment, record_count}
use bunnymq.Storage.Segment.Layout.{total, Holds}
use bunnymq.Storage.Segment.Append.{append_segment-Holds}
use bunnymq.Storage.Segment.Read.{Covers, read_segment-visit}
use bunnymq.Storage.Recovery.Crash.{open_storage-HoldsLog}
use bunnymq.Storage.Log.{StorageImpl, stamp, done, append_batch, read, open_storage}
use bunnymq.Storage.Log.Contains.{Contains, HoldsLog, as_contained}
use bunnymq.Storage.Log.Stamp.{stamp-record_count}
use bunnymq.Storage.Log.Append.{append_batch-Contains, append_batch-HoldsLog}
use bunnymq.Storage.Log.Read.{read-Covers}
use bunnymq.Storage.Retention.{enforce_retention, total_size}
use bunnymq.Storage.Retention.Kept.{KeptOf, enforce_retention-KeptOf}
use bunnymq.Storage.Retention.Size.{enforce_retention-size}
use bunnymq.Storage.Log.Consume.{consume, consume-flatten}
use bunnymq.Storage.Log.Truncate.{truncate_to-Contains}
use bunnymq.Storage.Log.{truncate_to}
use bunnymq.Tests.Batches.{
  small_config, small_config-IsConfig, tiny_config, tiny_config-IsConfig, batch_40,
  batch_40-IsBatch, batch_40-record_count, batch_40-Numbered, fresh_segment, fresh, fresh-Contains,
  fresh-small, fresh-Holds, fresh-IsOpen, length_sum, batch_40-IsValid, torn_bytes,
  torn_bytes-IsTorn, torn_file,
}

-- A segment that holds the batch.
held_once : (s : SegmentStorage) × Holds s 0 (batch_40 ∷ [])
held_once =
    let (s, _, holds, _, _) =
      append_segment-Holds small_config fresh_segment batch_40 0 [] small_config-IsConfig
        fresh-Holds fresh-IsOpen fresh-small batch_40-IsBatch batch_40-Numbered.0
        (omega (arith, batch_40-record_count)) in
    (s, holds)

read_segment-visit_example :
    read_segment held_once.0 (pos 0) (pos 10)
    ≡ visit (read_step (pos 0) (pos 10)) 0 ([], pos 0) (batch_40 ∷ [])
read_segment-visit_example =
    read_segment-visit held_once.0 0 0 (pos 10) (batch_40 ∷ []) held_once.1 (omega arith)
      (omega arith)

append_batch-Contains_example :
    (s' : StorageImpl) × (append_batch 1 small_config fresh batch_40 ≡ done s' (pos (0 + total [])))
    × Contains small_config s' 0 ([] ++ (stamp (pos (0 + total [])) batch_40 ∷ []))
    × (s'.closed ≡ false)
append_batch-Contains_example =
    append_batch-Contains 1 small_config 0 fresh [] batch_40 (omega arith) small_config-IsConfig
      fresh-Contains refl batch_40-IsBatch (omega arith) (omega (arith, batch_40-record_count))

-- A log that contains the batch.
stamped_40 : List ℕ
stamped_40 = stamp (pos (0 + total [])) batch_40

stored_once : (s : StorageImpl) × Contains small_config s 0 (stamped_40 ∷ [])
unfolding stamped_40
stored_once =
    let (s, _, has, _) =
      append_batch-Contains 1 small_config 0 fresh [] batch_40 (omega arith) small_config-IsConfig
        fresh-Contains refl batch_40-IsBatch (omega arith) (omega (arith, batch_40-record_count)) in
    (s, has)

stamped_40-record_count : record_count stamped_40 ≡ 1
unfolding stamped_40
stamped_40-record_count = stamp-record_count 0 batch_40 ∙ batch_40-record_count

read-Covers_example :
    (g : Gathered) × (read stored_once.0 (pos 0) (pos 10) ≡ done stored_once.0 g)
    × Covers 0 (pos 10) 0 (stamped_40 ∷ []) g
read-Covers_example =
    read-Covers small_config stored_once.0 0 (stamped_40 ∷ []) 0 (pos 10) small_config-IsConfig
      stored_once.1 (omega arith) (omega (arith, stamped_40-record_count))

-- The file reached the rolling size before the crash.
open_storage-HoldsLog_example :
    (s : StorageImpl) × (open_storage length_sum 1 tiny_config
        (negsuc 0)
        (negsuc 0)
        ([] ++ (torn_file ∷ []))
      ≡ some s)
    × ((has : HoldsLog tiny_config s 0 ([] ++ (batch_40 ∷ []))) × (has.old ≡ [])
        × (has.recent ≡ batch_40 ∷ []))
    × (s.closed ≡ false)
open_storage-HoldsLog_example =
    open_storage-HoldsLog length_sum 1 tiny_config (negsuc 0) (negsuc 0) [] torn_file 0 []
      (batch_40 ∷ []) torn_bytes (omega arith) tiny_config-IsConfig refl refl refl
      (batch_40-IsBatch, tt) batch_40-Numbered (batch_40-IsValid, tt) torn_bytes-IsTorn
      (omega arith, tt)

-- The log of that file, with where it holds it.
opened_full :
    (s : StorageImpl) × (has : HoldsLog tiny_config s 0 (batch_40 ∷ [])) × (has.recent
      ≡ batch_40 ∷ [])
    × (s.closed ≡ false)
opened_full =
    let (s, _, (has, _, recent), running) =
      open_storage-HoldsLog length_sum 1 tiny_config (negsuc 0) (negsuc 0) [] torn_file 0 []
        (batch_40 ∷ []) torn_bytes (omega arith) tiny_config-IsConfig refl refl refl
        (batch_40-IsBatch, tt) batch_40-Numbered (batch_40-IsValid, tt) torn_bytes-IsTorn
        (omega arith, tt) in
    (s, has, recent, running)

append_batch-HoldsLog_example :
    (s' : StorageImpl) × (append_batch 1 tiny_config opened_full.0 batch_40
      ≡ done s' (pos (0 + total (batch_40 ∷ []))))
    × Contains tiny_config s' 0
        ((batch_40 ∷ []) ++ (stamp (pos (0 + total (batch_40 ∷ []))) batch_40 ∷ []))
    × (s'.closed ≡ false)
append_batch-HoldsLog_example =
    append_batch-HoldsLog 1 tiny_config 0 opened_full.0 (batch_40 ∷ []) batch_40 (omega arith)
      tiny_config-IsConfig (omega arith) opened_full.1
      (omega (arith, ap (λ (l : List (List ℕ)). length (flatten l)) opened_full.2)) opened_full.3
      batch_40-IsBatch (omega (arith, batch_40-record_count))

-- A log of two segments.
abbrev two_segments : StorageImpl
two_segments = record fresh { segments = held_once.0 ∷ fresh_segment ∷ [] }

enforce_retention-KeptOf_example :
    (kept : List SegmentStorage) × ((enforce_retention two_segments
        (pos 1000)
        (pos 10)
        (pos 5000)).0.segments
      ≡ kept ++ (fresh_segment ∷ []))
    × KeptOf kept (held_once.0 ∷ [])
    × ((enforce_retention two_segments (pos 1000) (pos 10) (pos 5000)).1 + length kept
        ≡ length (held_once.0 ∷ []))
    × ((enforce_retention two_segments (pos 1000) (pos 10) (pos 5000)).0.next_offset
        ≡ two_segments.next_offset)
enforce_retention-KeptOf_example =
    enforce_retention-KeptOf two_segments (held_once.0 ∷ []) fresh_segment (pos 1000) (pos 10)
      (pos 5000) refl

enforce_retention-size_example :
    (total_size (enforce_retention two_segments (pos 1000) (pos 10) (pos 5000)).0.segments ≤ 10)
    ⊎ ((enforce_retention two_segments (pos 1000) (pos 10) (pos 5000)).0.segments
        ≡ fresh_segment ∷ [])
enforce_retention-size_example =
    enforce_retention-size two_segments (held_once.0 ∷ []) fresh_segment (pos 1000) (pos 5000) 10
      refl

consume-flatten_example :
    consume 1 (pos 10) stored_once.0 (pos (0 + total []))
    ≡ (flatten (stamped_40 ∷ []), pos (0 + total (stamped_40 ∷ [])))
consume-flatten_example =
    consume-flatten small_config stored_once.0 0 (stamped_40 ∷ []) (pos 10) 1 [] (stamped_40 ∷ [])
      small_config-IsConfig stored_once.1 refl (omega arith)

-- The log of one batch, with where it holds it.
opened_once :
    (s : StorageImpl) × (has : Contains small_config s 0 (batch_40 ∷ [])) × (has.recent
      ≡ [] ++ (batch_40 ∷ []))
opened_once =
    let (s, _, (has, _, recent), _) =
      open_storage-HoldsLog length_sum 1 small_config (negsuc 0) (negsuc 0) [] torn_file 0 []
        (batch_40 ∷ []) torn_bytes (omega arith) small_config-IsConfig refl refl refl
        (batch_40-IsBatch, tt) batch_40-Numbered (batch_40-IsValid, tt) torn_bytes-IsTorn
        (omega arith, tt) in
    (
      s,
      as_contained has (omega (arith, ap (λ (l : List (List ℕ)). length (flatten l)) recent)),
      recent,
    )

truncate_to-Contains_example :
    (s' : StorageImpl) × (truncate_to 1 small_config opened_once.0
        (pos (0 + total (opened_once.1.old ++ [])))
      ≡ done s' tt)
    × Contains small_config s' 0 (opened_once.1.old ++ [])
    × (s'.closed ≡ opened_once.0.closed)
truncate_to-Contains_example =
    truncate_to-Contains 1 small_config opened_once.0 0 (batch_40 ∷ []) [] batch_40 [] (omega arith)
      small_config-IsConfig opened_once.1 opened_once.2
