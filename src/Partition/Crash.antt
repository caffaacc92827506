-- ===== src/Partition/Crash.antt =====
-- Opening a partition after a crash, and applying the entries behind the sidecar's again.
use bunnymq.Prelude.{
  ℕ, ◌+◌, ◌^◌, ◌≤◌, ◌<◌, ℤ, pos, ltb_ℤ, List, [], ◌∷◌, ◌++◌, length, map, All, Option, some, true,
  false, ◌≡◌, refl, ◌∙◌, ap, subst, arith,
}
use mathlib.Core.List.{append-nil}
use bunnymq.Storage.LogSegment.Scan.{flatten}
use bunnymq.Storage.Segment.{StorageConfig}
use bunnymq.Storage.Segment.Layout.{total, total-append, IsBatch, Numbered, BeginsBelow, All-behind}
use bunnymq.Storage.Segment.Room.{IsConfig}
use bunnymq.Storage.Recovery.{SegmentFiles, open_sealed}
use bunnymq.Storage.Recovery.Scan.{IsValid, IsTorn}
use bunnymq.Storage.Recovery.Crash.{open_storage-HoldsLog}
use bunnymq.Storage.Log.{StorageImpl, open_storage, truncate_to, latest_offset}
use bunnymq.Storage.Log
use bunnymq.Storage.Log.Contains.{Chain, Contains, HoldsLog, as_contained}
use bunnymq.Storage.Log.Truncate.{truncate_to-HoldsLog}
use bunnymq.Partition.{
  PartitionFsm, RetentionConfigPayload, opened, encode_sidecar, open_at, open_partition, update,
}
use bunnymq.Partition.Sidecar.{read_sidecar-encode_sidecar}
use bunnymq.Partition.Update.{
  append_entry, batches_of, offsets_from, stamp_all, Fits, update-Contains,
}

module _ (page_size : ℕ) (c : StorageConfig) where
  abbrev sidecar_at : ℕ → ℕ → List ℕ
  sidecar_at index end = encode_sidecar index (pos end)

  -- The machine that is opened on a storage.
  abbrev machine : StorageImpl → ℕ → ℕ → PartitionFsm
  machine s index end = record {
    storage = s;
    last_applied_index = index;
    closed = false;
    sidecar = some (sidecar_at index end);
  }

  open_partition-even :
      (s : StorageImpl) (index end : ℕ)
      → index < 2 ^ 64
      → end < 2 ^ 63
      → s.next_offset ≡ pos end
      → open_partition page_size c s (some (sidecar_at index end))
        ≡ opened (machine s index end) index
  unfolding open_partition open_at latest_offset
  open_partition-even s index end small fits next =
      let read = read_sidecar-encode_sidecar index (pos end) small (omega arith, omega arith) in
      let even : ltb_ℤ (pos end) s.next_offset ≡ false =
        ap (λ z. ltb_ℤ (pos end) z) next ∙ (ground arith) in
      rw (open_partition, read, open_at, even) refl

  open_partition-ahead :
      (s s' : StorageImpl) (index end n : ℕ)
      → index < 2 ^ 64
      → end < 2 ^ 63
      → s.next_offset ≡ pos n
      → end < n
      → truncate_to page_size c s (pos end) ≡ Log.done s' tt
      → open_partition page_size c s (some (sidecar_at index end))
        ≡ opened (machine s' index end) index
  unfolding open_partition open_at latest_offset
  open_partition-ahead s s' index end n small fits next more cut =
      let read = read_sidecar-encode_sidecar index (pos end) small (omega arith, omega arith) in
      let ahead : ltb_ℤ (pos end) s.next_offset ≡ true =
        ap (λ z. ltb_ℤ (pos end) z) next ∙ (ground arith) in
      rw (open_partition, read, open_at, ahead, cut) refl

  -- Opening a partition whose log goes on behind the sidecar's offset, within the active segment,
  -- cuts it there.
  open_partition-Contains :
      (s : StorageImpl) (index first : ℕ) (log kept extra : List (List ℕ))
      → 1 ≤ page_size
      → IsConfig c
      → (has : HoldsLog c s first log) → has.recent ≡ kept ++ extra
      → length (flatten kept) < c.segment_max_bytes
      → index < 2 ^ 64
      → first + total (has.old ++ kept) < 2 ^ 63
      → (s' : StorageImpl) × (open_partition page_size c s
            (some (sidecar_at index (first + total (has.old ++ kept))))
          ≡ opened (machine s' index (first + total (has.old ++ kept))) index)
        × Contains c s' first (has.old ++ kept)
        × (s'.closed ≡ s.closed)
  open_partition-Contains s index first log kept [] page config has split short small fits =
      let same : log ≡ has.old ++ kept =
        has.batches ∙ ap (λ (l : List (List ℕ)). has.old ++ l) (split ∙ append-nil kept) in
      (
        s,
        open_partition-even s index (first + total (has.old ++ kept)) small fits
            (has.next ∙ ap (λ (l : List (List ℕ)). pos (first + total l)) same),
        subst (Contains c s first) same (
            as_contained has (
              omega (
                arith,
                short,
                ap (λ (l : List (List ℕ)). length (flatten l)) (split ∙ append-nil kept),
              ))),
        refl,
      )
  open_partition-Contains s index first log kept (b ∷ extra) page config has split short small
        fits =
      let (s', cut, has', closed) =
        truncate_to-HoldsLog page_size c s first log kept b extra page config has split in
      let one = (All-behind IsBatch kept (b ∷ extra) (subst (All IsBatch) split has.held.2)).0.1 in
      (
        s',
        open_partition-ahead s s' index (first + total (has.old ++ kept)) (first + total log) small
            fits has.next
            (omega (
              arith,
              one,
              ap total has.batches,
              total-append has.old has.recent,
              total-append has.old kept,
              ap total split,
              total-append kept (b ∷ extra),
            ))
            cut,
        has',
        closed,
      )

module _ (checksum : List ℕ → ℕ) (page_size : ℕ) (c : StorageConfig)
    (decode_config : List ℕ → Option RetentionConfigPayload)
    (retention_ms retention_bytes : ℤ) where
  -- A partition is opened on the files of a crash: its log goes on behind the sidecar's offset
  -- with batches of the active file that were applied before the crash, and with bytes that
  -- are no valid batch. Each batch of the active file begins below the rolling size, and those
  -- before the sidecar's offset end below it. The opening and an update with entries that
  -- append batches both succeed, where the batches fit the positions behind the rolling size
  -- and the offsets and the sidecar's index their types. The configuration has a sample of one
  -- byte at least and a rolling size of 2 ^ 31 at most. The entries are assigned the offsets
  -- from the sidecar's on, and the log then contains the batches before the sidecar's offset
  -- and those of the entries, once each.
  pub crash-update :
      (fs : List SegmentFiles) (f : SegmentFiles) (first : ℕ) (old kept extra : List (List ℕ))
      (tail : List ℕ) (index i : ℕ) (b : List ℕ) (items : List (ℕ × List ℕ))
      → 1 ≤ page_size
      → IsConfig c
      → Chain (map open_sealed fs) first old
      → f.base_offset ≡ pos (first + total old)
      → f.log ≡ flatten (kept ++ extra) ++ tail
      → All IsBatch (kept ++ extra)
      → Numbered (first + total old) (kept ++ extra)
      → All (IsValid checksum) (kept ++ extra)
      → IsTorn checksum tail
      → BeginsBelow c.segment_max_bytes 0 (kept ++ extra)
      → length (flatten kept) < c.segment_max_bytes
      → index < 2 ^ 64
      → All (Fits c) (b ∷ batches_of items)
      → first + total (old ++ kept) + total (b ∷ batches_of items) < 2 ^ 63
      → (s : StorageImpl) × (fsm : PartitionFsm) × (fsm' : PartitionFsm) × (open_storage checksum
            page_size c retention_ms retention_bytes
            (fs ++ (f ∷ []))
          ≡ some s)
        × (open_partition page_size c s
              (some (encode_sidecar index (pos (first + total (old ++ kept)))))
            ≡ opened fsm index)
        × (update page_size c decode_config fsm (map append_entry ((i, b) ∷ items))
            ≡ some (fsm', offsets_from (first + total (old ++ kept)) (b ∷ batches_of items)))
        × Contains c fsm'.storage first
            ((old ++ kept) ++ stamp_all (first + total (old ++ kept)) (b ∷ batches_of items))
  crash-update fs f first old kept extra tail index i b items page config chained base file batches
        numbered valids torn begins short index_small fits room =
      let (s, recovered, (has, had_old, had_recent), running) =
        open_storage-HoldsLog checksum page_size c retention_ms retention_bytes fs f first old
          (kept ++ extra) tail page config chained base file batches numbered valids torn begins in
      let same : first + total (has.old ++ kept) ≡ first + total (old ++ kept) =
        ap (λ (l : List (List ℕ)). first + total (l ++ kept)) had_old in
      let (s', reopened, has', closed) =
        open_partition-Contains page_size c s index first (old ++ (kept ++ extra)) kept extra page
          config has had_recent short index_small (omega (arith, same, room)) in
      let has'' = subst (λ (l : List (List ℕ)). Contains c s' first (l ++ kept)) had_old has' in
      let fsm = machine page_size c s' index (first + total (old ++ kept)) in
      let (fsm', updated, contains, _, _) =
        update-Contains page_size c decode_config first fsm (old ++ kept) i b items page config
          has'' (closed ∙ running) fits room in
      (
        s,
        fsm,
        fsm',
        recovered,
        subst
            (λ (k : ℕ).
              open_partition page_size c s (some (encode_sidecar index (pos k)))
              ≡ opened (machine page_size c s' index k) index)
            same reopened,
        updated,
        contains,
      )
