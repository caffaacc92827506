-- ===== src/Storage/Recovery/Crash.antt =====
-- Opening a log after a crash: the segments contain the batches of the older segments, and those of
-- the active file that were written whole.
use bunnymq.Prelude.{
  ℕ, ◌+◌, ◌≤◌, ℤ, pos, List, [], ◌∷◌, ◌++◌, length, take-append, All, some, false, map, ◌≡◌, refl,
  ◌∙◌, ap, arith,
}
use bunnymq.Storage.LogSegment.{truncate_log}
use bunnymq.Storage.LogSegment.Scan.{flatten}
use bunnymq.Storage.Segment.{StorageConfig, SegmentStorage, record_count, new_segment}
use bunnymq.Storage.Segment.Layout.{
  total, total-append, IsBatch, Numbered, BeginsBelow, Holds, batch_end-Numbered,
}
use bunnymq.Storage.Segment.Room.{IsConfig, IsOpen, DuePaid}
use bunnymq.Storage.Log.{StorageImpl, open_storage}
use bunnymq.Storage.Log.Contains.{Chain, HoldsLog}
use bunnymq.Storage.Recovery.{
  SegmentFiles, ActiveScan, scan_active_log, rebuild_segment_indexes, recover_active,
  recover_storage, open_sealed,
}
use bunnymq.Storage.Recovery.Scan.{IsValid, IsTorn, last_end, scan_active-valid}
use bunnymq.Storage.Recovery.Rebuild.{rebuild_segment_indexes-Holds}

last_end-Numbered :
    (n : ℕ) (bs : List (List ℕ)) → Numbered n bs → last_end (pos n) bs ≡ pos (n + total bs)
last_end-Numbered n [] numbered = ap pos (omega arith)
last_end-Numbered n (b ∷ bs) (base, fits, later) =
    ap (λ (z : ℤ). last_end z bs) (batch_end-Numbered b n base fits)
    ∙ last_end-Numbered (n + record_count b) bs later
    ∙ ap pos (omega arith)

module _ (checksum : List ℕ → ℕ) (page_size : ℕ) (c : StorageConfig) where
  abbrev Recovered : SegmentFiles → ℕ → List (List ℕ) → Type 0
  Recovered f n bs =
      (s : SegmentStorage) × (found : ActiveScan) × (recover_active checksum page_size c f
        ≡ some (s, found))
      × Holds s n bs
      × IsOpen c s
      × DuePaid c s
      × (found.next_offset ≡ pos (n + total bs))

  -- The segment whose indexes are to be made.
  abbrev cut : ℕ → List (List ℕ) → SegmentStorage
  cut n bs = record (new_segment page_size c (pos n)) {
    log = record { bytes = flatten bs; base_offset = pos n; readonly = false };
  }

  abbrev scanned_to : List (List ℕ) → ℤ → ℕ → ActiveScan
  scanned_to bs next crc_errors = record {
    valid_pos = length (flatten bs);
    next_offset = next;
    crc_errors = crc_errors;
  }

  recover_cut :
      (f : SegmentFiles) (n : ℕ) (bs : List (List ℕ)) (tail : List ℕ) (s : SegmentStorage)
      (next : ℤ) (crc_errors : ℕ)
      → f.base_offset ≡ pos n
      → f.log ≡ flatten bs ++ tail
      → scan_active_log checksum (flatten bs ++ tail) (pos n) ≡ scanned_to bs next crc_errors
      → rebuild_segment_indexes page_size c (cut n bs) ≡ some s
      → recover_active checksum page_size c f ≡ some (s, scanned_to bs next crc_errors)
  unfolding recover_active truncate_log new_segment
  recover_cut f n bs tail s next crc_errors base file scanned done =
      ap (λ (g : SegmentFiles). recover_active checksum page_size c g) (same base file)
      ∙ rw (recover_active, scanned, take-append (flatten bs) tail, done)
          (ap (λ (found : ActiveScan). some (s, found)) scanned)
    where
      same :
          {z : ℤ} {l : List ℕ}
          → f.base_offset ≡ z
          → f.log ≡ l
          → f ≡ record f { base_offset = z; log = l }
      same p q = cc

  recover_active-Holds :
      (f : SegmentFiles) (n : ℕ) (bs : List (List ℕ)) (tail : List ℕ)
      → 1 ≤ page_size
      → IsConfig c
      → f.base_offset ≡ pos n
      → f.log ≡ flatten bs ++ tail
      → All IsBatch bs
      → Numbered n bs
      → All (IsValid checksum) bs
      → IsTorn checksum tail
      → BeginsBelow c.segment_max_bytes 0 bs
      → Recovered f n bs
  unfolding new_segment
  recover_active-Holds f n bs tail page config base file batches numbered valids torn begins =
      let (crc_errors, scanned) =
        scan_active-valid checksum (length (flatten bs ++ tail)) [] bs tail (pos n) valids torn
          (omega arith) in
      let (s, done, holds, writable, due_paid) =
        rebuild_segment_indexes-Holds c n bs page_size (cut n bs) page config refl refl refl batches
          numbered begins in
      (
        s,
        scanned_to bs (last_end (pos n) bs) crc_errors,
        recover_cut f n bs tail s (last_end (pos n) bs) crc_errors base file scanned done,
        holds,
        writable,
        due_paid,
        last_end-Numbered n bs numbered,
      )

  recover_storage-append :
      (fs : List SegmentFiles) (f : SegmentFiles) (s : SegmentStorage) (found : ActiveScan)
      → recover_active checksum page_size c f ≡ some (s, found)
      → recover_storage checksum page_size c (fs ++ (f ∷ []))
        ≡ some (map open_sealed fs ++ (s ∷ []), found.next_offset, found.crc_errors)
  unfolding recover_storage
  recover_storage-append [] f s found done = rw (recover_storage, done) refl
  recover_storage-append (g ∷ []) f s found done = rw (recover_storage, done) refl
  recover_storage-append (g ∷ h ∷ fs) f s found done =
      rw (recover_storage, recover_storage-append (h ∷ fs) f s found done) refl

  -- Opening a log whose older files hold batches, and whose active file has batches written
  -- whole and valid, each of which begins below the rolling size, and no valid one behind
  -- them, succeeds. The log holds those batches and no others, those of the active file in the
  -- active segment, which may have reached the rolling size with the last of them. The
  -- configuration has a sample of one byte at least and a rolling size of 2 ^ 31 at most.
  pub open_storage-HoldsLog :
      (retention_ms retention_bytes : ℤ) (fs : List SegmentFiles) (f : SegmentFiles) (first : ℕ)
      (old bs : List (List ℕ)) (tail : List ℕ)
      → 1 ≤ page_size
      → IsConfig c
      → Chain (map open_sealed fs) first old
      → f.base_offset ≡ pos (first + total old)
      → f.log ≡ flatten bs ++ tail
      → All IsBatch bs
      → Numbered (first + total old) bs
      → All (IsValid checksum) bs
      → IsTorn checksum tail
      → BeginsBelow c.segment_max_bytes 0 bs
      → (s : StorageImpl) × (open_storage checksum page_size c retention_ms retention_bytes
            (fs ++ (f ∷ []))
          ≡ some s)
        × ((has : HoldsLog c s first (old ++ bs)) × (has.old ≡ old) × (has.recent ≡ bs))
        × (s.closed ≡ false)
  unfolding open_storage
  open_storage-HoldsLog retention_ms retention_bytes fs f first old bs tail page config chained base
        file batches numbered valids torn begins =
      let (s, found, done, holds, writable, due_paid, next) =
        recover_active-Holds f (first + total old) bs tail page config base file batches numbered
          valids torn begins in
      let opened : StorageImpl = record {
        segments = map open_sealed fs ++ (s ∷ []);
        next_offset = found.next_offset;
        closed = false;
        retention_ms = retention_ms;
        retention_bytes = retention_bytes;
      } in
      (
        opened,
        rw (open_storage, recover_storage-append fs f s found done) refl,
        (
          record {
            front = map open_sealed fs;
            active = s;
            old = old;
            recent = bs;
            segments = refl;
            batches = refl;
            chained = chained;
            held = holds;
            writable = writable;
            begins = begins;
            due_paid = due_paid;
            next = next ∙ ap pos (omega (arith, total-append old bs));
          },
          refl,
          refl,
        ),
        refl,
      )
