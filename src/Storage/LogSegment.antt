-- ===== src/Storage/LogSegment.antt =====
-- internal/storage/log_segment.go: the file of a segment as its bytes. `logSizeVal` is their number.
-- Opening, syncing and closing the file are not modelled, and its system calls succeed.
pub mod Scan
use bunnymq.Prelude.{
  ℕ, zero, suc, ◌+◌, ◌-◌, ◌≤◌, ℤ, Option, none, some, List, [], ◌∷◌, ◌++◌, length, take, drop, Bool,
  true, false, ltb, eqb, ◌||◌, ◌≡◌, if◌then◌else◌,
}
use bunnymq.Storage.BigEndian.{get_bytes, slice_of}

pub record LogSegment : Type 0 where
  pub bytes : List ℕ
  pub base_offset : ℤ
  pub readonly : Bool

-- `Append`, with the position that it answers; `none` is ErrSegmentReadOnly.
unfoldable pub append_log : LogSegment → List ℕ → Option (LogSegment × ℕ)
append_log s batch =
    if s.readonly then none else some (record s { bytes = s.bytes ++ batch }, length s.bytes)

-- `ReadAt`; `unexpected_eof` has the bytes that there are.
pub data ReadReply : Type 0 where
  full : List ℕ → ReadReply
  unexpected_eof : List ℕ → ReadReply

unfoldable pub read_at : List ℕ → ℕ → ℕ → ReadReply
read_at file at count =
    let buf = slice_of at (at + count) file in
    if eqb (length buf) count then full buf else unexpected_eof buf

-- A number in the header of a batch.
abbrev pub field : ℕ → ℕ → List ℕ → ℕ
field lo hi batch = get_bytes 0 (slice_of lo hi batch)

-- What a round of `ScanFrom` reads at a position before the end: the batch, or `none` where it
-- leaves the loop.
unfoldable pub batch_at : List ℕ → ℕ → Option (List ℕ)
batch_at file at = elim (read_at file at 12) [
  | unexpected_eof short ↦ none
  | full header ↦
      let batch_len = field 8 12 header in
      if ltb batch_len 12 || ltb (length file) (at + batch_len)
      then none
      else elim (read_at file at batch_len) [
        | unexpected_eof short ↦ none
        | full batch ↦ some batch
      ]
]

module _ {ℓ} {S : Type ℓ} where
  -- `ScanFrom`, with the rounds left and the variables that its callback changes: a round reads
  -- twelve bytes at least. The callback answers whether to go on.
  unfoldable pub scan_from : (S → List ℕ → ℕ → S × Bool) → ℕ → List ℕ → ℕ → S → S
  scan_from callback zero file at s = s
  scan_from callback (suc k) file at s =
      if ltb at (length file)
      then elim (batch_at file at) [
        | none ↦ s
        | some batch ↦
            let after = callback s batch at in
            let rest = scan_from callback k file (at + length batch) after.0 in
            if after.1 then rest else after.0
      ]
      else s

  -- `ScanFrom` on a log
  abbrev pub scan : (S → List ℕ → ℕ → S × Bool) → LogSegment → ℕ → S → S
  scan callback s at start = scan_from callback (length s.bytes) s.bytes at start

-- `Truncate`, to a position within the file
unfoldable pub truncate_log : LogSegment → ℕ → LogSegment
truncate_log s at = record s { bytes = take at s.bytes }
