-- ===== src/Storage/Log/Consume.antt =====
-- Reading on: each read goes on at the offset that the last one answered, as a consumer does.
use mathlib.Core.List.{append_assoc}
use bunnymq.Prelude.{
  ℕ, zero, suc, ◌+◌, ◌≤◌, ◌<◌, ℤ, pos, leb_ℤ, ltb_ℤ, ltb, List, [], ◌∷◌, ◌++◌, length,
  length-append, true, false, ◌≡◌, refl, sym, ◌∙◌, ap, subst, arith, All, if◌then◌else◌,
}
use bunnymq.Storage.LogSegment.Scan.{flatten, flatten-append}
use bunnymq.Storage.Segment.{StorageConfig, SegmentStorage, Gathered, record_count}
use bunnymq.Storage.Segment.Layout.{total, total-append, IsBatch, All-append, All-behind}
use bunnymq.Storage.Segment.Room.{IsConfig}
use bunnymq.Storage.Log.{StorageImpl, done, failed, panicked, read}
use bunnymq.Storage.Log.Contains.{Chain, Contains}
use bunnymq.Storage.Log.Read.{chained_all, read-Covers}

-- So many reads at most, until one answers no bytes: the bytes, and the offset after them.
unfoldable pub consume : ℕ → ℤ → StorageImpl → ℤ → Gathered
consume zero max_bytes s offset = ([], offset)
consume (suc k) max_bytes s offset = elim (read s offset max_bytes) [
  | failed s' e ↦ ([], offset)
  | panicked ↦ ([], offset)
  | done s' g ↦
      let rest = consume k max_bytes s' g.1 in
      if ltb 0 (length g.0) then (g.0 ++ rest.0, rest.1) else ([], g.1)
]

Chain-All :
    (segs : List SegmentStorage) (n : ℕ) (log : List (List ℕ)) → Chain segs n log → All IsBatch log
Chain-All [] n log chained = subst (All IsBatch) (sym chained) tt
Chain-All (s ∷ segs) n log (bs, rest, split, held, small, chained) =
    subst (All IsBatch) (sym split)
      (All-append IsBatch bs rest held.2 (Chain-All segs (n + total bs) rest chained))

head_eq : {x y : List ℕ} {xs ys : List (List ℕ)} → x ∷ xs ≡ y ∷ ys → x ≡ y
head_eq p = cc

tail_eq : {x y : List ℕ} {xs ys : List (List ℕ)} → x ∷ xs ≡ y ∷ ys → xs ≡ ys
tail_eq p = cc

-- The batch that covers the offset of a boundary is the one behind it.
same_boundary :
    (before after skip : List (List ℕ)) (b : List ℕ) (rest : List (List ℕ))
    → before ++ after ≡ skip ++ (b ∷ rest)
    → All IsBatch (skip ++ (b ∷ rest))
    → total skip ≤ total before
    → total before < total skip + record_count b
    → (after ≡ b ∷ rest) × (total before ≡ total skip)
same_boundary [] after [] b rest split batches low high = (split, refl)
same_boundary [] after (x ∷ skip) b rest split (now, later) low high = absurd (omega (arith, now.1))
same_boundary (x ∷ before) after [] b rest split batches low high =
    absurd (omega (arith, ap (λ l. record_count l) (head_eq split)))
same_boundary (x ∷ before) after (y ∷ skip) b rest split (now, later) low high =
    let same = ap (λ l. record_count l) (head_eq split) in
    let (behind, equal) =
      same_boundary before after skip b rest (tail_eq split) later (omega (arith, same))
        (omega (arith, same)) in
    (behind, omega (arith, equal, same))

module _ (c : StorageConfig) (s : StorageImpl) (first : ℕ) (log : List (List ℕ))
    (max_bytes : ℤ) where
  abbrev with_segments : List SegmentStorage → StorageImpl
  with_segments segs = record s { segments = segs }

  abbrev end : ℕ
  end = first + total log

  read-end_of :
      (segs : List SegmentStorage)
      → s.next_offset ≡ pos end
      → Chain segs first log
      → read (with_segments segs) (pos end) max_bytes ≡ done (with_segments segs) ([], pos end)
  unfolding read
  read-end_of [] next chained = refl
  read-end_of (x ∷ segs) next chained =
      let above : ltb_ℤ (pos end) x.base_offset ≡ false =
        ap (λ z. ltb_ℤ (pos end) z) chained.3.0 ∙ (ground arith) in
      let beyond : leb_ℤ s.next_offset (pos end) ≡ true =
        ap (λ z. leb_ℤ z (pos end)) next ∙ (ground arith) in
      rw (above, beyond) refl

  consume-end :
      (k : ℕ)
      → IsConfig c
      → Contains c s first log
      → consume k max_bytes s (pos end) ≡ ([], pos end)
  unfolding consume
  consume-end zero config has = refl
  consume-end (suc k) config has =
      rw (consume, read-end_of s.segments has.next (chained_all c s first log config has)) refl

  -- A read that answers some bytes, and the reads after it.
  consume-done :
      (k : ℕ) (offset : ℤ) (g : Gathered)
      → read s offset max_bytes ≡ done s g
      → 0 < length g.0
      → consume (suc k) max_bytes s offset
        ≡ (g.0 ++ (consume k max_bytes s g.1).0, (consume k max_bytes s g.1).1)
  unfolding consume
  consume-done k offset g answered some_bytes =
      let more : ltb 0 (length g.0) ≡ true = ground arith in rw (consume, answered, more) refl

  -- Reading on from the boundary of two batches of a log, whatever the bound on the bytes, gives
  -- all the batches from there to the end, in as many reads as there are batches at most, and ends
  -- at the end of the log.
  pub consume-flatten :
      (k : ℕ) (before after : List (List ℕ))
      → IsConfig c
      → Contains c s first log
      → log ≡ before ++ after
      → length after ≤ k
      → consume k max_bytes s (pos (first + total before))
        ≡ (flatten after, pos (first + total log))
  consume-flatten k before [] config has split fuel =
      let at : first + total before ≡ end = omega (arith, ap total split, total-append before []) in
      rw at (consume-end k config has)
  consume-flatten zero before (a ∷ after) config has split fuel = absurd (omega arith)
  consume-flatten (suc k) before (a ∷ after) config has split fuel =
      let batches = Chain-All s.segments first log (chained_all c s first log config has) in
      let here = All-behind IsBatch before (a ∷ after) (subst (All IsBatch) split batches) in
      let (g, answered, (skip, b, run, rest, parts, low, high, same, bound)) =
        read-Covers c s first log (first + total before) max_bytes config has (omega arith)
          (omega (arith, ap total split, total-append before (a ∷ after), here.0.1)) in
      let (behind, at) =
        same_boundary before (a ∷ after) skip b (run ++ rest) (sym split ∙ parts)
          (subst (All IsBatch) parts batches) (omega arith) (omega arith) in
      let (((long, framed), one, fit), others) = subst (All IsBatch) behind here in
      let next : first + total skip + record_count b + total run
          ≡ first + total (before ++ (b ∷ run)) =
        omega (arith, at, total-append before (b ∷ run)) in
      let on : log ≡ (before ++ (b ∷ run)) ++ rest =
        split
        ∙ ap (λ (l : List (List ℕ)). before ++ l) behind
        ∙ sym (append_assoc before (b ∷ run) rest) in
      let shorter : length rest ≤ k =
        omega (arith, fuel, ap length behind, length-append run rest) in
      let later = consume-flatten k (before ++ (b ∷ run)) rest config has on shorter in
      let g_end : g.1 ≡ pos (first + total (before ++ (b ∷ run))) =
        ap (λ (p : Gathered). p.1) same ∙ ap pos next in
      let bytes : g.0 ≡ b ++ flatten run = ap (λ (p : Gathered). p.0) same in
      let some_bytes : 0 < length g.0 =
        omega (arith, ap length bytes, length-append b (flatten run), long) in
      let rest_is : consume k max_bytes s g.1 ≡ (flatten rest, pos end) =
        ap (λ (z : ℤ). consume k max_bytes s z) g_end ∙ later in
      let whole : (b ++ flatten run) ++ flatten rest ≡ flatten (a ∷ after) =
        sym (flatten-append (b ∷ run) rest) ∙ ap flatten (sym behind) in
      consume-done k (pos (first + total before)) g answered some_bytes
      ∙ rw (rest_is, bytes) (ap (λ l. (l, pos end)) whole)
