-- ===== src/Storage/Segment/Pointers.antt =====
-- The entries of the offset index while batches are added.
use mathlib.Core.List.{append_assoc}
use bunnymq.Prelude.{
  ℕ, ◌+◌, ◌^◌, ◌≤◌, ◌<◌, ℤ, pos, ◌-ℤ◌, wrap_i32_pos, wrap_i32_close, wrap_i32-IsI32, IsI32, List,
  [], ◌∷◌, ◌++◌, length, length-append, ltb, ◌≡◌, refl, sym, ◌∙◌, ap, subst, arith, All, inl, inr,
  Bool-cases,
}
use bunnymq.Storage.LogSegment.Scan.{flatten}
use bunnymq.Storage.OffsetIndex
use bunnymq.Storage.OffsetIndex.{OffsetIndexSegment, OffsetEntry, read_entry}
use bunnymq.Storage.OffsetIndex.Append.{append_entry-read_entry}
use bunnymq.Storage.Segment.{batch_base, offset_entry}
use bunnymq.Storage.Segment.Layout.{total, IsBatch, PointsInto, IsIndexOf}

pub total-≤ : (bs : List (List ℕ)) → All IsBatch bs → total bs ≤ length (flatten bs)
total-≤ [] h = omega arith
total-≤ (b ∷ bs) ((framed, one, fit), later) =
    omega (arith, total-≤ bs later, length-append b (flatten bs))

-- An entry points into a longer sequence as well.
pub longer-PointsInto :
    (bs after : List (List ℕ)) (e : OffsetEntry) → PointsInto bs e → PointsInto (bs ++ after) e
longer-PointsInto bs more e (before, after, split, at, rel) = (
  before,
  after ++ more,
  ap (λ (l : List (List ℕ)). l ++ more) split ∙ append_assoc before after more,
  at,
  rel,
)

-- The entry of the batch that comes next.
pub next-PointsInto :
    (base_offset : ℤ) (n : ℕ) (bs : List (List ℕ)) (b : List ℕ)
    → base_offset ≡ pos n
    → batch_base b ≡ pos (n + total bs)
    → All IsBatch bs
    → length (flatten bs) < 2 ^ 31
    → PointsInto (bs ++ (b ∷ [])) (offset_entry base_offset b (length (flatten bs)))
next-PointsInto base_offset n bs b first next batches small = (
  bs,
  b ∷ [],
  refl,
  wrap_i32_pos (length (flatten bs)) small,
  rw (first, next)
      (wrap_i32_close (n + total bs) n (omega arith) (omega (arith, total-≤ bs batches))
        ∙ ap pos (omega arith)),
)

pub offset_entry-IsI32 :
    (base_offset : ℤ) (b : List ℕ) (at : ℕ)
    → IsI32 (offset_entry base_offset b at).relative_offset
      × IsI32 (offset_entry base_offset b at).position
offset_entry-IsI32 base_offset b at =
    (wrap_i32-IsI32 (batch_base b -ℤ base_offset), wrap_i32-IsI32 (pos at))

pub indexed-IsIndexOf :
    (idx idx' : OffsetIndexSegment) (e : OffsetEntry) (bs more : List (List ℕ))
    → OffsetIndex.append_entry idx e ≡ OffsetIndex.appended idx'
    → IsI32 e.relative_offset × IsI32 e.position
    → IsIndexOf bs idx
    → PointsInto (bs ++ more) e
    → IsIndexOf (bs ++ more) idx'
indexed-IsIndexOf idx idx' e bs more done (rel32, at32) index points i below =
    let (count, new, old) = append_entry-read_entry idx e idx' done rel32 at32 in
    elim (Bool-cases (ltb i idx.entry_count)) [
      | inl earlier ↦
          let lt : i < idx.entry_count = ground arith in
          subst (PointsInto (bs ++ more)) (sym (old i lt))
            (longer-PointsInto bs more (read_entry idx.mapped i) (index i lt))
      | inr last ↦
          let same : idx.entry_count ≡ i = ground arith in
          subst (λ (k : ℕ). PointsInto (bs ++ more) (read_entry idx'.mapped k)) same
            (subst (PointsInto (bs ++ more)) (sym new) points)
    ]
