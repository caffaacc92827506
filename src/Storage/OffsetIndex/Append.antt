-- ===== src/Storage/OffsetIndex/Append.antt =====
-- An entry that is appended to the offset index is read back, and the earlier ones stay.
use mathlib.Core.List.{append_assoc}
use bunnymq.Prelude.{
  ℕ, ◌+◌, ◌*◌, ◌-◌, ◌%◌, ◌^◌, ◌<◌, ◌≤◌, ℤ, pos, IsI32, wrap_i32, to_u64, List, false, ◌++◌, ◌≡◌,
  refl, sym, ap, ◌∙◌, arith, length, length-append, length-take, take, drop, ltb, ltb→le, leb,
  Bool-cases, inl, inr, subst,
}
use bunnymq.Storage.BigEndian.{put_bytes, get_bytes, slice_of}
use bunnymq.Storage.Slices.{slice-append, slice-take, length-write_at}
use bunnymq.Storage.OffsetIndex.{
  OffsetIndexSegment, OffsetEntry, entry_bytes, read_entry, write_at, appended, append_entry,
}

four_bytes : (n : ℕ) → get_bytes 0 (put_bytes 4 n) ≡ n % 2 ^ 32
unfolding get_bytes put_bytes
four_bytes n = omega arith

wrap-to_u64 : (z : ℤ) → IsI32 z → wrap_i32 (pos (to_u64 z % 2 ^ 32)) ≡ z
unfolding wrap_i32 to_u64
wrap-to_u64 z h = ground arith

length-put_bytes : (n : ℕ) → length (put_bytes 4 n) ≡ 4
unfolding put_bytes
length-put_bytes n = refl

module _ (s : OffsetIndexSegment) (e : OffsetEntry) where
  abbrev pub written : OffsetIndexSegment
  written = record s {
    mapped = write_at (s.entry_count * 8) (entry_bytes e) s.mapped;
    entry_count = s.entry_count + 1;
  }

  abbrev ReadsBack : OffsetIndexSegment → Type 0
  ReadsBack s' =
      (s'.entry_count ≡ s.entry_count + 1)
      × (read_entry s'.mapped s.entry_count ≡ e)
      × ((i : ℕ) → i < s.entry_count → read_entry s'.mapped i ≡ read_entry s.mapped i)

  abbrev before : List ℕ
  before = take (s.entry_count * 8) s.mapped

  abbrev behind : List ℕ
  behind = drop (s.entry_count * 8 + length (entry_bytes e)) s.mapped

  abbrev low : List ℕ
  low = put_bytes 4 (to_u64 e.relative_offset)

  abbrev high : List ℕ
  high = put_bytes 4 (to_u64 e.position)

  arranged : written.mapped ≡ before ++ (low ++ (high ++ behind))
  arranged =
      append_assoc before (low ++ high) behind
      ∙ ap (λ l. before ++ l) (append_assoc low high behind)

  same_slice :
      (lo : ℕ)
      → lo + 4 ≤ s.entry_count * 8
      → s.entry_count * 8 ≤ length s.mapped
      → slice_of lo (lo + 4) written.mapped ≡ slice_of lo (lo + 4) s.mapped
  same_slice lo h k =
      let four : 4 ≡ lo + 4 - lo = omega arith in
      subst (λ (n : ℕ). take n (drop lo written.mapped) ≡ take n (drop lo s.mapped)) four
        (subst (λ l. take 4 (drop lo l) ≡ take 4 (drop lo s.mapped)) (sym arranged)
          (slice-take lo 4 (s.entry_count * 8) s.mapped (low ++ (high ++ behind)) h k))

  pub read_old :
      s.entry_count * 8 + 8 ≤ length s.mapped
      → (i : ℕ) → i < s.entry_count
      → read_entry written.mapped i ≡ read_entry s.mapped i
  unfolding read_entry
  read_old room i lt = cc (
    same_slice (i * 8) (omega arith) (omega arith),
    same_slice (i * 8 + 4) (omega arith) (omega arith),
  )

  first_slice :
      s.entry_count * 8 + 8 ≤ length s.mapped
      → slice_of (s.entry_count * 8) (s.entry_count * 8 + 4) written.mapped ≡ low
  first_slice room =
      subst (λ l. slice_of (s.entry_count * 8) (s.entry_count * 8 + 4) l ≡ low) (sym arranged)
        (slice-append (s.entry_count * 8) before low (high ++ behind) 4
          (omega (arith, length-take (s.entry_count * 8) s.mapped)) (length-put_bytes _))

  second_slice :
      s.entry_count * 8 + 8 ≤ length s.mapped
      → slice_of (s.entry_count * 8 + 4) (s.entry_count * 8 + 4 + 4) written.mapped ≡ high
  second_slice room =
      subst (λ l. slice_of (s.entry_count * 8 + 4) (s.entry_count * 8 + 4 + 4) l ≡ high)
        (append_assoc before low (high ++ behind) ∙ sym arranged)
        (slice-append (s.entry_count * 8 + 4) (before ++ low) high behind 4
          (omega (
            arith,
            length-append before low,
            length-put_bytes (to_u64 e.relative_offset),
            length-take (s.entry_count * 8) s.mapped,
          ))
          (length-put_bytes _))

  number_of :
      {l : List ℕ} (z : ℤ)
      → IsI32 z
      → l ≡ put_bytes 4 (to_u64 z)
      → wrap_i32 (pos (get_bytes 0 l)) ≡ z
  number_of z h q = rw (q, four_bytes (to_u64 z)) (wrap-to_u64 z h)

  pub read_back :
      s.entry_count * 8 + 8 ≤ length s.mapped
      → IsI32 e.relative_offset
      → IsI32 e.position
      → read_entry written.mapped s.entry_count ≡ e
  unfolding read_entry
  read_back room first second = cc (
    number_of e.relative_offset first (first_slice room),
    number_of e.position second (second_slice room),
  )

  -- An append that succeeds, of an entry of `int32` values, counts one entry more, the new slot
  -- reads as the entry, and the earlier slots read as before.
  pub append_entry-read_entry :
      (s' : OffsetIndexSegment)
      → append_entry s e ≡ appended s'
      → IsI32 e.relative_offset
      → IsI32 e.position
      → (s'.entry_count ≡ s.entry_count + 1)
        × (read_entry s'.mapped s.entry_count ≡ e)
        × ((i : ℕ) → i < s.entry_count → read_entry s'.mapped i ≡ read_entry s.mapped i)
  unfolding append_entry
  append_entry-read_entry s' done first second =
      let (room, same) = succeeded in
      subst ReadsBack same (refl, read_back room first second, read_old room)
    where
      inner : {x y : OffsetIndexSegment} → appended x ≡ appended y → x ≡ y
      inner p = cc

      succeeded : (s.entry_count * 8 + 8 ≤ length s.mapped) × (written ≡ s')
      succeeded = elim (Bool-cases (leb s.max_entries s.entry_count)) [
        | inl full ↦ ground arith
        | inr more ↦ elim (Bool-cases (ltb (length s.mapped) (s.entry_count * 8 + 8))) [
          | inl beyond ↦ ground arith
          | inr within ↦
              (ltb→le _ _ within, inner (sym (rw (append_entry, more, within) refl) ∙ done))
        ]
      ]

-- There is room for one entry more.
abbrev pub HasSlot : OffsetIndexSegment → Type 0
HasSlot s = (s.entry_count < s.max_entries) × (s.max_entries * 8 ≤ length s.mapped)

-- Where there is room, an append succeeds, and the file keeps its size.
pub append_entry-HasSlot :
    (s : OffsetIndexSegment) (e : OffsetEntry)
    → HasSlot s
    → (s' : OffsetIndexSegment) × (append_entry s e ≡ appended s')
      × (s'.entry_count ≡ s.entry_count + 1)
      × (s'.max_entries ≡ s.max_entries)
      × (length s'.mapped ≡ length s.mapped)
unfolding append_entry put_bytes
append_entry-HasSlot s e (more, fit) =
    let size : length (entry_bytes e) ≡ 8 = refl in
    let m : leb s.max_entries s.entry_count ≡ false = ground arith in
    let f : ltb (length s.mapped) (s.entry_count * 8 + 8) ≡ false = ground arith in
    (
      record s {
        mapped = write_at (s.entry_count * 8) (entry_bytes e) s.mapped;
        entry_count = s.entry_count + 1;
      },
      rw (m, f) refl,
      refl,
      refl,
      length-write_at (s.entry_count * 8) (entry_bytes e) s.mapped (omega arith),
    )
