-- ===== src/Storage/OffsetIndex/Rebuild.antt =====
-- The entries that a rebuild writes to the offset index are read back.
use bunnymq.Prelude.{
  ℕ, ◌+◌, ◌*◌, ◌≤◌, ◌<◌, pos, IsI32, List, [], ◌∷◌, length, All, some, false, ltb, ◌≡◌, refl, sym,
  ◌∙◌, subst, arith, Bool-cases, inl, inr,
}
use bunnymq.Storage.BigEndian.{put_bytes}
use bunnymq.Storage.Slices.{length-write_at}
use bunnymq.Storage.OffsetIndex.{
  OffsetIndexSegment, OffsetEntry, entry_bytes, read_entry, write_at, write_entries, rebuild,
}
use bunnymq.Storage.OffsetIndex.Append.{read_old, read_back}

abbrev pub IsEntry : OffsetEntry → Type 0
IsEntry e = IsI32 e.relative_offset × IsI32 e.position

length-entry_bytes : (e : OffsetEntry) → length (entry_bytes e) ≡ 8
unfolding put_bytes
length-entry_bytes e = refl

module _ {κ} (P : OffsetEntry → Type κ) where
  -- A slot that is written, behind those that are.
  next_slot :
      (i : ℕ) (e : OffsetEntry) (m : List ℕ)
      → P e
      → IsEntry e
      → i * 8 + 8 ≤ length m
      → ((j : ℕ) → j < i → P (read_entry m j))
      → (j : ℕ) → j < i + 1
      → P (read_entry (write_at (i * 8) (entry_bytes e) m) j)
  next_slot i e m holds (rel, at) fits earlier j below =
      let s : OffsetIndexSegment = record {
        mapped = m;
        entry_count = i;
        base_offset = pos 0;
        max_entries = 0;
      } in
      elim (Bool-cases (ltb j i)) [
        | inl lower ↦
            let lt : j < i = ground arith in subst P (sym (read_old s e fits j lt)) (earlier j lt)
        | inr last ↦
            let same : i ≡ j = ground arith in
            subst (λ (k : ℕ). P (read_entry (write_at (i * 8) (entry_bytes e) m) k)) same
              (subst P (sym (read_back s e fits rel at)) holds)
      ]

  abbrev Written : ℕ → List OffsetEntry → List ℕ → Type κ
  Written i es m =
      (m' : List ℕ) × (write_entries i es m ≡ some m')
      × (length m' ≡ length m)
      × ((j : ℕ) → j < i + length es → P (read_entry m' j))

  -- The slots that are written have what the entries have.
  write_entries-All :
      (i : ℕ) (es : List OffsetEntry) (m : List ℕ)
      → All P es
      → All IsEntry es
      → (i + length es) * 8 ≤ length m
      → ((j : ℕ) → j < i → P (read_entry m j))
      → Written i es m
  unfolding write_entries
  write_entries-All i [] m all entries fits earlier =
      (m, refl, refl, λ j p. earlier j (omega arith))
  write_entries-All i (e ∷ es) m (now, later) (entry, entries) fits earlier =
      let m' = write_at (i * 8) (entry_bytes e) m in
      let size : length m' ≡ length m =
        length-write_at (i * 8) (entry_bytes e) m (omega (arith, length-entry_bytes e)) in
      let room : ltb (length m) (i * 8 + 8) ≡ false = ground arith in
      let (m'', done, same, slots) =
        write_entries-All (i + 1) es m' later entries (omega arith)
          (next_slot i e m now entry (omega arith) earlier) in
      (m'', rw room done, same ∙ size, λ j p. slots j (omega arith))

  -- A rebuild of an index with room for the entries succeeds, and its slots have what they have.
  pub rebuild-All :
      (s : OffsetIndexSegment) (es : List OffsetEntry)
      → All P es
      → All IsEntry es
      → length es * 8 ≤ length s.mapped
      → (s' : OffsetIndexSegment) × (rebuild s es ≡ some s')
        × (s'.entry_count ≡ length es)
        × (s'.max_entries ≡ s.max_entries)
        × (length s'.mapped ≡ length s.mapped)
        × ((j : ℕ) → j < s'.entry_count → P (read_entry s'.mapped j))
  unfolding rebuild
  rebuild-All s es all entries fits =
      let (m, done, same, slots) =
        write_entries-All 0 es s.mapped all entries (omega arith) (λ j p. absurd (omega arith)) in
      (
        record s { mapped = m; entry_count = length es },
        rw (rebuild, done) refl,
        refl,
        refl,
        same,
        λ j p. slots j (omega arith),
      )
