-- ===== src/Storage/OffsetIndex/Lookup.antt =====
-- The floor that a lookup in the offset index finds.
use bunnymq.Prelude.{
  ℕ, zero, suc, ◌<◌, ◌≤◌, ℤ, ◌≤ℤ◌, ◌<ℤ◌, Option, none, some, true, false, ◌≡◌, ◌⊎◌, inl, inr, arith,
  refl, subst, Option-cases,
}
use bunnymq.Storage.Search.{
  floor_search, floor_search_lem, last_below, HoldsBelow, FoundBelow, floor_search-passes,
}
use bunnymq.Storage.OffsetIndex.{OffsetIndexSegment, read_entry, passes, lookup_position}

abbrev pub offset_at : OffsetIndexSegment → ℕ → ℤ
offset_at s i = (read_entry s.mapped i).relative_offset

module _ (s : OffsetIndexSegment) (relative_offset : ℤ) where
  abbrev IsFloor : Option ℤ → Type 0
  IsFloor r =
      ((r ≡ none) × ((i : ℕ) → i < s.entry_count → relative_offset <ℤ offset_at s i))
      ⊎ ((i : ℕ) × (i < s.entry_count)
          × (r ≡ some (read_entry s.mapped i).position)
          × (offset_at s i ≤ℤ relative_offset)
          × ((j : ℕ) → i < j → j < s.entry_count → relative_offset <ℤ offset_at s j))

  passes-≤ : (i : ℕ) → passes s relative_offset i ≡ true → offset_at s i ≤ℤ relative_offset
  unfolding passes
  passes-≤ i h = ground arith

  passes-< : (i : ℕ) → passes s relative_offset i ≡ false → relative_offset <ℤ offset_at s i
  unfolding passes
  passes-< i h = ground arith

  ≤-passes : (i : ℕ) → offset_at s i ≤ℤ relative_offset → passes s relative_offset i ≡ true
  unfolding passes
  ≤-passes i h = ground arith

  -- In an index whose offsets do not decrease, a lookup answers the position of the last entry that
  -- is not above the offset looked for, and nothing where every entry is above it.
  pub lookup_position_lem :
      ((i j : ℕ) → i ≤ j → j < s.entry_count → offset_at s i ≤ℤ offset_at s j)
      → ((lookup_position s relative_offset ≡ none)
          × ((i : ℕ) → i < s.entry_count → relative_offset <ℤ offset_at s i))
        ⊎ ((i : ℕ) × (i < s.entry_count)
            × (lookup_position s relative_offset ≡ some (read_entry s.mapped i).position)
            × (offset_at s i ≤ℤ relative_offset)
            × ((j : ℕ) → i < j → j < s.entry_count → relative_offset <ℤ offset_at s j))
  unfolding lookup_position
  lookup_position_lem rising =
      let (b, found, bounds) = floor_search_lem (passes s relative_offset) s.entry_count mono in
      go b found bounds
    where
      mono :
          (i j : ℕ)
          → i ≤ j
          → j < s.entry_count
          → passes s relative_offset j ≡ true
          → passes s relative_offset i ≡ true
      mono i j p q h = ≤-passes i (omega (arith, rising i j p q, passes-≤ j h))

      go :
          (b : ℕ)
          → floor_search
              (passes s relative_offset)
              s.entry_count
              (record { lo = 0; top = s.entry_count; result = none })
            ≡ last_below (passes s relative_offset) b
          → HoldsBelow (passes s relative_offset) s.entry_count b
          → IsFloor (lookup_position s relative_offset)
      go zero found (fit, low, high) =
          inl (rw (lookup_position, found) refl, λ i p. passes-< i (high i (omega arith) p))
      go (suc i) found (fit, low, high) = inr (
        i,
        omega arith,
        rw (lookup_position, found) refl,
        passes-≤ i (low i (omega arith)),
        λ j p q. passes-< j (high j (omega arith) q),
      )

  -- Whatever the order of the entries, a lookup answers nothing, or the position of an entry that
  -- is not above the offset looked for.
  pub lookup_position_sound :
      (lookup_position s relative_offset ≡ none)
      ⊎ ((i : ℕ) × (i < s.entry_count)
          × (lookup_position s relative_offset ≡ some (read_entry s.mapped i).position)
          × (offset_at s i ≤ℤ relative_offset))
  unfolding lookup_position
  lookup_position_sound = elim (Option-cases search) [
    | inl nothing ↦ inl (rw (lookup_position, nothing) refl)
    | inr (i, found) ↦
        let (below, passed) = subst (FoundBelow (passes s relative_offset) s.entry_count) found (
          floor_search-passes (passes s relative_offset) s.entry_count s.entry_count
            (record { lo = 0; top = s.entry_count; result = none }) (omega arith) tt) in
        inr (i, below, rw (lookup_position, found) refl, passes-≤ i passed)
  ]
    where
      search : Option ℕ
      search =
          floor_search (passes s relative_offset) s.entry_count
            (record { lo = 0; top = s.entry_count; result = none })
