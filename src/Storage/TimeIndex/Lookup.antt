-- ===== src/Storage/TimeIndex/Lookup.antt =====
-- The ceiling that a lookup in the time index finds.
use bunnymq.Prelude.{ℕ, ◌<◌, ℤ, ◌≤ℤ◌, ◌<ℤ◌, Option, none, some, ◌≡◌, ◌⊎◌}
use bunnymq.Storage.TimeIndex.{TimeIndexSegment, read_entry}

abbrev pub time_at : TimeIndexSegment → ℕ → ℤ
time_at s i = (read_entry s.mapped i).timestamp_ms

module _ (s : TimeIndexSegment) (timestamp_ms : ℤ) where
  abbrev IsCeiling : Option ℤ → Type 0
  IsCeiling r =
      ((r ≡ none) × ((i : ℕ) → i < s.entry_count → time_at s i <ℤ timestamp_ms))
      ⊎ ((i : ℕ) × (i < s.entry_count)
          × (r ≡ some (read_entry s.mapped i).relative_offset)
          × (timestamp_ms ≤ℤ time_at s i)
          × ((j : ℕ) → j < i → time_at s j <ℤ timestamp_ms))
