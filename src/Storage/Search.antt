-- ===== src/Storage/Search.antt =====
-- internal/storage/offset_index.go and time_index.go: the binary searches of `Lookup`, over the
-- test that each makes of an entry.
use bunnymq.Prelude.{
  ℕ, zero, suc, ◌+◌, ◌-◌, ◌/◌, ◌<◌, ◌≤◌, Option, none, some, Bool, true, false, ◌≡◌, refl, arith,
  ltb, if◌then◌else◌, Bool-cases, inl, inr, if_rule,
}

-- `lo`, `hi` and `result` of the loop, with `top` for hi + 1 and `none` for a result of -1
pub record Window : Type 0 where
  pub lo : ℕ
  pub top : ℕ
  pub result : Option ℕ

abbrev middle : Window → ℕ
middle w = (w.lo + (w.top - 1)) / 2

module _ (test : ℕ → Bool) where
  abbrev floor_step : Window → Window
  floor_step w =
      if test (middle w)
      then record { lo = middle w + 1; top = w.top; result = some (middle w) }
      else record { lo = w.lo; top = middle w; result = w.result }

  -- `for lo <= hi`, with the rounds left: OffsetIndexSegment
  unfoldable pub floor_search : ℕ → Window → Option ℕ
  floor_search zero w = w.result
  floor_search (suc k) w =
      let rest = floor_search k (floor_step w) in if ltb w.lo w.top then rest else w.result

  abbrev ceiling_step : Window → Window
  ceiling_step w =
      if test (middle w)
      then record { lo = w.lo; top = middle w; result = some (middle w) }
      else record { lo = middle w + 1; top = w.top; result = w.result }

  -- `for lo <= hi`, with the rounds left: TimeIndexSegment
  unfoldable pub ceiling_search : ℕ → Window → Option ℕ
  ceiling_search zero w = w.result
  ceiling_search (suc k) w =
      let rest = ceiling_search k (ceiling_step w) in if ltb w.lo w.top then rest else w.result

  -- The last index below a boundary.
  abbrev pub last_below : ℕ → Option ℕ
  last_below zero = none
  last_below (suc b) = some b

  -- The test holds exactly below the boundary.
  abbrev pub HoldsBelow : ℕ → ℕ → Type 0
  HoldsBelow n b =
      (b ≤ n) × ((i : ℕ) → i < b → test i ≡ true) × ((i : ℕ) → b ≤ i → i < n → test i ≡ false)

  -- The test holds exactly from the boundary on.
  abbrev pub HoldsFrom : ℕ → ℕ → Type 0
  HoldsFrom n b =
      (b ≤ n) × ((i : ℕ) → i < b → test i ≡ false) × ((i : ℕ) → b ≤ i → i < n → test i ≡ true)

  abbrev FloorFound : ℕ → Option ℕ → Type 0
  FloorFound n r = (b : ℕ) × (r ≡ last_below b) × HoldsBelow n b

  floor_from :
      (n k : ℕ) (w : Window)
      → ((i j : ℕ) → i ≤ j → j < n → test j ≡ true → test i ≡ true)
      → w.top ≤ n
      → w.lo ≤ w.top
      → w.top ≤ w.lo + k
      → w.result ≡ last_below w.lo
      → ((i : ℕ) → i < w.lo → test i ≡ true)
      → ((i : ℕ) → w.top ≤ i → i < n → test i ≡ false)
      → FloorFound n (floor_search k w)
  unfolding floor_search
  floor_from n zero w mono fit order fuel res low high =
      (w.lo, res, (omega arith, low, λ i p q. high i (omega arith) q))
  floor_from n (suc k) w mono fit order fuel res low high =
      if_rule (FloorFound n) (ltb w.lo w.top)
        (λ more.
          if_rule (λ v. FloorFound n (floor_search k v)) (test (middle w))
            (λ holds.
              floor_from n k (record { lo = middle w + 1; top = w.top; result = some (middle w) })
                mono fit (ground arith) (ground arith) (below_suc (middle w))
                (λ i p. mono i (middle w) (omega arith) (ground arith) holds) high)
            (λ fails.
              floor_from n k (record { lo = w.lo; top = middle w; result = w.result }) mono
                (ground arith) (ground arith) (ground arith) res low
                (λ i p q. above mono (middle w) i p q fails)))
        (λ done. (w.lo, res, (omega arith, low, λ i p q. high i (ground arith) q)))
    where
      below_suc : (m : ℕ) → some m ≡ last_below (m + 1)
      below_suc m = ground arith

      above :
          ((i j : ℕ) → i ≤ j → j < n → test j ≡ true → test i ≡ true)
          → (m i : ℕ) → m ≤ i
          → i < n
          → test m ≡ false
          → test i ≡ false
      above mono m i p q fails = elim (Bool-cases (test i)) [
        | inl holds ↦ ground (arith, mono m i p q holds)
        | inr b ↦ b
      ]

  -- Where the test holds of a beginning of n indexes and of no later one, the floor search over
  -- all of them finds the last index of that beginning, and none where it is empty.
  pub floor_search_lem :
      (n : ℕ)
      → ((i j : ℕ) → i ≤ j → j < n → test j ≡ true → test i ≡ true)
      → (b : ℕ) × (floor_search n (record { lo = 0; top = n; result = none }) ≡ last_below b)
        × HoldsBelow n b
  floor_search_lem n mono =
      floor_from n n (record { lo = 0; top = n; result = none }) mono (omega arith) (omega arith)
        (omega arith) refl (λ i p. absurd (omega arith)) (λ i p q. absurd (omega arith))

  abbrev pub FoundBelow : ℕ → Option ℕ → Type 0
  FoundBelow n none = Unit
  FoundBelow n (some i) = (i < n) × (test i ≡ true)

  -- Whatever the test, an index that the floor search finds passes it.
  pub floor_search-passes :
      (n k : ℕ) (w : Window) → w.top ≤ n → FoundBelow n w.result → FoundBelow n (floor_search k w)
  unfolding floor_search
  floor_search-passes n zero w fit found = found
  floor_search-passes n (suc k) w fit found =
      if_rule (FoundBelow n) (ltb w.lo w.top)
        (λ more.
          if_rule (λ v. FoundBelow n (floor_search k v)) (test (middle w))
            (λ holds.
              floor_search-passes n k
                (record { lo = middle w + 1; top = w.top; result = some (middle w) }) fit
                (ground arith, holds))
            (λ fails.
              floor_search-passes n k (record { lo = w.lo; top = middle w; result = w.result })
                (ground arith) found))
        (λ done. found)

  abbrev first_from : ℕ → ℕ → Option ℕ
  first_from n b = if ltb b n then some b else none

  abbrev CeilingFound : ℕ → Option ℕ → Type 0
  CeilingFound n r = (b : ℕ) × (r ≡ first_from n b) × HoldsFrom n b

  ceiling_from :
      (n k : ℕ) (w : Window)
      → ((i j : ℕ) → i ≤ j → j < n → test i ≡ true → test j ≡ true)
      → w.top ≤ n
      → w.lo ≤ w.top
      → w.top ≤ w.lo + k
      → w.result ≡ first_from n w.top
      → ((i : ℕ) → i < w.lo → test i ≡ false)
      → ((i : ℕ) → w.top ≤ i → i < n → test i ≡ true)
      → CeilingFound n (ceiling_search k w)
  unfolding ceiling_search
  ceiling_from n zero w mono fit order fuel res low high =
      (w.top, res, (fit, λ i p. low i (omega arith), high))
  ceiling_from n (suc k) w mono fit order fuel res low high =
      if_rule (CeilingFound n) (ltb w.lo w.top)
        (λ more.
          if_rule (λ v. CeilingFound n (ceiling_search k v)) (test (middle w))
            (λ holds.
              ceiling_from n k (record { lo = w.lo; top = middle w; result = some (middle w) }) mono
                (ground arith) (ground arith) (ground arith) (ground arith) low
                (λ i p q. mono (middle w) i p q holds))
            (λ fails.
              ceiling_from n k (record { lo = middle w + 1; top = w.top; result = w.result }) mono
                fit (ground arith) (ground arith) res
                (λ i p. below mono i (middle w) (omega arith) (ground arith) fails) high))
        (λ done. (w.top, res, (fit, λ i p. low i (ground arith), high)))
    where
      below :
          ((i j : ℕ) → i ≤ j → j < n → test i ≡ true → test j ≡ true)
          → (i m : ℕ) → i ≤ m
          → m < n
          → test m ≡ false
          → test i ≡ false
      below mono i m p q fails = elim (Bool-cases (test i)) [
        | inl holds ↦ ground (arith, mono i m p q holds)
        | inr b ↦ b
      ]

  -- Where the test holds of an end of n indexes and of no earlier one, the ceiling search over all
  -- of them finds the first index of that end, and none where it is empty.
  pub ceiling_search_lem :
      (n : ℕ)
      → ((i j : ℕ) → i ≤ j → j < n → test i ≡ true → test j ≡ true)
      → (b : ℕ) × (ceiling_search n (record { lo = 0; top = n; result = none })
          ≡ (if ltb b n then some b else none))
        × HoldsFrom n b
  ceiling_search_lem n mono =
      ceiling_from n n (record { lo = 0; top = n; result = none }) mono (omega arith) (omega arith)
        (omega arith) (ground arith) (λ i p. absurd (omega arith)) (λ i p q. absurd (omega arith))
