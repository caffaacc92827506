-- ===== src/Prelude/Decimal.antt =====
-- `strconv` and `%d`: decimal text of integers.
use bunnymq.Prelude.{ℕ, zero, suc, ◌+◌, ◌/◌, ◌%◌, ltb, [], ◌∷◌, ◌++◌, ℤ, pos, negsuc, if◌then◌else◌}
use bunnymq.Prelude.Keys.{Bytes}

-- The digits of a number below 10 ^ (fuel + 1), the highest first.
unfoldable pub digits : ℕ → ℕ → Bytes
digits zero n = (48 + n % 10) ∷ []
digits (suc fuel) n =
    let rest = digits fuel (n / 10) in
    if ltb n 10 then (48 + n) ∷ [] else rest ++ ((48 + n % 10) ∷ [])

-- An `int64` has 19 digits at most.
unfoldable pub format_i64 : ℤ → Bytes
unfolding digits
format_i64 (pos n) = digits 19 n
format_i64 (negsuc n) = 45 ∷ digits 19 (suc n)
