-- ===== src/Storage/BigEndian.antt =====
-- The big-endian numbers of encoding/binary, as internal/storage writes and reads them.
use bunnymq.Prelude.{ℕ, zero, suc, ◌+◌, ◌*◌, ◌/◌, ◌%◌, ◌-◌, List, [], ◌∷◌, ◌++◌, take, drop}

-- The low `w` bytes of `n`, the highest first: PutUint16, PutUint32, PutUint64.
unfoldable pub put_bytes : ℕ → ℕ → List ℕ
put_bytes zero n = []
put_bytes (suc w) n = put_bytes w (n / 256) ++ (n % 256 ∷ [])

-- Uint16, Uint32, Uint64: the number that a slice of bytes spells, after `n`.
unfoldable pub get_bytes : ℕ → List ℕ → ℕ
get_bytes n [] = n
get_bytes n (b ∷ bs) = get_bytes (n * 256 + b) bs

-- `input[lo:hi]`
abbrev pub slice_of : ℕ → ℕ → List ℕ → List ℕ
slice_of lo hi input = take (hi - lo) (drop lo input)
