-- ===== src/Storage/Slices.antt =====
-- Slices of bytes that are laid out one after the other.
use bunnymq.Prelude.{
  ℕ, zero, suc, ◌+◌, ◌-◌, ◌≤◌, List, [], ◌∷◌, ◌++◌, ◌≡◌, refl, ap, subst, arith, length, take, drop,
  take-append, drop-append, length-append, length-take, length-drop,
}
use bunnymq.Storage.BigEndian.{slice_of}

-- A slice that begins where one list ends and the next begins.
pub slice-append :
    (lo : ℕ) (a b c : List ℕ) (w : ℕ)
    → length a ≡ lo
    → length b ≡ w
    → slice_of lo (lo + w) (a ++ (b ++ c)) ≡ b
slice-append lo a b c w la lb =
    subst (λ (n : ℕ). take n (drop lo (a ++ (b ++ c))) ≡ b) (omega arith)
      (subst (λ (k : ℕ). take w (drop k (a ++ (b ++ c))) ≡ b) la
        (rw (drop-append a (b ++ c)) (subst (λ (k : ℕ). take k (b ++ c) ≡ b) lb (take-append b c))))

take-prefix : (w n : ℕ) (m r : List ℕ) → w ≤ n → n ≤ length m → take w (take n m ++ r) ≡ take w m
take-prefix zero n m r h k = refl
take-prefix (suc w) zero m r h k = absurd (omega arith)
take-prefix (suc w) (suc n) [] r h k = absurd (omega arith)
take-prefix (suc w) (suc n) (x ∷ m) r h k =
    ap (λ l. x ∷ l) (take-prefix w n m r (omega arith) (omega arith))

-- A slice that ends within the first of two lists.
pub slice-take :
    (lo w n : ℕ) (m r : List ℕ)
    → lo + w ≤ n
    → n ≤ length m
    → take w (drop lo (take n m ++ r)) ≡ take w (drop lo m)
slice-take zero w n m r h k = take-prefix w n m r (omega arith) k
slice-take (suc lo) w zero m r h k = absurd (omega arith)
slice-take (suc lo) w (suc n) [] r h k = absurd (omega arith)
slice-take (suc lo) w (suc n) (x ∷ m) r h k = slice-take lo w n m r (omega arith) (omega arith)

take-append_left : (w : ℕ) (m r : List ℕ) → w ≤ length m → take w (m ++ r) ≡ take w m
take-append_left zero m r h = refl
take-append_left (suc w) [] r h = absurd (omega arith)
take-append_left (suc w) (x ∷ m) r h = ap (λ l. x ∷ l) (take-append_left w m r (omega arith))

-- A slice that begins where one list ends, and ends within the next.
pub slice-within :
    (a b c : List ℕ) (w : ℕ)
    → w ≤ length b
    → slice_of (length a) (length a + w) (a ++ (b ++ c)) ≡ take w b
slice-within a b c w h =
    let n : w ≡ length a + w - length a = omega arith in
    subst (λ (n : ℕ). take n (drop (length a) (a ++ (b ++ c))) ≡ take w b) n
      (rw (drop-append a (b ++ c)) (take-append_left w b c h))

take-take : (w n : ℕ) (m : List ℕ) → w ≤ n → take w (take n m) ≡ take w m
take-take zero n m h = refl
take-take (suc w) zero m h = absurd (omega arith)
take-take (suc w) (suc n) [] h = refl
take-take (suc w) (suc n) (x ∷ m) h = ap (λ l. x ∷ l) (take-take w n m (omega arith))

-- A slice of a beginning that contains it.
pub slice-of_take :
    (lo w n : ℕ) (m : List ℕ) → lo + w ≤ n → take w (drop lo (take n m)) ≡ take w (drop lo m)
slice-of_take zero w n m h = take-take w n m (omega arith)
slice-of_take (suc lo) w zero m h = absurd (omega arith)
slice-of_take (suc lo) w (suc n) [] h = refl
slice-of_take (suc lo) w (suc n) (x ∷ m) h = slice-of_take lo w n m (omega arith)

-- Bytes that are written over others, within the file, leave its size.
pub length-write_at :
    (off : ℕ) (bytes m : List ℕ)
    → off + length bytes ≤ length m
    → length (take off m ++ bytes ++ drop (off + length bytes) m) ≡ length m
length-write_at off bytes m h = omega (
  arith,
  length-append (take off m ++ bytes) (drop (off + length bytes) m),
  length-append (take off m) bytes,
  length-take off m,
  length-drop (off + length bytes) m,
)

-- A slice that begins where one list ends, of what follows.
pub slice-front : (a b : List ℕ) (w : ℕ) → slice_of (length a) (length a + w) (a ++ b) ≡ take w b
slice-front a b w =
    let n : w ≡ length a + w - length a = omega arith in
    subst (λ (n : ℕ). take n (drop (length a) (a ++ b)) ≡ take w b) n (rw (drop-append a b) refl)
