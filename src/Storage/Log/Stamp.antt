-- ===== src/Storage/Log/Stamp.antt =====
-- A batch with the base offset that the log assigns, and the active segment at the end of a list.
use bunnymq.Prelude.{
  ℕ, zero, suc, ◌+◌, ◌%◌, ◌^◌, ◌≤◌, ◌<◌, pos, to_u64, of_u64, List, [], ◌∷◌, ◌++◌, length,
  length-drop, take, drop, ◌≡◌, refl, sym, ◌∙◌, ap, arith, some,
}
use bunnymq.Storage.BigEndian.{get_bytes, put_bytes}
use bunnymq.Storage.LogSegment.{field}
use bunnymq.Storage.Segment.{batch_base, record_count}
use bunnymq.Storage.Segment.Layout.{IsBatch}
use bunnymq.Storage.Log.{last_split, stamp}

pub last_split-append {ℓ} :
    {A : Type ℓ} (xs : List A) (x : A) → last_split (xs ++ (x ∷ [])) ≡ some (xs, x)
unfolding last_split
last_split-append [] x = refl
last_split-append (y ∷ xs) x = rw (last_split-append xs x) refl

eight_bytes : (n : ℕ) → get_bytes 0 (put_bytes 8 n) ≡ n % 2 ^ 64
unfolding get_bytes put_bytes
eight_bytes n = omega arith

drop_nil : (k : ℕ) → drop {A = ℕ} k [] ≡ []
drop_nil zero = refl
drop_nil (suc k) = refl

drop-drop : (m n : ℕ) (xs : List ℕ) → drop m (drop n xs) ≡ drop (n + m) xs
drop-drop m zero xs = ap (λ (k : ℕ). drop k xs) (omega arith)
drop-drop m (suc n) [] = drop_nil m ∙ sym (drop_nil (suc n + m))
drop-drop m (suc n) (x ∷ xs) =
    let more : suc (n + m) ≡ suc n + m = omega arith in
    drop-drop m n xs ∙ ap (λ (k : ℕ). drop k (x ∷ xs)) more

module _ (n : ℕ) (b : List ℕ) where
  stamp-front : field 0 8 (stamp (pos n) b) ≡ get_bytes 0 (put_bytes 8 (to_u64 (pos n)))
  unfolding stamp put_bytes
  stamp-front = refl

  -- The stamp is the batch's base offset.
  pub stamp-batch_base : n < 2 ^ 63 → batch_base (stamp (pos n) b) ≡ pos n
  unfolding of_u64 to_u64
  stamp-batch_base small = rw (stamp-front, eight_bytes (n % 2 ^ 64)) (ground arith)

  -- The stamp leaves the length and the number of records.
  stamp-batch_length : field 8 12 (stamp (pos n) b) ≡ field 8 12 b
  unfolding stamp put_bytes
  stamp-batch_length = refl

  pub stamp-record_count : record_count (stamp (pos n) b) ≡ record_count b
  unfolding stamp put_bytes
  stamp-record_count = ap (λ l. get_bytes 0 (take 4 l)) (drop-drop 4 8 b)

  pub stamp-length : 8 ≤ length b → length (stamp (pos n) b) ≡ length b
  unfolding stamp put_bytes
  stamp-length long = omega (arith, length-drop 8 b)

  pub stamp-IsBatch : IsBatch b → IsBatch (stamp (pos n) b)
  stamp-IsBatch ((long, framed), one, fits) =
      let size = stamp-length (omega arith) in
      (
        (omega (arith, size), stamp-batch_length ∙ framed ∙ sym size),
        omega (arith, stamp-record_count),
        omega (arith, stamp-record_count, size),
      )
