-- ===== src/Prelude/Sort.antt =====
-- Sorting by a total order. `sort.Strings` and `sort.Slice` return the ascending permutation of
-- their input, and by `sort-eq_of_perm` there is only one, whatever the algorithm.
use mathlib.Core.Path.{◌≡◌, refl, ◌∙◌}
use mathlib.Core.Bool.{Bool, true, false}
use mathlib.Core.List.{List, [], ◌∷◌, Permᴰ}
use mathlib.Core.List.Permᴰ
use native.Mathlib.Omega.{arith}
use bunnymq.Prelude.Tests.{if◌then◌else◌}
use bunnymq.Prelude.Keys.{Ord}

-- By a comparison `less or equal`.
module _ {ℓ} {A : Type ℓ} (leq : A → A → Bool) where
  pub insert_by : A → List A → List A
  insert_by x [] = x ∷ []
  insert_by x (y ∷ ys) = let rest = insert_by x ys in if leq x y then x ∷ y ∷ ys else y ∷ rest

  unfoldable pub sort_by : List A → List A
  unfolding insert_by
  sort_by [] = []
  sort_by (x ∷ xs) = insert_by x (sort_by xs)

  insert_by-perm : (x : A) (l : List A) → Permᴰ (insert_by x l) (x ∷ l)
  unfolding insert_by
  insert_by-perm x [] = Permᴰ.refl (x ∷ [])
  insert_by-perm x (y ∷ ys) = pick (leq x y) (insert_by-perm x ys)
    where
      pick :
          (b : Bool)
          → Permᴰ (insert_by x ys) (x ∷ ys)
          → Permᴰ (if b then x ∷ y ∷ ys else y ∷ insert_by x ys) (x ∷ y ∷ ys)
      pick true p = Permᴰ.refl (x ∷ y ∷ ys)
      pick false p = Permᴰ.trans (Permᴰ.cons refl p) (Permᴰ.swap refl refl)

  pub sort_by-perm : (l : List A) → Permᴰ (sort_by l) l
  unfolding sort_by
  sort_by-perm [] = Permᴰ.nil
  sort_by-perm (x ∷ xs) =
      Permᴰ.trans (insert_by-perm x (sort_by xs)) (Permᴰ.cons refl (sort_by-perm xs))

module _ {ℓ} {A : Type ℓ} ⦃o : Ord A⦄ where
  abbrev insert_sorted : A → List A → List A
  insert_sorted = insert_by o.leq

  unfoldable pub sort : List A → List A
  unfolding sort_by
  sort = sort_by o.leq

  -- Each element is below the next.
  abbrev pub IsSorted : List A → Type 0
  IsSorted [] = Unit
  IsSorted (x ∷ []) = Unit
  IsSorted (x ∷ y ∷ ys) = (o.leq x y ≡ true) × IsSorted (y ∷ ys)

  pub sort-perm : (l : List A) → Permᴰ (sort l) l
  unfolding sort
  sort-perm l = sort_by-perm o.leq l

  insert_sorted-IsSorted : (x : A) (l : List A) → IsSorted l → IsSorted (insert_sorted x l)
  unfolding insert_by
  insert_sorted-IsSorted x [] h = ground arith
  insert_sorted-IsSorted x (y ∷ []) h = ground (arith, o.leq_total x y)
  insert_sorted-IsSorted x (y ∷ z ∷ zs) h =
      ground (arith, o.leq_total x y, o.leq_total x z, insert_sorted-IsSorted x (z ∷ zs))

  pub sort-IsSorted : (l : List A) → IsSorted (sort l)
  unfolding sort
  sort-IsSorted [] = ground arith
  sort-IsSorted (x ∷ xs) = insert_sorted-IsSorted x (sort xs) (sort-IsSorted xs)

  insert_sorted_comm :
      (x y : A) (l : List A)
      → insert_sorted x (insert_sorted y l) ≡ insert_sorted y (insert_sorted x l)
  unfolding insert_by
  insert_sorted_comm x y [] = ground (arith, o.leq_total x y, o.leq_antisymm x y)
  insert_sorted_comm x y (z ∷ zs) = ground (
    arith,
    o.leq_total x y,
    o.leq_antisymm x y,
    o.leq_trans x y z,
    o.leq_trans y x z,
    o.leq_total x z,
    o.leq_total y z,
    insert_sorted_comm x y zs,
  )

  -- The order of the input does not matter.
  pub sort-eq_of_perm : {l m : List A} → Permᴰ l m → sort l ≡ sort m
  unfolding sort
  sort-eq_of_perm Permᴰ.nil = refl
  sort-eq_of_perm (Permᴰ.cons e p) = cc (e, sort-eq_of_perm p)
  sort-eq_of_perm (Permᴰ.swap {a = x} {b = y} {l = r} e f) =
      cc (e, f, insert_sorted_comm x y (sort r))
  sort-eq_of_perm (Permᴰ.trans p q) = sort-eq_of_perm p ∙ sort-eq_of_perm q
