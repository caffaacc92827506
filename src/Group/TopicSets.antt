-- ===== src/Group/TopicSets.antt =====
-- internal/coordinator/group/groupcoord.go: `topicSetsEqual`.
use mathlib.Core.List.{Permᴰ}
use mathlib.Core.List.Permᴰ
use bunnymq.Prelude.{
  subst, List, [], ◌∷◌, Bool, true, false, ◌≡◌, ◌↔◌, refl, sym, ◌∙◌, length, eqb, eqb_iff,
  if◌then◌else◌, arith,
}
use bunnymq.Prelude.Keys.{Bytes, bytes_eq, bytes_eq_iff, bytes_le, bytes-Ord}
use bunnymq.Prelude.Sort.{sort, sort-perm, sort-eq_of_perm}
use bunnymq.Prelude.Distinct.{length-perm}

-- `for i := range sa { if sa[i] != sb[i] { return false } }`, for two slices of one length
unfoldable pub same_elements : List Bytes → List Bytes → Bool
unfolding bytes_eq
same_elements [] sb = true
same_elements (x ∷ sa) [] = true
same_elements (x ∷ sa) (y ∷ sb) =
    let rest = same_elements sa sb in if bytes_eq x y then rest else false

unfoldable pub topic_sets_equal : List Bytes → List Bytes → Bool
unfolding sort bytes_le same_elements
topic_sets_equal a b = if eqb (length a) (length b) then same_elements (sort a) (sort b) else false

same_elements→eq :
    (sa sb : List Bytes) → length sa ≡ length sb → same_elements sa sb ≡ true → sa ≡ sb
unfolding same_elements
same_elements→eq [] [] l h = refl
same_elements→eq [] (y ∷ sb) l h = ground arith
same_elements→eq (x ∷ sa) [] l h = ground arith
same_elements→eq (x ∷ sa) (y ∷ sb) l h = ground (arith, same_elements→eq sa sb, bytes_eq_iff x y)

same_elements_refl : (sa : List Bytes) → same_elements sa sa ≡ true
unfolding same_elements
same_elements_refl [] = refl
same_elements_refl (x ∷ sa) = ground (arith, same_elements_refl sa, bytes_eq_iff x x)

-- `topicSetsEqual` holds exactly of two slices that are permutations of each other.
pub topic_sets_equal_iff : (a b : List Bytes) → (topic_sets_equal a b ≡ true) ↔ Permᴰ a b
unfolding topic_sets_equal
topic_sets_equal_iff a b = (forth, back)
  where
    forth : topic_sets_equal a b ≡ true → Permᴰ a b
    forth h =
        let long : length a ≡ length b = ground (arith, eqb_iff (length a) (length b)) in
        let same : sort a ≡ sort b =
          same_elements→eq (sort a) (sort b)
            (length-perm (sort-perm a) ∙ long ∙ sym (length-perm (sort-perm b)))
            (ground (arith, eqb_iff (length a) (length b))) in
        Permᴰ.trans (Permᴰ.symm (sort-perm a)) (subst (λ l. Permᴰ l b) (sym same) (sort-perm b))

    back : Permᴰ a b → topic_sets_equal a b ≡ true
    back p =
        let same : same_elements (sort a) (sort b) ≡ true =
          subst (λ l. same_elements (sort a) l ≡ true) (sort-eq_of_perm p)
            (same_elements_refl (sort a)) in
        ground (arith, eqb_iff (length a) (length b), length-perm p)
