-- ===== src/Assignment/Keys.antt =====
-- The keys of an assignment: those that the assignor starts with.
use bunnymq.Prelude.{
  ℕ, suc, ℤ, List, [], ◌∷◌, ◌≡◌, refl, sym, subst, ◌∙◌, arith, length, if_rule, eqb,
}
use bunnymq.Prelude.Keys.{Bytes, bytes-Eq, bytes-Ord}
use bunnymq.Prelude.Sort.{sort, sort-perm}
use bunnymq.Prelude.Distinct.{length-perm}
use bunnymq.Prelude.Maps.{Map, insert, keys, keys-modify}
use bunnymq.Metadata.Types.{Assignment}
use bunnymq.Assignment.{
  partition_count, range_assign, assign_sorted, assign_topics, assign_topic, assign_members,
  empty_slices,
}

-- The assignment of a list of members that is not empty is not empty.
abbrev pub IsCons {ℓ} : {A : Type ℓ} → List A → Type 0
IsCons [] = ⊥
IsCons (x ∷ xs) = Unit

keys-assign_members :
    (ms : List Bytes) (t : Bytes) (b r i c : ℕ) (a : Assignment)
    → keys (assign_members t b r i c ms a) ≡ keys a
unfolding assign_members
keys-assign_members [] t b r i c a = refl
keys-assign_members (m ∷ ms) t b r i c a = keys-assign_members ms t b r _ _ _ ∙ keys-modify m _ a

keys-assign_topic :
    (ms : List Bytes) (counts : Map Bytes ℤ) (t : Bytes) (a : Assignment)
    → keys (assign_topic ms counts t a) ≡ keys a
unfolding assign_topic
keys-assign_topic ms counts t a =
    if_rule {A = Assignment} (λ r. keys r ≡ keys a) (eqb (partition_count counts t) 0) (λ _. refl)
      (λ _. keys-assign_members ms t _ _ 0 0 a)

keys-assign_topics :
    (ms : List Bytes) (counts : Map Bytes ℤ) (ts : List Bytes) (a : Assignment)
    → keys (assign_topics ms counts ts a) ≡ keys a
unfolding assign_topics
keys-assign_topics ms counts [] a = refl
keys-assign_topics ms counts (t ∷ ts) a =
    keys-assign_topics ms counts ts _ ∙ keys-assign_topic ms counts t a

empty_slices-IsCons :
    (ms : List Bytes) (a : Assignment) → IsCons (keys a) → IsCons (keys (empty_slices ms a))
unfolding empty_slices keys insert
empty_slices-IsCons [] a h = h
empty_slices-IsCons (m ∷ ms) a h = empty_slices-IsCons ms (insert m [] a) tt

assign_sorted-IsCons :
    (ms : List Bytes) (ts : List Bytes) (counts : Map Bytes ℤ)
    → IsCons ms
    → IsCons (keys (assign_sorted ms ts counts))
unfolding assign_sorted empty_slices keys insert
assign_sorted-IsCons [] ts counts h = elim h [ ]
assign_sorted-IsCons (m ∷ ms) ts counts h =
    subst IsCons (sym (keys-assign_topics (m ∷ ms) counts ts _)) (empty_slices-IsCons ms _ tt)

sort-IsCons : (m : Bytes) (ms : List Bytes) → IsCons (sort (m ∷ ms))
sort-IsCons m ms = go (sort (m ∷ ms)) (length-perm (sort-perm (m ∷ ms)))
  where
    go : (l : List Bytes) → length l ≡ suc (length ms) → IsCons l
    go [] h = ground arith
    go (x ∷ xs) h = tt

pub range_assign-IsCons :
    (m : Bytes) (ms ts : List Bytes) (counts : Map Bytes ℤ)
    → IsCons (keys (range_assign (m ∷ ms) ts counts))
unfolding range_assign
range_assign-IsCons m ms ts counts =
    assign_sorted-IsCons (sort (m ∷ ms)) (sort ts) counts (sort-IsCons m ms)
