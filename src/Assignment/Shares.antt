-- ===== src/Assignment/Shares.antt =====
-- What the range assignor gives to the member at each position of the sorted list.
use mathlib.Core.List.{append-nil, append_assoc}
use mathlib.Core.List.{Permᴰ}
use mathlib.Core.List.Permᴰ
use Prim.Native.Nat.{min}
use bunnymq.Prelude.{
  ℕ, zero, suc, ◌+◌, ◌*◌, ◌/◌, ◌%◌, ◌≡◌, ◌≢◌, refl, sym, ap, ◌∙◌, some, List, [], ◌∷◌, ◌++◌, ℤ, pos,
  wrap_i32, arith, length, get_elem?, All, ltb, eqb, eqb_iff, Bool-cases, inl, inr, if◌then◌else◌,
}
use bunnymq.Prelude.Keys.{Bytes, bytes_eq_iff, bytes-Eq, bytes-Ord}
use bunnymq.Prelude.Sort.{sort, sort-perm, sort-eq_of_perm}
use bunnymq.Prelude.Distinct.{Distinct, Distinct-perm, All-at, All-map}
use bunnymq.Prelude.Maps.{
  Map, lookup, insert, lookup-modify, lookup-modify_self, lookup-modify_ne, lookup-insert,
}
use bunnymq.Metadata.Types.{TopicPartition, Assignment}
use bunnymq.Assignment.{
  append_range, assign_members, partition_count, assign_topic, assign_topics, empty_slices,
  range_assign, assign_sorted,
}

-- The partitions p, …, p + n - 1 of a topic.
unfoldable pub part_range : Bytes → ℕ → ℕ → List TopicPartition
part_range topic p zero = []
part_range topic p (suc n) =
    record { topic = topic; partition_id = wrap_i32 (pos p) } ∷ part_range topic (p + 1) n

-- How many of n partitions the i-th of k members gets, and where they begin.
abbrev pub share_size : ℕ → ℕ → ℕ → ℕ
share_size base remainder i = if ltb i remainder then base + 1 else base

abbrev pub share_start : ℕ → ℕ → ℕ → ℕ
share_start base remainder i = i * base + min i remainder

unfoldable pub shares : Map Bytes ℤ → ℕ → ℕ → List Bytes → List TopicPartition
shares counts k i [] = []
shares counts k i (t ∷ ts) =
    let n = partition_count counts t in
    part_range t (share_start (n / k) (n % k) i) (share_size (n / k) (n % k) i)
    ++ shares counts k i ts

append_range-eq :
    (t : Bytes) (p n : ℕ) (tps : List TopicPartition)
    → append_range t p n tps ≡ tps ++ part_range t p n
unfolding append_range part_range
append_range-eq t p zero tps = sym (append-nil tps)
append_range-eq t p (suc n) tps = append_range-eq t (p + 1) n _ ∙ append_assoc tps _ _

pub next_start : (b r i : ℕ) → share_start b r (i + 1) ≡ share_start b r i + share_size b r i
next_start b r i = ground arith

module _ (m t : Bytes) (b r : ℕ) where
  assign_members-other :
      (i c : ℕ) (ms : List Bytes) (result : Assignment)
      → All (λ x. x ≢ m) ms
      → lookup m (assign_members t b r i c ms result) ≡ lookup m result
  unfolding assign_members
  assign_members-other i c [] result h = refl
  assign_members-other i c (x ∷ xs) result h =
      assign_members-other (i + 1) _ xs _ h.1
      ∙ lookup-modify x m (append_range t c (share_size b r i)) result
      ∙ ground (arith, bytes_eq_iff x m)

  assign_members-at :
      (j i k c : ℕ) (ms : List Bytes) (result : Assignment) (old : List TopicPartition)
      → Distinct ms
      → get_elem? ms j ≡ some m
      → lookup m result ≡ some old
      → c ≡ share_start b r i
      → k ≡ i + j
      → lookup m (assign_members t b r i c ms result)
        ≡ some (old ++ part_range t (share_start b r k) (share_size b r k))
  unfolding assign_members
  assign_members-at j i k c [] result old d e l s q = cc
  assign_members-at zero i k c (x ∷ xs) result old d e l s q =
      let x=m : x ≡ m = cc in
      let k=i : k ≡ i = omega arith in
      assign_members-other (i + 1) _ xs _
        (All-map (λ y. x ≢ y) (λ y. y ≢ m) xs (λ y n p. n (x=m ∙ sym p)) d.0)
      ∙ rw (x=m, k=i)
          (lookup-modify_self m (append_range t c (share_size b r i)) result l
            ∙ ap some (append_range-eq t c (share_size b r i) old)
            ∙ rw s refl)
  assign_members-at (suc j) i k c (x ∷ xs) result old d e l s q =
      assign_members-at j (i + 1) k (c + share_size b r i) xs _ old d.1 e
        (lookup-modify_ne x m (append_range t c (share_size b r i)) result (All-at _ xs j d.0 e)
          ∙ l)
        (omega (arith, next_start b r i, s)) (omega arith)

module _ (m : Bytes) (counts : Map Bytes ℤ) (sorted : List Bytes) (i : ℕ)
    (distinct : Distinct sorted) (at : get_elem? sorted i ≡ some m) where
  abbrev share : Bytes → List TopicPartition
  share t =
      let n = partition_count counts t in
      let k = length sorted in
      part_range t (share_start (n / k) (n % k) i) (share_size (n / k) (n % k) i)

  -- A topic without partitions has empty shares.
  share_zero : (t : Bytes) → partition_count counts t ≡ 0 → share t ≡ []
  unfolding part_range
  share_zero t h = ground arith

  assign_topic-at :
      (t : Bytes) (result : Assignment) {old : List TopicPartition}
      → lookup m result ≡ some old
      → lookup m (assign_topic sorted counts t result) ≡ some (old ++ share t)
  unfolding assign_topic
  assign_topic-at t result {old} l = elim (Bool-cases (eqb (partition_count counts t) 0)) [
    | inl e ↦ rw e (
        l
        ∙ ap some (sym (append-nil old))
        ∙ ap (λ z. some (old ++ z)) (sym (share_zero t (omega (arith, (eqb_iff _ _).0 e)))))
    | inr e ↦ rw e (
        assign_members-at m t _ _ i 0 i 0 sorted result old distinct at l (omega arith)
          (omega arith))
  ]

  assign_topics-at :
      (ts : List Bytes) (result : Assignment) {old : List TopicPartition}
      → lookup m result ≡ some old
      → lookup m (assign_topics sorted counts ts result)
        ≡ some (old ++ shares counts (length sorted) i ts)
  unfolding assign_topics shares
  assign_topics-at [] result {old} l = l ∙ ap some (sym (append-nil old))
  assign_topics-at (t ∷ ts) result {old} l =
      assign_topics-at ts (assign_topic sorted counts t result) (assign_topic-at t result l)
      ∙ ap some (append_assoc old (share t) _)

-- A slice that is made stays empty while the others are made.
empty_slices-keeps :
    (m : Bytes) (ms : List Bytes) (result : Assignment)
    → lookup m result ≡ some []
    → lookup m (empty_slices ms result) ≡ some []
unfolding empty_slices
empty_slices-keeps m [] result l = l
empty_slices-keeps m (x ∷ xs) result l =
    empty_slices-keeps m xs (insert x [] result)
      (ground (arith, lookup-insert x m [] result, bytes_eq_iff x m))

empty_slices-at :
    (m : Bytes) (i : ℕ) (ms : List Bytes) (result : Assignment)
    → get_elem? ms i ≡ some m
    → lookup m (empty_slices ms result) ≡ some []
unfolding empty_slices
empty_slices-at m i [] result e = cc
empty_slices-at m zero (x ∷ xs) result e =
    empty_slices-keeps m xs (insert x [] result)
      (ground (arith, lookup-insert x m [] result, bytes_eq_iff x m))
empty_slices-at m (suc i) (x ∷ xs) result e = empty_slices-at m i xs (insert x [] result) e

assign_sorted-at :
    (m : Bytes) (i : ℕ) (ms ts : List Bytes) (counts : Map Bytes ℤ)
    → Distinct ms
    → get_elem? ms i ≡ some m
    → lookup m (assign_sorted ms ts counts) ≡ some (shares counts (length ms) i ts)
unfolding assign_sorted
assign_sorted-at m i [] ts counts d e = cc
assign_sorted-at m i (x ∷ xs) ts counts d e =
    assign_topics-at m counts (x ∷ xs) i d e ts (empty_slices (x ∷ xs) [])
      (empty_slices-at m i (x ∷ xs) [] e)

-- With distinct member ids, the member at position i of the sorted members is assigned, topic by
-- topic in sorted order, the i-th of k consecutive ranges of the topic's partitions.
pub range_assign-shares :
    (members topics : List Bytes) (counts : Map Bytes ℤ) (i : ℕ) (m : Bytes)
    → Distinct members
    → get_elem? (sort members) i ≡ some m
    → lookup m (range_assign members topics counts)
      ≡ some (shares counts (length (sort members)) i (sort topics))
unfolding range_assign
range_assign-shares members topics counts i m d e =
    assign_sorted-at m i (sort members) (sort topics) counts
      (Distinct-perm (Permᴰ.symm (sort-perm members)) d) e

-- The result depends on neither the order of the member ids nor that of the topics.
pub range_assign_order :
    (members members' topics topics' : List Bytes) (counts : Map Bytes ℤ)
    → Permᴰ members members'
    → Permᴰ topics topics'
    → range_assign members topics counts ≡ range_assign members' topics' counts
unfolding range_assign
range_assign_order members members' topics topics' counts p q =
    rw (sort-eq_of_perm p, sort-eq_of_perm q)
