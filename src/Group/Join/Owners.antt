-- ===== src/Group/Join/Owners.antt =====
-- After a join, every partition of the group's topics has one owner.
use mathlib.Core.List.{Memᴰ}
use bunnymq.Prelude.{
  ℕ, ◌<◌, ℤ, pos, none, some, List, [], ◌∷◌, ◌≡◌, ◌≢◌, refl, sym, subst, ap, ◌∙◌, arith, All, inl,
  inr, IsI32, true, Bool-cases, Option-cases,
}
use bunnymq.Prelude.Keys.{Bytes, bytes_eq, bytes_eq_iff, bytes-Eq}
use bunnymq.Prelude.Maps.{Map, lookup, insert, delete, keys, lookup-insert, lookup-insert_self}
use bunnymq.Prelude.Distinct.{Distinct}
use bunnymq.Metadata.Types.{TopicPartition, MetadataState, TopicMeta, GroupState, MemberState}
use bunnymq.Metadata.WellFormed.{WellFormed}
use bunnymq.Assignment.{partition_count}
use bunnymq.Assignment.Ranges.{partition_of, assigned_to}
use bunnymq.Assignment.Owners.{CountsFit, range_assign_owner}
use bunnymq.Group.World.{Heartbeats, Reply, ok, err, GroupError}
use bunnymq.Group.Quiet.{quiet}
use bunnymq.Group.Join.{
  GroupCoordinatorConfig, JoinGroupRequest, JoinGroupResponse, other_ids, join_group,
}
use bunnymq.Group.Join.Effects.{find_counts, old_group, joined_group, the_id, join_group_cases}

other_ids-delete : (id : Bytes) (m : Map Bytes MemberState) → other_ids id m ≡ keys (delete id m)
unfolding other_ids delete keys
other_ids-delete id [] = refl
other_ids-delete id ((j, ms) ∷ m) = elim (Bool-cases (bytes_eq j id)) [
  | inl p ↦ rw p (other_ids-delete id m)
  | inr p ↦ rw p (ap (λ l. j ∷ l) (other_ids-delete id m))
]

module _ {A : Type 0} where
  All-keys-delete :
      (P : Bytes → Type 0) (id : Bytes) (m : Map Bytes A)
      → All P (keys m)
      → All P (keys (delete id m))
  unfolding delete keys
  All-keys-delete P id [] h = tt
  All-keys-delete P id ((j, a) ∷ m) h = elim (Bool-cases (bytes_eq j id)) [
    | inl p ↦ rw p (All-keys-delete P id m h.1)
    | inr p ↦ rw p (h.0, All-keys-delete P id m h.1)
  ]

  deleted-apart : (id : Bytes) (m : Map Bytes A) → All (λ j. id ≢ j) (keys (delete id m))
  unfolding delete keys
  deleted-apart id [] = tt
  deleted-apart id ((j, a) ∷ m) = elim (Bool-cases (bytes_eq j id)) [
    | inl p ↦ rw p (deleted-apart id m)
    | inr p ↦ rw p ((λ q. ground (arith, bytes_eq_iff j id)), deleted-apart id m)
  ]

  Distinct-keys-delete :
      (id : Bytes) (m : Map Bytes A) → Distinct (keys m) → Distinct (keys (delete id m))
  unfolding delete keys
  Distinct-keys-delete id [] h = tt
  Distinct-keys-delete id ((j, a) ∷ m) h = elim (Bool-cases (bytes_eq j id)) [
    | inl p ↦ rw p (Distinct-keys-delete id m h.1)
    | inr p ↦ rw p (All-keys-delete (λ k. j ≢ k) id m h.0, Distinct-keys-delete id m h.1)
  ]

joined_keys :
    (id : Bytes) (ms : MemberState) (m : Map Bytes MemberState)
    → keys (insert id ms m) ≡ id ∷ other_ids id m
unfolding insert keys
joined_keys id ms m = ap (λ l. id ∷ l) (sym (other_ids-delete id m))

joined-Distinct :
    (id : Bytes) (m : Map Bytes MemberState) → Distinct (keys m) → Distinct (id ∷ other_ids id m)
joined-Distinct id m d =
    subst (λ l. Distinct (id ∷ l)) (sym (other_ids-delete id m))
      (deleted-apart id m, Distinct-keys-delete id m d)

count-partition_count :
    (counts : Map Bytes ℤ) (t : Bytes) (z : ℤ) (n : ℕ)
    → lookup t counts ≡ some z
    → z ≡ pos n
    → partition_count counts t ≡ n
unfolding partition_count
count-partition_count counts t z n h e = rw (partition_count, h, e) refl

module _ (s : MetadataState) where
  found_counts :
      (x : Bytes) (xs : List Bytes) (counts counts' : Map Bytes ℤ)
      → find_counts s (x ∷ xs) counts ≡ some counts'
      → (tm : TopicMeta) × (lookup x s.topics ≡ some tm)
        × (find_counts s xs (insert x tm.partition_count counts) ≡ some counts')
  unfolding find_counts
  found_counts x xs counts counts' h = elim (Option-cases (lookup x s.topics)) [
    | inl q ↦ absurd (nothing (sym (rw (find_counts, q) refl) ∙ h))
    | inr (tm, q) ↦ (tm, q, sym (rw (find_counts, q) refl) ∙ h)
  ]
    where
      nothing : none ≡ some counts' → ⊥
      nothing p = cc

  module _ (t : Bytes) (tm : TopicMeta) (there : lookup t s.topics ≡ some tm) where
    inserted :
        (x : Bytes) (n : ℤ) (counts : Map Bytes ℤ)
        → (bytes_eq x t ≡ true → n ≡ tm.partition_count)
        → lookup t counts ≡ some tm.partition_count
        → lookup t (insert x n counts) ≡ some tm.partition_count
    inserted x n counts h k = elim (Bool-cases (bytes_eq x t)) [
      | inl p ↦ lookup-insert x t n counts ∙ rw (p, h p) refl
      | inr p ↦ lookup-insert x t n counts ∙ rw p k
    ]

    same_count :
        {x : Bytes} {m : TopicMeta}
        → lookup x s.topics ≡ some m
        → x ≡ t
        → m.partition_count ≡ tm.partition_count
    same_count {x} {m} q e = count_of (sym q ∙ ap (λ k. lookup k s.topics) e ∙ there)
      where
        count_of : some m ≡ some tm → m.partition_count ≡ tm.partition_count
        count_of p = cc

    find_counts_keeps :
        (ts : List Bytes) (counts counts' : Map Bytes ℤ)
        → find_counts s ts counts ≡ some counts'
        → lookup t counts ≡ some tm.partition_count
        → lookup t counts' ≡ some tm.partition_count
    unfolding find_counts
    find_counts_keeps [] counts counts' h k =
        subst (λ c. lookup t c ≡ some tm.partition_count) (same h) k
      where
        same : some counts ≡ some counts' → counts ≡ counts'
        same p = cc
    find_counts_keeps (x ∷ xs) counts counts' h k =
        let (m, q, rest) = found_counts x xs counts counts' h in
        find_counts_keeps xs _ counts' rest
          (inserted x m.partition_count counts (λ p. same_count q ((bytes_eq_iff x t).0 p)) k)

    find_counts-at :
        {ts : List Bytes} (counts counts' : Map Bytes ℤ)
        → find_counts s ts counts ≡ some counts'
        → Memᴰ t ts
        → lookup t counts' ≡ some tm.partition_count
    find_counts-at counts counts' h (Memᴰ.head {x = x} {xs = xs} e) =
        let (m, q, rest) = found_counts x xs counts counts' h in
        find_counts_keeps xs _ counts' rest (
          lookup-insert x t m.partition_count counts
          ∙ rw ((bytes_eq_iff x t).1 (sym e), same_count q (sym e)) refl)
    find_counts-at counts counts' h (Memᴰ.tail {x = x} {xs = xs} k) =
        let (m, q, rest) = found_counts x xs counts counts' h in find_counts-at _ counts' rest k

  module _ (wf : WellFormed s) where
    delete-CountsFit : (x : Bytes) (m : Map Bytes ℤ) → CountsFit m → CountsFit (delete x m)
    unfolding delete
    delete-CountsFit x [] h = tt
    delete-CountsFit x ((j, n) ∷ m) h = elim (Bool-cases (bytes_eq j x)) [
      | inl p ↦ rw p (delete-CountsFit x m h.1)
      | inr p ↦ rw p (h.0, delete-CountsFit x m h.1)
    ]

    insert-CountsFit :
        (x : Bytes) (n : ℤ) (m : Map Bytes ℤ) → IsI32 n → CountsFit m → CountsFit (insert x n m)
    unfolding insert
    insert-CountsFit x n m h k = (h, delete-CountsFit x m k)

    count-IsI32 : (x : Bytes) (m : TopicMeta) → lookup x s.topics ≡ some m → IsI32 m.partition_count
    count-IsI32 x m q =
        let (n, e, lo, hi) = wf.counts x m q in subst IsI32 (sym e) (omega arith, omega arith)

    find_counts-CountsFit :
        (ts : List Bytes) (counts counts' : Map Bytes ℤ)
        → find_counts s ts counts ≡ some counts'
        → CountsFit counts
        → CountsFit counts'
    unfolding find_counts
    find_counts-CountsFit [] counts counts' h k = subst CountsFit (same h) k
      where
        same : some counts ≡ some counts' → counts ≡ counts'
        same p = cc
    find_counts-CountsFit (x ∷ xs) counts counts' h k =
        let (m, q, rest) = found_counts x xs counts counts' h in
        find_counts-CountsFit xs _ counts' rest
          (insert-CountsFit x m.partition_count counts (count-IsI32 x m q) k)

-- On a quiet world with well formed metadata and a group whose members are distinct, after a join
-- that succeeded the group exists, and every partition of a topic of the request is assigned to
-- exactly one of the group's members.
pub join_group_owners :
    (config : GroupCoordinatorConfig) (fresh : Bytes) (started heard : ℤ) (s : MetadataState)
    (hb : Heartbeats) (req : JoinGroupRequest) (response : JoinGroupResponse) (t : Bytes)
    (tm : TopicMeta) (n p : ℕ)
    → WellFormed s
    → Distinct (keys (old_group config fresh started heard s hb req).members)
    → (join_group config fresh started heard req (quiet s hb)).0 ≡ ok response
    → Memᴰ t req.topics
    → lookup t s.topics ≡ some tm
    → tm.partition_count ≡ pos n
    → p < n
    → (group : GroupState) × (lookup req.group_id
          (join_group config fresh started heard req (quiet s hb)).1.metadata.group_states
        ≡ some group)
      × ((owner : Bytes) × Memᴰ owner (keys group.members)
          × Memᴰ (partition_of t p) (assigned_to group.assignments owner)
          × ((m : Bytes)
              → Memᴰ m (keys group.members)
              → Memᴰ (partition_of t p) (assigned_to group.assignments m)
              → m ≡ owner))
join_group_owners config fresh started heard s hb req response t tm n p wf distinct success mem
      there size lt =
    elim (join_group_cases config fresh started heard s hb req) [
      | inl (x, refused) ↦ absurd (clash _ success (ap (λ r. r.0) refused))
      | inr (counts, ranged, found, matches, accepted) ↦
          let group = joined_group config fresh started heard s hb req counts in
          let id = the_id config fresh started heard s hb req in
          let others = other_ids id (old_group config fresh started heard s hb req).members in
          (
            group,
            rw accepted (lookup-insert_self req.group_id group s.group_states),
            subst (Owned group.assignments) (sym (member_keys counts)) (
                range_assign_owner (id ∷ others) req.topics counts ids-Distinct
                  (find_counts-CountsFit s wf req.topics [] counts found tt) t p (omega arith) mem
                  (within counts (find_counts-at s t tm there [] counts found mem))),
          )
    ]
  where
    clash : {x : GroupError} (r : Reply JoinGroupResponse) → r ≡ ok response → r ≡ err x → ⊥
    clash r q k = cc

    Owned : Map Bytes (List TopicPartition) → List Bytes → Type 0
    Owned a ids =
        (owner : Bytes) × Memᴰ owner ids
        × Memᴰ (partition_of t p) (assigned_to a owner)
        × ((m : Bytes) → Memᴰ m ids → Memᴰ (partition_of t p) (assigned_to a m) → m ≡ owner)

    member_keys :
        (counts : Map Bytes ℤ)
        → keys (joined_group config fresh started heard s hb req counts).members
          ≡ the_id config fresh started heard s hb req
            ∷ other_ids
                (the_id config fresh started heard s hb req)
                (old_group config fresh started heard s hb req).members
    member_keys counts = joined_keys _ _ _

    ids-Distinct : Distinct (
        the_id config fresh started heard s hb req
        ∷ other_ids
            (the_id config fresh started heard s hb req)
            (old_group config fresh started heard s hb req).members)
    ids-Distinct = joined-Distinct _ _ distinct

    within :
        (counts : Map Bytes ℤ)
        → lookup t counts ≡ some tm.partition_count
        → p < partition_count counts t
    within counts q = omega (arith, count-partition_count counts t tm.partition_count n q size)
