-- ===== src/Assignment/Owners.antt =====
-- Every partition of a subscribed topic has exactly one owner among the members.
use mathlib.Core.List.{Memᴰ, append-nil}
use mathlib.Core.List.Permᴰ
use bunnymq.Prelude.{
  ℕ, zero, suc, ◌+◌, ◌/◌, ◌%◌, ◌^◌, ◌≤◌, ◌<◌, ◌≡◌, refl, sym, ap, subst, some, List, [], ◌∷◌, ℤ,
  pos, negsuc, IsI32, arith, length, get_elem?, All,
}
use bunnymq.Prelude.Keys.{Bytes, bytes-Eq, bytes-Ord}
use bunnymq.Prelude.Sort.{sort, sort-perm}
use bunnymq.Prelude.Distinct.{
  Distinct, Distinct-perm, Mem-perm, index_of, at_mem, at_exists, length-perm,
}
use bunnymq.Prelude.Maps.{Map, lookup}
use bunnymq.Metadata.Types.{TopicPartition}
use bunnymq.Assignment.{partition_count, range_assign}
use bunnymq.Assignment.Shares.{part_range, share_size, shares, range_assign-shares}
use bunnymq.Assignment.Ranges.{
  partition_of, assigned_to, start_end, find_share, shares-mem, share_fits, mem-shares, same_share,
  InShare, mem-InShare,
}

-- The counts are `int32` values.
abbrev pub CountsFit : Map Bytes ℤ → Type 0
CountsFit counts = All (λ e. IsI32 e.1) counts

partition_count-lt :
    (counts : Map Bytes ℤ) (t : Bytes) → CountsFit counts → partition_count counts t < 2 ^ 31
unfolding partition_count lookup
partition_count-lt [] t h = omega arith
partition_count-lt ((u, pos n) ∷ counts) t h = ground (arith, partition_count-lt counts t)
partition_count-lt ((u, negsuc n) ∷ counts) t h = ground (arith, partition_count-lt counts t)

module _ (members topics : List Bytes) (counts : Map Bytes ℤ) (distinct : Distinct members)
    (fit : CountsFit counts) where
  abbrev sorted : List Bytes
  sorted = sort members

  abbrev total : ℕ
  total = length sorted

  sorted-Distinct : Distinct sorted
  sorted-Distinct = Distinct-perm (Permᴰ.symm (sort-perm members)) distinct

  assigned_at :
      (i : ℕ) (m : Bytes)
      → get_elem? sorted i ≡ some m
      → assigned_to (range_assign members topics counts) m ≡ shares counts total i (sort topics)
  assigned_at i m e =
      rw (range_assign-shares members topics counts i m distinct e, assigned_to) refl

  position_of : {m : Bytes} → Memᴰ m members → (i : ℕ) × (i < total) × (get_elem? sorted i ≡ some m)
  position_of h = index_of (Mem-perm (Permᴰ.symm (sort-perm members)) h)

  -- With distinct members and counts that are `int32` values, what a member is assigned are
  -- partitions of the subscribed topics, within their counts.
  pub range_assign_sound :
      (m : Bytes) (q : TopicPartition)
      → Memᴰ m members
      → Memᴰ q (assigned_to (range_assign members topics counts) m)
      → (t : Bytes) × (p : ℕ) × Memᴰ t topics
        × (p < partition_count counts t)
        × (q ≡ partition_of t p)
  range_assign_sound m q hm hq =
      let (i, lt, e) = position_of hm in
      let (t, p, w, lo, hi, eq) =
        mem-shares counts total i (sort topics) lt (λ t. partition_count-lt counts t fit)
          (subst (Memᴰ q) (assigned_at i m e) hq) in
      (
        t,
        p,
        Mem-perm (sort-perm topics) w,
        omega (arith, share_fits (partition_count counts t) total i lt),
        eq,
      )

  -- With distinct members, one at least, and counts that are `int32` values, every partition of a
  -- subscribed topic is assigned to exactly one of the members.
  pub range_assign_owner :
      (t : Bytes) (p : ℕ)
      → 0 < length members
      → Memᴰ t topics
      → p < partition_count counts t
      → (owner : Bytes) × Memᴰ owner members
        × Memᴰ (partition_of t p) (assigned_to (range_assign members topics counts) owner)
        × ((m : Bytes)
            → Memᴰ m members
            → Memᴰ (partition_of t p) (assigned_to (range_assign members topics counts) m)
            → m ≡ owner)
  range_assign_owner t p some_member ht hp =
      let n = partition_count counts t in
      let any : 0 < total = omega (arith, length-perm (sort-perm members)) in
      let (i, lt, lo, hi) =
        find_share (n / total) (n % total) p total (omega (arith, start_end n total any)) in
      let (m, e) = at_exists sorted i lt in
      (
        m,
        Mem-perm (sort-perm members) (at_mem sorted i e),
        subst (Memᴰ (partition_of t p)) (sym (assigned_at i m e)) (
            shares-mem counts total i p (sort topics) (partition_count-lt counts t fit)
              (share_fits n total i lt) (Mem-perm (Permᴰ.symm (sort-perm topics)) ht) lo hi),
        λ m' hm' hp'. only i m e (lo, hi) m' hm' hp',
      )
    where
      only :
          (i : ℕ) (m : Bytes)
          → get_elem? sorted i ≡ some m
          → InShare counts total i t p
          → (m' : Bytes) → Memᴰ m' members
          → Memᴰ (partition_of t p) (assigned_to (range_assign members topics counts) m')
          → m' ≡ m
      only i m e (lo, hi) m' hm' hp' =
          let (j, lt, e') = position_of hm' in
          let (lo', hi') =
            mem-InShare counts total j (sort topics) t p lt (λ u. partition_count-lt counts u fit)
              (subst (Memᴰ (partition_of t p)) (assigned_at j m' e') hp') in
          let i=j : i ≡ j = same_share _ _ p i j lo hi lo' hi' in cc (ap (get_elem? sorted) i=j)

length-part_range : (t : Bytes) (s n : ℕ) → length (part_range t s n) ≡ n
unfolding part_range
length-part_range t s zero = refl
length-part_range t s (suc n) = ap suc (length-part_range t (s + 1) n)

length-assigned :
    (members : List Bytes) (t : Bytes) (counts : Map Bytes ℤ) (m : Bytes)
    → Distinct members
    → Memᴰ m members
    → (i : ℕ) × let n = partition_count counts t in
        let k = length (sort members) in
        length (assigned_to (range_assign members (t ∷ []) counts) m) ≡ share_size (n / k) (n % k) i
unfolding shares sort
length-assigned members t counts m d h =
    let (i, lt, e) = index_of (Mem-perm (Permᴰ.symm (sort-perm members)) h) in
    (
      i,
      rw (range_assign-shares members (t ∷ []) counts i m d e, assigned_to)
          (rw append-nil (length-part_range t _ _)),
    )

-- With distinct members and one subscribed topic, the shares of two members differ by one partition
-- at most.
pub range_assign_balanced :
    (members : List Bytes) (t : Bytes) (counts : Map Bytes ℤ) (m m' : Bytes)
    → Distinct members
    → Memᴰ m members
    → Memᴰ m' members
    → length (assigned_to (range_assign members (t ∷ []) counts) m)
      ≤ length (assigned_to (range_assign members (t ∷ []) counts) m') + 1
range_assign_balanced members t counts m m' d h h' =
    let (i, e) = length-assigned members t counts m d h in
    let (j, e') = length-assigned members t counts m' d h' in rw (e, e') (ground arith)
