-- ===== src/Assignment/Ranges.antt =====
-- The shares of a topic as ranges of partition numbers: they cover the topic and do not overlap.
use mathlib.Core.List.{Memᴰ}
use native.Mathlib.Nat.{div-add-mod}
use bunnymq.Prelude.{
  ℕ, zero, suc, ◌+◌, ◌/◌, ◌%◌, ◌^◌, ◌≤◌, ◌<◌, ◌≡◌, ◌⊎◌, refl, ◌∙◌, none, some, List, [], ◌∷◌, ℤ,
  pos, wrap_i32_pos, arith, inl, inr,
}
use bunnymq.Prelude.Keys.{Bytes, bytes-Eq, bytes-Ord}
use bunnymq.Prelude.Distinct.{Mem-append, Mem-append_left, Mem-append_right}
use bunnymq.Prelude.Maps.{Map, lookup}
use bunnymq.Metadata.Types.{TopicPartition, Assignment}
use bunnymq.Assignment.{partition_count}
use bunnymq.Assignment.Shares.{part_range, share_size, share_start, shares, next_start}

abbrev pub partition_of : Bytes → ℕ → TopicPartition
partition_of t p = record { topic = t; partition_id = pos p }

-- What a member is assigned; nothing, if the map does not name it.
abbrev pub assigned_to : Assignment → Bytes → List TopicPartition
assigned_to a m = elim (lookup m a) [ none ↦ [] | some l ↦ l ]

pub part_range-mem :
    (t : Bytes) (s n p : ℕ)
    → s + n ≤ 2 ^ 31
    → s ≤ p
    → p < s + n
    → Memᴰ (partition_of t p) (part_range t s n)
unfolding part_range
part_range-mem t s zero p fits lo hi = absurd (omega arith)
part_range-mem t s (suc n) p fits lo hi = elim (le_cases s p lo) [
  | inl e ↦ Memᴰ.head (rw (wrap_i32_pos s (omega arith)) (ground arith))
  | inr h ↦ Memᴰ.tail (part_range-mem t (s + 1) n p (omega arith) h (omega arith))
]
  where
    le_cases : (a b : ℕ) → a ≤ b → (b ≡ a) ⊎ (a + 1 ≤ b)
    le_cases a b h = omega arith

pub mem-part_range :
    (t : Bytes) (s n : ℕ) {q : TopicPartition}
    → s + n ≤ 2 ^ 31
    → Memᴰ q (part_range t s n)
    → (p : ℕ) × (s ≤ p) × (p < s + n) × (q ≡ partition_of t p)
unfolding part_range
mem-part_range t s zero fits h = elim h [ ]
mem-part_range t s (suc n) fits (Memᴰ.head e) =
    (s, omega arith, omega arith, e ∙ rw (wrap_i32_pos s (omega arith)))
mem-part_range t s (suc n) fits (Memᴰ.tail h) =
    let (p, lo, hi, e) = mem-part_range t (s + 1) n (omega arith) h in
    (p, omega arith, omega arith, e)

-- The ranges of the k members are consecutive and end at n.
pub start_mono : (b r i j : ℕ) → i ≤ j → share_start b r i ≤ share_start b r j
start_mono b r i j h = grind arith

pub start_end : (n k : ℕ) → 0 < k → share_start (n / k) (n % k) k ≡ n
start_end n k h = grind (arith, div-add-mod n k)

pub find_share :
    (b r p k : ℕ)
    → p < share_start b r k
    → (i : ℕ) × (i < k) × (share_start b r i ≤ p) × (p < share_start b r i + share_size b r i)
find_share b r p zero h = absurd (omega arith)
find_share b r p (suc k) h = elim (lt_cases p (share_start b r k)) [
  | inl earlier ↦ let (i, h, lo, hi) = find_share b r p k earlier in (i, omega arith, lo, hi)
  | inr last ↦ (k, omega arith, last, omega (arith, next_start b r k))
]
  where
    lt_cases : (a c : ℕ) → (a < c) ⊎ (c ≤ a)
    lt_cases a c = omega arith

pub shares-mem :
    (counts : Map Bytes ℤ) (k i p : ℕ) (ts : List Bytes) {t : Bytes}
    → let n = partition_count counts t in
      n < 2 ^ 31
      → share_start (n / k) (n % k) i + share_size (n / k) (n % k) i ≤ n
      → Memᴰ t ts
      → share_start (n / k) (n % k) i ≤ p
      → p < share_start (n / k) (n % k) i + share_size (n / k) (n % k) i
      → Memᴰ (partition_of t p) (shares counts k i ts)
unfolding shares
shares-mem counts k i p [] {t} small fits m lo hi = elim m [ ]
shares-mem counts k i p (u ∷ us) {t} small fits (Memᴰ.head e) lo hi =
    rw (← e) (Mem-append_left _ (part_range-mem t _ _ p (omega arith) lo hi))
shares-mem counts k i p (u ∷ us) {t} small fits (Memᴰ.tail h) lo hi =
    Mem-append_right _ (shares-mem counts k i p us small fits h lo hi)

-- The shares fit below the number of partitions.
pub share_fits :
    (n k i : ℕ) → i < k → share_start (n / k) (n % k) i + share_size (n / k) (n % k) i ≤ n
share_fits n k i h = omega (
  arith,
  start_end n k (omega arith),
  start_mono (n / k) (n % k) (i + 1) k (omega arith),
  next_start (n / k) (n % k) i,
)

pub mem-shares :
    (counts : Map Bytes ℤ) (k i : ℕ) (ts : List Bytes) {q : TopicPartition}
    → i < k
    → ((t : Bytes) → partition_count counts t < 2 ^ 31)
    → Memᴰ q (shares counts k i ts)
    → (t : Bytes) × (p : ℕ) × Memᴰ t ts
      × (share_start (partition_count counts t / k) (partition_count counts t % k) i ≤ p)
      × (p
          < share_start (partition_count counts t / k) (partition_count counts t % k) i
            + share_size (partition_count counts t / k) (partition_count counts t % k) i)
      × (q ≡ partition_of t p)
unfolding shares
mem-shares counts k i [] h small m = elim m [ ]
mem-shares counts k i (u ∷ us) h small m =
    let n = partition_count counts u in
    elim (Mem-append (part_range u (share_start (n / k) (n % k) i) (share_size (n / k) (n % k) i))
      m) [
        | inl here ↦
            let (p, lo, hi, e) =
              mem-part_range u _ _ (omega (arith, share_fits n k i h, small u)) here in
            (u, p, Memᴰ.head refl, lo, hi, e)
        | inr there ↦
            let (t, p, w, lo, hi, e) = mem-shares counts k i us h small there in
            (t, p, Memᴰ.tail w, lo, hi, e)
      ]

pub shares_apart :
    (b r p i j : ℕ)
    → share_start b r i ≤ p
    → p < share_start b r i + share_size b r i
    → share_start b r j ≤ p
    → p < share_start b r j + share_size b r j
    → ¬ (i < j)
shares_apart b r p i j lo hi lo' hi' h =
    omega (arith, start_mono b r (i + 1) j (omega arith), next_start b r i)

pub same_share :
    (b r p i j : ℕ)
    → share_start b r i ≤ p
    → p < share_start b r i + share_size b r i
    → share_start b r j ≤ p
    → p < share_start b r j + share_size b r j
    → i ≡ j
same_share b r p i j lo hi lo' hi' =
    omega (arith, shares_apart b r p i j lo hi lo' hi', shares_apart b r p j i lo' hi' lo hi)

pub partition_of-injective :
    (t u : Bytes) (p q : ℕ) → partition_of t p ≡ partition_of u q → (t ≡ u) × (p ≡ q)
partition_of-injective t u p q e = ground arith

-- Partition p of topic t lies in the share of the i-th of k members.
abbrev pub InShare : Map Bytes ℤ → ℕ → ℕ → Bytes → ℕ → Type 0
InShare counts k i t p =
    let n = partition_count counts t in
    (share_start (n / k) (n % k) i ≤ p)
    × (p < share_start (n / k) (n % k) i + share_size (n / k) (n % k) i)

pub mem-InShare :
    (counts : Map Bytes ℤ) (k i : ℕ) (ts : List Bytes) (t : Bytes) (p : ℕ)
    → i < k
    → ((u : Bytes) → partition_count counts u < 2 ^ 31)
    → Memᴰ (partition_of t p) (shares counts k i ts)
    → InShare counts k i t p
mem-InShare counts k i ts t p h small m =
    let (t', p', w, lo, hi, eq) = mem-shares counts k i ts h small m in
    let (same_t, same_p) = partition_of-injective t t' p p' eq in rw (same_t, same_p) (lo, hi)
