-- ===== src/Cluster/Replicas.antt =====
-- The nodes that `assignReplicas` chooses.
use native.Mathlib.Nat.{mod-lt, mod-eq_of_lt, mod-eq-sub-mod, mod-add-mod}
use mathlib.Core.List.{Memᴰ}
use mathlib.Core.List.Permᴰ
use bunnymq.Prelude.{
  ℕ, zero, suc, ◌+◌, ◌-◌, ◌%◌, ◌≤◌, ◌<◌, ◌≡◌, ◌≢◌, ◌⊎◌, refl, sym, ap, ◌∙◌, some, List, [], ◌∷◌,
  length, get_elem?, All, map, arith, inl, inr,
}
use bunnymq.Prelude.Keys.{Bytes}
use bunnymq.Prelude.Sort.{sort_by, sort_by-perm}
use bunnymq.Prelude.Distinct.{
  Distinct, Distinct-perm, Distinct-index, All-map, Mem-perm, at_mem, at_exists, length-perm,
  map-perm,
}
use bunnymq.Metadata.Types.{NodeInfo}
use bunnymq.Metadata.Lookup.{by_node_id}
use bunnymq.Cluster.{replicas_from, assign_replicas, place_partitions, fnv32a}

abbrev pub ids : List NodeInfo → List ℕ
ids nodes = map (λ n. n.node_id) nodes

-- Two numbers less than `n` apart have different remainders.
mod_ne : (a d n : ℕ) → 0 < d → d < n → a % n ≢ (a + d) % n
mod_ne a d n positive small e = elim (lt_or_le (a % n + d) n) [
  | inl below ↦ omega (arith, e ∙ sym (mod-add-mod a n d) ∙ mod-eq_of_lt below)
  | inr above ↦ omega (
    arith,
    e ∙ sym (mod-add-mod a n d) ∙ mod-eq-sub-mod above,
    mod-eq_of_lt (below_twice (mod-lt a {m = n} (omega arith)) small above),
    mod-lt a {m = n} (omega arith),
  )
]
  where
    below_twice : {x : ℕ} → x < n → d < n → n ≤ x + d → x + d - n < n
    below_twice h k l = omega arith

    lt_or_le : (x y : ℕ) → (x < y) ⊎ (y ≤ x)
    lt_or_le x y = omega arith

get-map_id :
    (nodes : List NodeInfo) (i : ℕ) {n : NodeInfo}
    → get_elem? nodes i ≡ some n
    → get_elem? (ids nodes) i ≡ some n.node_id
get-map_id [] i e = cc
get-map_id (m ∷ ms) zero e = cc
get-map_id (m ∷ ms) (suc i) e = get-map_id ms i e

-- The id stands at one of the positions from `lo` to `hi`, counted from `from` around the list.
abbrev Between : List NodeInfo → ℕ → ℕ → ℕ → ℕ → Type 0
Between l from lo hi id =
    (j : ℕ) × (lo ≤ j) × (j < hi) × (get_elem? (ids l) ((from + j) % length l) ≡ some id)

module _ (l : List NodeInfo) (from : ℕ) (distinct : Distinct (ids l)) where
  Between-ne :
      (r hi : ℕ) {h : ℕ}
      → hi ≤ r + length l
      → get_elem? (ids l) ((from + r) % length l) ≡ some h
      → (y : ℕ) → Between l from (r + 1) hi y
      → h ≢ y
  Between-ne r hi {h} room at y (j, lo, below, there) same =
      mod_ne (from + r) (j - r) (length l) (omega arith) (omega arith) (
        Distinct-index (ids l) _ _ distinct at
          (ap (λ t. get_elem? (ids l) (t % length l)) (jump) ∙ there ∙ ap some (sym same)))
    where
      jump : from + r + (j - r) ≡ from + j
      jump = omega arith

  widen : (r k : ℕ) (y : ℕ) → Between l from (r + 1) (r + 1 + k) y → Between l from r (r + suc k) y
  widen r k y (j, lo, below, there) = (j, omega arith, omega arith, there)

  replicas_from-Between :
      (r rounds : ℕ)
      → 1 ≤ length l
      → r + rounds ≤ length l
      → (chosen : List ℕ) × (replicas_from l from r rounds ≡ some chosen)
        × (length chosen ≡ rounds)
        × All (Between l from r (r + rounds)) chosen
        × Distinct chosen
  unfolding replicas_from
  replicas_from-Between r zero some_node room = ([], refl, refl, tt, tt)
  replicas_from-Between r (suc k) some_node room =
      let (node, found) = at_exists l ((from + r) % length l) (mod-lt (from + r) some_node) in
      let (rest, done, size, between, different) =
        replicas_from-Between (r + 1) k some_node (omega arith) in
      let here = get-map_id l ((from + r) % length l) found in
      (
        node.node_id ∷ rest,
        rw (found, done) refl,
        ap suc size,
        ((r, omega arith, omega arith, here), All-map _ _ rest (widen r k) between),
        (All-map _ _ rest (Between-ne r (r + 1 + k) (omega arith) here) between, different),
      )

-- As many ids as the factor says, all different, and all of nodes of the cluster.
abbrev pub IsPlacement : List NodeInfo → ℕ → List ℕ → Type 0
IsPlacement nodes rf chosen =
    (length chosen ≡ rf) × Distinct chosen × All (λ id. Memᴰ id (ids nodes)) chosen

module _ (nodes : List NodeInfo) (topic : Bytes) (distinct : Distinct (ids nodes)) where
  abbrev sorted : List NodeInfo
  sorted = sort_by by_node_id nodes

  sorted-length : length sorted ≡ length nodes
  sorted-length = length-perm (sort_by-perm by_node_id nodes)

  Between-Mem : (from lo hi id : ℕ) → Between sorted from lo hi id → Memᴰ id (ids nodes)
  Between-Mem from lo hi id (j, low, high, there) =
      Mem-perm (map-perm (λ n. n.node_id) (sort_by-perm by_node_id nodes))
        (at_mem (ids sorted) _ there)

  assign_replicas-IsPlacement :
      (p rf : ℕ)
      → 1 ≤ length nodes
      → rf ≤ length nodes
      → (chosen : List ℕ) × (assign_replicas nodes topic p rf ≡ some chosen)
        × IsPlacement nodes rf chosen
  unfolding assign_replicas
  assign_replicas-IsPlacement p rf some_node enough =
      let from = fnv32a topic % length sorted + p in
      let (chosen, done, size, between, different) =
        replicas_from-Between sorted from
          (Distinct-perm (map-perm (λ n. n.node_id) (Permᴰ.symm (sort_by-perm by_node_id nodes)))
            distinct)
          0 rf (omega (arith, sorted-length)) (omega (arith, sorted-length)) in
      (
        chosen,
        ground (arith, done, sorted-length),
        (size, different, All-map _ _ chosen (Between-Mem from 0 (0 + rf)) between),
      )

  -- With different node ids, and a factor from 1 to the number of nodes, each partition from `p` on
  -- is placed without a panic, on as many different nodes of the cluster as the factor says.
  pub place_partitions-IsPlacement :
      (rf p rounds : ℕ)
      → 1 ≤ rf
      → rf ≤ length nodes
      → (placed : List (List ℕ)) × (place_partitions nodes topic rf p rounds ≡ some placed)
        × (length placed ≡ rounds)
        × All (IsPlacement nodes rf) placed
  unfolding place_partitions
  place_partitions-IsPlacement rf p zero positive enough = ([], refl, refl, tt)
  place_partitions-IsPlacement rf p (suc k) positive enough =
      let (chosen, found, placement) = assign_replicas-IsPlacement p rf (omega arith) enough in
      let (rest, done, size, placements) =
        place_partitions-IsPlacement rf (p + 1) k positive enough in
      (chosen ∷ rest, rw (found, done) refl, ap suc size, (placement, placements))
