-- ===== src/Metadata/Topics/Ranges.antt =====
-- The partition map after the loops that add and delete a topic's partitions.
use native.Mathlib.Decide.{dec_le, dec_lt}
use bunnymq.Prelude.{
  ℕ, zero, suc, ◌+◌, ◌^◌, ◌≤◌, ◌<◌, ◌≡◌, ◌≢◌, ◌⊎◌, inl, inr, refl, sym, ap, ◌∙◌, none, some, List,
  [], get_or, arith, ℤ, pos, negsuc, ◌+ℤ◌, +ℤ_pos, wrap_i32, wrap_i32_pos, Bool-cases, true, false,
}
use bunnymq.Prelude.Keys.{Bytes, bytes_eq, bytes_eq_iff}
use bunnymq.Prelude.Maps.{
  Map, lookup, lookup-delete, lookup-insert_self, lookup-insert_ne, lookup-delete_self,
  lookup-delete_ne,
}
use bunnymq.Metadata.Types.{PartitionKey, key-Eq, PartitionMeta}
use bunnymq.Metadata.Topics.{
  partition_key, new_partition, add_u64, add_partitions, delete_partitions,
}

-- The keys of partitions lo, …, hi - 1 of a topic, or any other key.
pub data Place (t : Bytes) (lo hi : ℕ) (k : PartitionKey) : Type 0 where
  inside : (j : ℕ) → lo ≤ j → j < hi → k ≡ partition_key t (pos j) → Place t lo hi k
  outside : ((j : ℕ) → lo ≤ j → j < hi → k ≢ partition_key t (pos j)) → Place t lo hi k

id_path : (k : PartitionKey) (t : Bytes) (z : ℤ) → k ≡ partition_key t z → k.partition_id ≡ z
id_path k t z p = ap (λ (q : PartitionKey). q.partition_id) p

topic_path : (k : PartitionKey) (t : Bytes) (z : ℤ) → k ≡ partition_key t z → k.topic ≡ t
topic_path k t z p = ap (λ (q : PartitionKey). q.topic) p

key_at :
    (k : PartitionKey) (t : Bytes) (z : ℤ)
    → k.topic ≡ t
    → k.partition_id ≡ z
    → k ≡ partition_key t z
key_at k t z p q = λ i. record { topic = p i; partition_id = q i }

pos_path : (x y : ℕ) → pos x ≡ pos y → x ≡ y
pos_path x y e = cc

Place-at :
    (t : Bytes) (lo hi n : ℕ) (k : PartitionKey) → k ≡ partition_key t (pos n) → Place t lo hi k
Place-at t lo hi n k p = elim (dec_le lo n) [
  | no below ↦ outside λ j a b q. below (rw (same n j q) a)
  | yes above ↦ elim (dec_lt n hi) [
    | yes h ↦ inside n above h p
    | no past ↦ outside λ j a b q. past (rw (same n j q) b)
  ]
]
  where
    same : (x y : ℕ) → k ≡ partition_key t (pos y) → n ≡ y
    same x y q = pos_path n y (sym (id_path k t (pos n) p) ∙ id_path k t (pos y) q)

-- Every key is inside the range or outside it.
pub place : (t : Bytes) (lo hi : ℕ) (k : PartitionKey) → Place t lo hi k
place t lo hi k = by_topic (Bool-cases (bytes_eq k.topic t)) k.partition_id refl
  where
    by_topic :
        (bytes_eq k.topic t ≡ true) ⊎ (bytes_eq k.topic t ≡ false)
        → (z : ℤ) → k.partition_id ≡ z
        → Place t lo hi k
    by_topic (inr e) z q =
        outside λ j a b p. ground (arith, topic_path k t (pos j) p, bytes_eq_iff k.topic t)
    by_topic (inl e) (negsuc n) q = outside λ j a b p. cc (id_path k t (pos j) p)
    by_topic (inl e) (pos n) q =
        Place-at t lo hi n k (key_at k t (pos n) ((bytes_eq_iff k.topic t).0 e) q)

module _ (t : Bytes) (f next : ℕ) (replicas : List (List ℕ)) where
  loop_id : (i : ℕ) → f + i < 2 ^ 31 → wrap_i32 (pos f +ℤ pos i) ≡ pos (f + i)
  loop_id i h = ap wrap_i32 (+ℤ_pos f i) ∙ wrap_i32_pos (f + i) h

  -- A key that the loop does not write keeps its partition.
  pub lookup-add_partitions_outside :
      (k : PartitionKey) (rounds i : ℕ) (ps : Map PartitionKey PartitionMeta)
      → f + i + rounds ≤ 2 ^ 31
      → ((j : ℕ) → f + i ≤ j → j < f + i + rounds → k ≢ partition_key t (pos j))
      → lookup k (add_partitions t (pos f) next replicas i rounds ps) ≡ lookup k ps
  unfolding add_partitions
  lookup-add_partitions_outside k zero i ps fits h = refl
  lookup-add_partitions_outside k (suc rounds) i ps fits h =
      lookup-add_partitions_outside k rounds (i + 1) _ (omega arith)
        (λ j a b. h j (omega arith) (omega arith))
      ∙ lookup-insert_ne _ k _ ps (λ e.
        h (f + i) (omega arith) (omega arith)
          (sym e ∙ ap (partition_key t) (loop_id i (omega arith))))

  -- What the loop writes for its j-th partition.
  abbrev pub added : ℕ → PartitionMeta
  added j = new_partition t (pos (f + j)) (add_u64 next j) (get_or replicas j [])

  pub lookup-add_partitions_inside :
      (j rounds i : ℕ) (ps : Map PartitionKey PartitionMeta)
      → f + i + rounds ≤ 2 ^ 31
      → i ≤ j
      → j < i + rounds
      → lookup (partition_key t (pos (f + j))) (add_partitions t (pos f) next replicas i rounds ps)
        ≡ some (added j)
  unfolding add_partitions
  lookup-add_partitions_inside j zero i ps fits lo hi = absurd (omega arith)
  lookup-add_partitions_inside j (suc rounds) i ps fits lo hi = elim (dec_lt i j) [
    | yes later ↦
        lookup-add_partitions_inside j rounds (i + 1) _ (omega arith) (omega arith) (omega arith)
    | no now ↦
        let i=j : i ≡ j = omega arith in
        lookup-add_partitions_outside _ rounds (i + 1) _ (omega arith)
          (λ l a b p. absurd (omega (arith, pos_path (f + j) l (id_path _ t (pos l) p))))
        ∙ rw (loop_id i (omega arith))
            (rw i=j (lookup-insert_self (partition_key t (pos (f + j))) _ ps))
  ]

-- A deleted partition is gone, and no other is touched.
module _ (t : Bytes) where
  pub lookup-delete_partitions_outside :
      (k : PartitionKey) (rounds i : ℕ) (ps : Map PartitionKey PartitionMeta)
      → ((j : ℕ) → i ≤ j → j < i + rounds → k ≢ partition_key t (pos j))
      → lookup k (delete_partitions t i rounds ps) ≡ lookup k ps
  unfolding delete_partitions
  lookup-delete_partitions_outside k zero i ps h = refl
  lookup-delete_partitions_outside k (suc rounds) i ps h =
      lookup-delete_partitions_outside k rounds (i + 1) _ (λ j a b. h j (omega arith) (omega arith))
      ∙ lookup-delete_ne _ k ps (λ e. h i (omega arith) (omega arith) (sym e))

  delete_partitions_gone :
      (k : PartitionKey) (rounds i : ℕ) (ps : Map PartitionKey PartitionMeta)
      → lookup k ps ≡ none
      → lookup k (delete_partitions t i rounds ps) ≡ none
  unfolding delete_partitions
  delete_partitions_gone k zero i ps h = h
  delete_partitions_gone k (suc rounds) i ps h =
      delete_partitions_gone k rounds (i + 1) _
        (ground (arith, lookup-delete (partition_key t (pos i)) k ps))

  pub lookup-delete_partitions_inside :
      (j rounds i : ℕ) (ps : Map PartitionKey PartitionMeta)
      → i ≤ j
      → j < i + rounds
      → lookup (partition_key t (pos j)) (delete_partitions t i rounds ps) ≡ none
  unfolding delete_partitions
  lookup-delete_partitions_inside j zero i ps lo hi = absurd (omega arith)
  lookup-delete_partitions_inside j (suc rounds) i ps lo hi = elim (dec_lt i j) [
    | yes later ↦ lookup-delete_partitions_inside j rounds (i + 1) _ (omega arith) (omega arith)
    | no now ↦
        let i=j : i ≡ j = omega arith in
        delete_partitions_gone _ rounds (i + 1) _
          (rw i=j (lookup-delete_self (partition_key t (pos j)) ps))
  ]
