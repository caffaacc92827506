-- ===== src/Metadata/WellFormed/Extend.antt =====
-- A topic that gains partitions, by its creation or by a larger count, keeps the invariant.
use native.Mathlib.Decide.{dec_lt}
use native.Mathlib.Nat.{mod-eq_of_lt}
use bunnymq.Prelude.{
  ℕ, ◌+◌, ◌-◌, ◌^◌, ◌≤◌, ◌<◌, ◌≡◌, ◌≢◌, ◌⊎◌, inl, inr, refl, sym, ap, ◌∙◌, subst, none, some, List,
  get_or, arith, pos, Bool-cases, Option-cases, [],
}
use bunnymq.Prelude.Keys.{Bytes, bytes_eq, bytes_eq_iff, bytes-Eq}
use bunnymq.Prelude.Maps.{Map, lookup}
use bunnymq.Metadata.Types.{PartitionKey, key-Eq, TopicMeta, PartitionMeta, MetadataState}
use bunnymq.Metadata.Topics.{partition_key, new_partition, add_u64, add_partitions}
use bunnymq.Metadata.Topics.Ranges.{
  inside, outside, place, lookup-add_partitions_inside, lookup-add_partitions_outside,
}
use bunnymq.Metadata.WellFormed.{WellFormed, Belongs}

some_injective {ℓ} : {A : Type ℓ} {a b : A} → some a ≡ some b → a ≡ b
some_injective p = cc

module _ (s : MetadataState) (wf : WellFormed s) (t : Bytes) (f r : ℕ) (replicas : List (List ℕ))
    (meta : TopicMeta) (topics : Map Bytes TopicMeta) (fits : f + r < 2 ^ 31) (grows : 0 < r)
    (room : s.next_shard_id + r < 2 ^ 64) (named : meta.name ≡ t)
    (count : meta.partition_count ≡ pos (f + r)) (here : lookup t topics ≡ some meta)
    (elsewhere : (u : Bytes) → u ≢ t → lookup u topics ≡ lookup u s.topics)
    (before : (m : TopicMeta) → lookup t s.topics ≡ some m → m.partition_count ≡ pos f)
    (fresh : lookup t s.topics ≡ none → f ≡ 0) where
  abbrev pub extended : MetadataState
  extended = record s {
    topics = topics;
    partitions = add_partitions t (pos f) s.next_shard_id replicas 0 r s.partitions;
    next_shard_id = add_u64 s.next_shard_id r;
  }

  abbrev added_at : ℕ → PartitionMeta
  added_at j = new_partition t (pos j) (s.next_shard_id + (j - f)) (get_or replicas (j - f) [])

  -- A partition of the new state was added, or was there before.
  abbrev Added : PartitionKey → PartitionMeta → Type 0
  Added k p = (j : ℕ) × (f ≤ j) × (j < f + r) × (k ≡ partition_key t (pos j)) × (p ≡ added_at j)

  next_shard : add_u64 s.next_shard_id r ≡ s.next_shard_id + r
  next_shard = mod-eq_of_lt room

  lookup_added :
      (j : ℕ)
      → f ≤ j
      → j < f + r
      → lookup (partition_key t (pos j)) extended.partitions ≡ some (added_at j)
  lookup_added j lo hi =
      let sum : f + (j - f) ≡ j = omega arith in
      let shard : add_u64 s.next_shard_id (j - f) ≡ s.next_shard_id + (j - f) =
        mod-eq_of_lt (omega arith) in
      rw (sum, shard) at
        (lookup-add_partitions_inside t f s.next_shard_id replicas (j - f) r 0 s.partitions
          (omega arith) (omega arith) (omega arith))

  lookup_old :
      (k : PartitionKey)
      → ((j : ℕ) → f ≤ j → j < f + r → k ≢ partition_key t (pos j))
      → lookup k extended.partitions ≡ lookup k s.partitions
  lookup_old k h =
      lookup-add_partitions_outside t f s.next_shard_id replicas k r 0 s.partitions (omega arith)
        (λ j a b. h j (omega arith) (omega arith))

  found :
      (k : PartitionKey) (p : PartitionMeta)
      → lookup k extended.partitions ≡ some p
      → Added k p ⊎ (lookup k s.partitions ≡ some p)
  found k p h = elim (place t f (f + r) k) [
    | inside j lo hi e ↦ inl (
      j,
      lo,
      hi,
      e,
      some_injective (sym h ∙ ap (λ q. lookup q extended.partitions) e ∙ lookup_added j lo hi),
    )
    | outside no_j ↦ inr (sym (lookup_old k no_j) ∙ h)
  ]

  -- The topics of the new state: the one that grew, and the old others.
  topic_cases :
      (u : Bytes) (m : TopicMeta)
      → lookup u topics ≡ some m
      → ((u ≡ t) × (m ≡ meta)) ⊎ ((u ≢ t) × (lookup u s.topics ≡ some m))
  topic_cases u m h = elim (Bool-cases (bytes_eq u t)) [
    | inl e ↦
        let u=t = (bytes_eq_iff u t).0 e in
        inl (u=t, some_injective (sym h ∙ ap (λ v. lookup v topics) u=t ∙ here))
    | inr e ↦
        let u≠t : u ≢ t = λ q. ground (arith, bytes_eq_iff u t) in
        inr (u≠t, sym (elsewhere u u≠t) ∙ h)
  ]

  extended-counts :
      (u : Bytes) (m : TopicMeta)
      → lookup u topics ≡ some m
      → (n : ℕ) × (m.partition_count ≡ pos n) × (0 < n) × (n < 2 ^ 31)
  extended-counts u m h = elim (topic_cases u m h) [
    | inl (e, q) ↦ (f + r, rw q count, omega arith, fits)
    | inr (e, q) ↦ wf.counts u m q
  ]

  extended-named : (u : Bytes) (m : TopicMeta) → lookup u topics ≡ some m → m.name ≡ u
  extended-named u m h = elim (topic_cases u m h) [
    | inl (e, q) ↦ rw (q, e) named
    | inr (e, q) ↦ wf.named u m q
  ]

  -- The old partitions of the topic, below its old count.
  old_present :
      (j : ℕ)
      → j < f
      → (p : PartitionMeta) × (lookup (partition_key t (pos j)) s.partitions ≡ some p)
  old_present j h = elim (Option-cases (lookup t s.topics)) [
    | inl e ↦ absurd (omega (arith, fresh e))
    | inr (m, e) ↦ wf.present t m f j e (before m e) h
  ]

  not_below : (j l : ℕ) → j < f → f ≤ l → partition_key t (pos j) ≢ partition_key t (pos l)
  not_below j l a b e = ground (arith, ap (λ (k : PartitionKey). k.partition_id) e)

  other_topic : (k : PartitionKey) → k.topic ≢ t → (l : ℕ) → k ≢ partition_key t (pos l)
  other_topic k h l e = h (ap (λ (q : PartitionKey). q.topic) e)

  present_here :
      (j : ℕ)
      → j < f + r
      → (p : PartitionMeta) × (lookup (partition_key t (pos j)) extended.partitions ≡ some p)
  present_here j h = elim (dec_lt j f) [
    | yes old ↦
        let (p, e) = old_present j old in
        (p, lookup_old (partition_key t (pos j)) (λ l a b. not_below j l old a) ∙ e)
    | no new ↦ (added_at j, lookup_added j (omega arith) h)
  ]

  extended-present :
      (u : Bytes) (m : TopicMeta) (n j : ℕ)
      → lookup u topics ≡ some m
      → m.partition_count ≡ pos n
      → j < n
      → (p : PartitionMeta) × (lookup (partition_key u (pos j)) extended.partitions ≡ some p)
  extended-present u m n j h c lt = elim (topic_cases u m h) [
    | inl (e, q) ↦
        let n=sum : n ≡ f + r = ground (arith, ap (λ (x : TopicMeta). x.partition_count) q) in
        rw e (present_here j (omega arith))
    | inr (e, q) ↦
        let (p, old) = wf.present u m n j q c lt in
        (
          p,
          lookup_old (partition_key u (pos j)) (λ l a b. other_topic (partition_key u (pos j)) e l)
              ∙ old,
        )
  ]

  Belongs-new : (j : ℕ) → j < f + r → Belongs topics (partition_key t (pos j))
  Belongs-new j h = record {
    meta = meta;
    count = f + r;
    index = j;
    topic_there = here;
    counted = count;
    below = h;
    indexed = refl;
  }

  Belongs-old : (k : PartitionKey) → Belongs s.topics k → Belongs topics k
  Belongs-old k b = elim (Bool-cases (bytes_eq k.topic t)) [
    | inl e ↦
        let k=t = (bytes_eq_iff k.topic t).0 e in
        let c : b.meta.partition_count ≡ pos f =
          before b.meta (ap (λ v. lookup v s.topics) (sym k=t) ∙ b.topic_there) in
        record {
          meta = meta;
          count = f + r;
          index = b.index;
          topic_there = ap (λ v. lookup v topics) k=t ∙ here;
          counted = count;
          below = ground (arith, b.below, sym b.counted ∙ c);
          indexed = b.indexed;
        }
    | inr e ↦ record {
      meta = b.meta;
      count = b.count;
      index = b.index;
      topic_there = elsewhere k.topic (λ q. ground (arith, bytes_eq_iff k.topic t)) ∙ b.topic_there;
      counted = b.counted;
      below = b.below;
      indexed = b.indexed;
    }
  ]

  extended-Belongs :
      (k : PartitionKey) (p : PartitionMeta)
      → lookup k extended.partitions ≡ some p
      → Belongs topics k
  extended-Belongs k p h = elim (found k p h) [
    | inl (j, lo, hi, e, q) ↦ subst (Belongs topics) (sym e) (Belongs-new j hi)
    | inr old ↦ Belongs-old k (wf.belongs k p old)
  ]

  extended-keyed :
      (k : PartitionKey) (p : PartitionMeta)
      → lookup k extended.partitions ≡ some p
      → (p.topic ≡ k.topic) × (p.partition_id ≡ k.partition_id)
  extended-keyed k p h = elim (found k p h) [
    | inl (j, lo, hi, e, q) ↦ rw (q, e) (refl, refl)
    | inr old ↦ wf.keyed k p old
  ]

  shard_of_Added :
      {k : PartitionKey} {p : PartitionMeta} (a : Added k p)
      → p.shard_id ≡ s.next_shard_id + (a.0 - f)
  shard_of_Added a = ap (λ (x : PartitionMeta). x.shard_id) a.4

  extended-shards :
      (k : PartitionKey) (p : PartitionMeta)
      → lookup k extended.partitions ≡ some p
      → (1 ≤ p.shard_id) × (p.shard_id < extended.next_shard_id)
  extended-shards k p h = rw next_shard (elim (found k p h) [
    | inl a ↦
        (omega (arith, shard_of_Added a, wf.started), omega (arith, shard_of_Added a, a.2, a.1))
    | inr old ↦ ((wf.shards k p old).0, omega (arith, (wf.shards k p old).1))
  ])

  Added-apart :
      (k l : PartitionKey) (p q : PartitionMeta)
      → Added k p
      → Added l q
      → p.shard_id ≡ q.shard_id
      → k ≡ l
  Added-apart k l p q a b e =
      let same : a.0 ≡ b.0 = omega (arith, shard_of_Added a, shard_of_Added b, a.1, b.1) in
      a.3 ∙ ap (λ j. partition_key t (pos j)) same ∙ sym b.3

  extended-apart :
      (k l : PartitionKey) (p q : PartitionMeta)
      → lookup k extended.partitions ≡ some p
      → lookup l extended.partitions ≡ some q
      → p.shard_id ≡ q.shard_id
      → k ≡ l
  extended-apart k l p q h g e = elim (found k p h) [
    | inl a ↦ elim (found l q g) [
      | inl b ↦ Added-apart k l p q a b e
      | inr old ↦ absurd (omega (arith, shard_of_Added a, (wf.shards l q old).1))
    ]
    | inr old ↦ elim (found l q g) [
      | inl b ↦ absurd (omega (arith, shard_of_Added b, (wf.shards k p old).1))
      | inr old' ↦ wf.apart k l p q old old' e
    ]
  ]

  pub extended-WellFormed : WellFormed extended
  extended-WellFormed = record {
    counts = extended-counts;
    named = extended-named;
    present = extended-present;
    belongs = extended-Belongs;
    keyed = extended-keyed;
    shards = extended-shards;
    apart = extended-apart;
    started = rw next_shard (omega (arith, wf.started));
  }
