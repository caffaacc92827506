-- ===== src/Metadata/WellFormed/Delete.antt =====
-- Deleting a topic keeps the invariant: all its partitions go, and no other one.
use bunnymq.Prelude.{ℕ, ◌<◌, ◌≡◌, ◌≢◌, sym, ap, ◌∙◌, none, some, arith, pos}
use bunnymq.Prelude.Keys.{Bytes, bytes-Eq, bytes_eq_iff}
use bunnymq.Prelude.Maps.{Map, lookup, delete, lookup-delete, lookup-delete_ne}
use bunnymq.Metadata.Types.{PartitionKey, key-Eq, TopicMeta, PartitionMeta, MetadataState}
use bunnymq.Metadata.Topics.{partition_key, delete_partitions}
use bunnymq.Metadata.Topics.Ranges.{
  inside, outside, place, lookup-delete_partitions_inside, lookup-delete_partitions_outside,
}
use bunnymq.Metadata.WellFormed.{WellFormed, Consistent, Belongs}

module _ (s : MetadataState) (wf : WellFormed s) (t : Bytes) (m : TopicMeta) (n : ℕ)
    (there : lookup t s.topics ≡ some m) (count : m.partition_count ≡ pos n) where
  abbrev rest : Map PartitionKey PartitionMeta
  rest = delete_partitions t 0 n s.partitions

  abbrev topics : Map Bytes TopicMeta
  topics = delete t s.topics

  -- A partition of the topic has an index below its count.
  of_topic :
      (k : PartitionKey)
      → k.topic ≡ t
      → Belongs s.topics k
      → (j : ℕ) × (j < n) × (k ≡ partition_key t (pos j))
  of_topic k e b = (
    b.index,
    ground (arith, ap (λ v. lookup v s.topics) e, b.topic_there, b.counted, b.below),
    λ i. record { topic = e i; partition_id = b.indexed i },
  )

  left :
      (k : PartitionKey) (p : PartitionMeta)
      → lookup k rest ≡ some p
      → (k.topic ≢ t) × (lookup k s.partitions ≡ some p)
  left k p h = elim (place t 0 n k) [
    | inside j lo hi e ↦ absurd (
        nothing (
          sym (lookup-delete_partitions_inside t j n 0 s.partitions lo (omega arith))
          ∙ ap (λ q. lookup q rest) (sym e)
          ∙ h))
    | outside no_j ↦
        let old : lookup k s.partitions ≡ some p =
          sym (
            lookup-delete_partitions_outside t k n 0 s.partitions (λ j a b. no_j j a (omega arith)))
          ∙ h in
        (
          (λ e. let (j, lt, q) = of_topic k e (wf.belongs k p old) in no_j j (omega arith) lt q),
          old,
        )
  ]
    where
      nothing : none ≡ some p → ⊥
      nothing e = cc

  topic_left :
      (u : Bytes) (m' : TopicMeta)
      → lookup u topics ≡ some m'
      → (t ≢ u) × (lookup u s.topics ≡ some m')
  topic_left u m' h = (
    (λ e. ground (arith, lookup-delete t u s.topics, bytes_eq_iff t u)),
    ground (arith, lookup-delete t u s.topics),
  )

  kept : (k : PartitionKey) → k.topic ≢ t → Belongs s.topics k → Belongs topics k
  kept k h b = record {
    meta = b.meta;
    count = b.count;
    index = b.index;
    topic_there = lookup-delete_ne t k.topic s.topics (λ e. h (sym e)) ∙ b.topic_there;
    counted = b.counted;
    below = b.below;
    indexed = b.indexed;
  }

  pub deleted-Consistent : Consistent topics rest s.next_shard_id
  deleted-Consistent = record {
    counts = λ u m' h. wf.counts u m' (topic_left u m' h).1;
    named = λ u m' h. wf.named u m' (topic_left u m' h).1;
    present = λ u m' l j h c lt.
        let (ne, old) = topic_left u m' h in
        let (p, e) = wf.present u m' l j old c lt in
        (
          p,
          lookup-delete_partitions_outside t (partition_key u (pos j)) n 0 s.partitions
                (λ i a b q. ne (sym (ap (λ (k : PartitionKey). k.topic) q)))
              ∙ e,
        );
    belongs = λ k p h. let (ne, old) = left k p h in kept k ne (wf.belongs k p old);
    keyed = λ k p h. wf.keyed k p (left k p h).1;
    shards = λ k p h. wf.shards k p (left k p h).1;
    apart = λ k l p q h g. wf.apart k l p q (left k p h).1 (left l q g).1;
    started = wf.started;
  }
