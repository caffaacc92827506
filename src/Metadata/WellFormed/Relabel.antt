-- ===== src/Metadata/WellFormed/Relabel.antt =====
-- A change that keeps a topic's name and count, or a partition's key and shard, keeps the
-- invariant.
use bunnymq.Prelude.{◌≡◌, ◌⊎◌, inl, inr, sym, ap, ◌∙◌, ℕ, some, arith}
use bunnymq.Prelude.Keys.{Bytes, bytes-Eq}
use bunnymq.Prelude.Maps.{Map, lookup, modify, modify_back, modify_forth}
use bunnymq.Metadata.Types.{PartitionKey, key-Eq, TopicMeta, PartitionMeta}
use bunnymq.Metadata.WellFormed.{Consistent, Belongs}

either {ℓ κ} :
    {A : Type ℓ} {B : Type κ} (g : A → B) {w v : A} (f : A → A)
    → ((x : A) → g (f x) ≡ g x)
    → (w ≡ v) ⊎ (w ≡ f v)
    → g w ≡ g v
either g f keeps (inl e) = ap g e
either g f keeps (inr e) = ap g e ∙ keeps _

module _ {topics : Map Bytes TopicMeta} {partitions : Map PartitionKey PartitionMeta} {next : ℕ}
    (wf : Consistent topics partitions next) where
  module _ (t : Bytes) (f : TopicMeta → TopicMeta)
      (same_count : (m : TopicMeta) → (f m).partition_count ≡ m.partition_count)
      (same_name : (m : TopicMeta) → (f m).name ≡ m.name) where
    kept : (k : PartitionKey) → Belongs topics k → Belongs (modify t f topics) k
    kept k b =
        let (m, e) = modify_forth t k.topic f topics b.topic_there in
        let (m', e', o) = modify_back t k.topic f topics e in
        record {
          meta = m;
          count = b.count;
          index = b.index;
          topic_there = e;
          counted =
              either (λ (x : TopicMeta). x.partition_count) f same_count o
              ∙ ap (λ (x : TopicMeta). x.partition_count) (some_path (sym e' ∙ b.topic_there))
              ∙ b.counted;
          below = b.below;
          indexed = b.indexed;
        }
      where
        some_path : {x y : TopicMeta} → some x ≡ some y → x ≡ y
        some_path p = cc

    pub Consistent-modify_topic : Consistent (modify t f topics) partitions next
    Consistent-modify_topic = record {
      counts = λ u w h.
          let (v, e, o) = modify_back t u f topics h in
          let (n, c, lo, hi) = wf.counts u v e in
          (n, either (λ (x : TopicMeta). x.partition_count) f same_count o ∙ c, lo, hi);
      named = λ u w h.
          let (v, e, o) = modify_back t u f topics h in
          either (λ (x : TopicMeta). x.name) f same_name o ∙ wf.named u v e;
      present = λ u w n j h c lt.
          let (v, e, o) = modify_back t u f topics h in
          wf.present u v n j e
            (sym (either (λ (x : TopicMeta). x.partition_count) f same_count o) ∙ c) lt;
      belongs = λ k p h. kept k (wf.belongs k p h);
      keyed = wf.keyed;
      shards = wf.shards;
      apart = wf.apart;
      started = wf.started;
    }

  module _ (k : PartitionKey) (f : PartitionMeta → PartitionMeta)
      (same_topic : (p : PartitionMeta) → (f p).topic ≡ p.topic)
      (same_id : (p : PartitionMeta) → (f p).partition_id ≡ p.partition_id)
      (same_shard : (p : PartitionMeta) → (f p).shard_id ≡ p.shard_id) where
    -- The old value of a partition, with the same shard id.
    old :
        (l : PartitionKey) (w : PartitionMeta)
        → lookup l (modify k f partitions) ≡ some w
        → (v : PartitionMeta) × (lookup l partitions ≡ some v) × (w.shard_id ≡ v.shard_id)
    old l w h =
        let (v, e, o) = modify_back k l f partitions h in
        (v, e, either (λ (x : PartitionMeta). x.shard_id) f same_shard o)

    pub Consistent-modify_partition : Consistent topics (modify k f partitions) next
    Consistent-modify_partition = record {
      counts = wf.counts;
      named = wf.named;
      present = λ u m n j h c lt.
          let (p, e) = wf.present u m n j h c lt in modify_forth k _ f partitions e;
      belongs = λ l w h. let (v, e, o) = old l w h in wf.belongs l v e;
      keyed = λ l w h.
          let (v, e, o) = modify_back k l f partitions h in
          let (a, b) = wf.keyed l v e in
          (
            either (λ (x : PartitionMeta). x.topic) f same_topic o ∙ a,
            either (λ (x : PartitionMeta). x.partition_id) f same_id o ∙ b,
          );
      shards = λ l w h.
          let (v, e, o) = old l w h in let (a, b) = wf.shards l v e in (omega arith, omega arith);
      apart = λ l l' w w' h h' q.
          let (v, e, o) = old l w h in
          let (v', e', o') = old l' w' h' in wf.apart l l' v v' e e' (sym o ∙ q ∙ o');
      started = wf.started;
    }
