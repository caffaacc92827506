-- ===== src/Metadata/WellFormed/Machine.antt =====
-- The invariant over single commands and over the whole log.
use bunnymq.Prelude.{
  ◌+◌, ◌*◌, ◌^◌, ◌<◌, ◌≡◌, ◌≢◌, refl, subst, Option, none, some, List, [], ◌∷◌, length, All, arith,
  IsI32, option_rule, ◌∙◌,
}
use bunnymq.Prelude.Maps.{lookup}
use bunnymq.Prelude.Keys.{Bytes}
use bunnymq.Metadata.Types.{
  MetadataState, MetadataCommand, CommandType, CreateTopicCmd, AlterTopicPartCountCmd, create_topic,
  delete_topic, alter_topic_part_count, alter_topic_retention, register_node,
  assign_partition_leader, join_consumer_group, leave_consumer_group, heartbeat_consumer_group,
  commit_consumer_offset, rebalance_consumer_group, other,
}
use bunnymq.Metadata.Topics.{Applied}
use bunnymq.Metadata.Machine.{new_state, with_payload, apply_type, apply_command, update, replay}
use bunnymq.Metadata.WellFormed.{WellFormed}
use bunnymq.Metadata.WellFormed.Commands.{
  HasRoom, Keeps, apply_create_topic-Keeps, apply_alter_topic_part_count-Keeps,
  apply_delete_topic-Keeps, apply_alter_topic_retention-Keeps, apply_assign_partition_leader-Keeps,
  apply_join_consumer_group-Keeps, apply_leave_consumer_group-Keeps,
  apply_heartbeat_consumer_group-Keeps, apply_commit_consumer_offset-Keeps,
  apply_rebalance_consumer_group-Keeps, apply_register_node-Keeps,
}

-- The `int32` counts of a command are in the range of their type.
pub record CountsInRange (c : MetadataCommand) : Type 0 where
  pub create : (x : CreateTopicCmd) → c.create_topic ≡ some x → IsI32 x.partition_count
  pub alter :
      (x : AlterTopicPartCountCmd) → c.alter_topic_part_count ≡ some x → IsI32 x.new_partition_count

some_path : {A : Type 0} {x y : A} → some x ≡ some y → x ≡ y
some_path p = cc

payload-Keeps :
    {A : Type 0} (s : MetadataState) (o : Option A) (f : A → Applied)
    → ((a : A) → o ≡ some a → Keeps s (f a))
    → {r : Applied} → with_payload o f ≡ some r
    → Keeps s r
payload-Keeps s none f keeps e = cc
payload-Keeps s (some a) f keeps e = subst (Keeps s) (some_path e) (keeps a refl)

apply_type-Keeps :
    (t : CommandType) (s : MetadataState) (c : MetadataCommand) {r : Applied}
    → CountsInRange c
    → HasRoom s
    → WellFormed s
    → apply_type t s c ≡ some r
    → Keeps s r
unfolding apply_type
apply_type-Keeps create_topic s c range room wf e =
    payload-Keeps s c.create_topic _
      (λ x q. apply_create_topic-Keeps s wf room x (range.create x q)) e
apply_type-Keeps delete_topic s c range room wf e =
    payload-Keeps s c.delete_topic _ (λ x q. apply_delete_topic-Keeps s wf room x) e
apply_type-Keeps alter_topic_part_count s c range room wf e =
    payload-Keeps s c.alter_topic_part_count _
      (λ x q. apply_alter_topic_part_count-Keeps s wf room x (range.alter x q)) e
apply_type-Keeps alter_topic_retention s c range room wf e =
    payload-Keeps s c.alter_topic_retention _ (λ x q. apply_alter_topic_retention-Keeps s wf room x)
      e
apply_type-Keeps register_node s c range room wf e =
    payload-Keeps s c.register_node _ (λ x q. apply_register_node-Keeps s wf room x) e
apply_type-Keeps assign_partition_leader s c range room wf e =
    payload-Keeps s c.assign_partition_leader _
      (λ x q. apply_assign_partition_leader-Keeps s wf room x) e
apply_type-Keeps join_consumer_group s c range room wf e =
    payload-Keeps s c.join_consumer_group _ (λ x q. apply_join_consumer_group-Keeps s wf room x) e
apply_type-Keeps leave_consumer_group s c range room wf e =
    payload-Keeps s c.leave_consumer_group _ (λ x q. apply_leave_consumer_group-Keeps s wf room x) e
apply_type-Keeps heartbeat_consumer_group s c range room wf e =
    payload-Keeps s c.heartbeat_consumer_group _
      (λ x q. apply_heartbeat_consumer_group-Keeps s wf room x) e
apply_type-Keeps commit_consumer_offset s c range room wf e =
    payload-Keeps s c.commit_consumer_offset _
      (λ x q. apply_commit_consumer_offset-Keeps s wf room x) e
apply_type-Keeps rebalance_consumer_group s c range room wf e =
    payload-Keeps s c.rebalance_consumer_group _
      (λ x q. apply_rebalance_consumer_group-Keeps s wf room x) e
apply_type-Keeps other s c range room wf e = subst (Keeps s) (some_path e) (wf, omega arith)

-- A command whose counts are in range, applied without a panic to a well formed state with 2 ^ 31
-- shard ids left, leaves a well formed state and advances the next shard id by at most 2 ^ 31.
pub apply_command-Keeps :
    (s : MetadataState) (c : MetadataCommand) {r : Applied}
    → CountsInRange c
    → HasRoom s
    → WellFormed s
    → apply_command s c ≡ some r
    → Keeps s r
unfolding apply_command
apply_command-Keeps s c range room wf e = apply_type-Keeps c.type s c range room wf e

pub new_state-WellFormed : WellFormed new_state
unfolding lookup
new_state-WellFormed = record {
  counts = λ t m h. cc;
  named = λ t m h. cc;
  present = λ t m n j h c lt. cc;
  belongs = λ k p h. cc;
  keyed = λ k p h. cc;
  shards = λ k p h. cc;
  apart = λ k l p q h g e. cc;
  started = omega arith;
}

-- The payload that the handler of a command type reads is there.
abbrev pub HasPayload : CommandType → MetadataCommand → Type 0
HasPayload create_topic c = c.create_topic ≢ none
HasPayload delete_topic c = c.delete_topic ≢ none
HasPayload alter_topic_part_count c = c.alter_topic_part_count ≢ none
HasPayload alter_topic_retention c = c.alter_topic_retention ≢ none
HasPayload register_node c = c.register_node ≢ none
HasPayload assign_partition_leader c = c.assign_partition_leader ≢ none
HasPayload join_consumer_group c = c.join_consumer_group ≢ none
HasPayload leave_consumer_group c = c.leave_consumer_group ≢ none
HasPayload heartbeat_consumer_group c = c.heartbeat_consumer_group ≢ none
HasPayload commit_consumer_offset c = c.commit_consumer_offset ≢ none
HasPayload rebalance_consumer_group c = c.rebalance_consumer_group ≢ none
HasPayload other c = Unit

with_payload_total :
    {A : Type 0} (o : Option A) (f : A → Applied)
    → o ≢ none
    → (r : Applied) × (with_payload o f ≡ some r)
with_payload_total none f h = absurd (h refl)
with_payload_total (some a) f h = (f a, refl)

apply_type_total :
    (t : CommandType) (s : MetadataState) (c : MetadataCommand)
    → HasPayload t c
    → (r : Applied) × (apply_type t s c ≡ some r)
unfolding apply_type
apply_type_total create_topic s c h = with_payload_total c.create_topic _ h
apply_type_total delete_topic s c h = with_payload_total c.delete_topic _ h
apply_type_total alter_topic_part_count s c h = with_payload_total c.alter_topic_part_count _ h
apply_type_total alter_topic_retention s c h = with_payload_total c.alter_topic_retention _ h
apply_type_total register_node s c h = with_payload_total c.register_node _ h
apply_type_total assign_partition_leader s c h = with_payload_total c.assign_partition_leader _ h
apply_type_total join_consumer_group s c h = with_payload_total c.join_consumer_group _ h
apply_type_total leave_consumer_group s c h = with_payload_total c.leave_consumer_group _ h
apply_type_total heartbeat_consumer_group s c h = with_payload_total c.heartbeat_consumer_group _ h
apply_type_total commit_consumer_offset s c h = with_payload_total c.commit_consumer_offset _ h
apply_type_total rebalance_consumer_group s c h = with_payload_total c.rebalance_consumer_group _ h
apply_type_total other s c h = (_, refl)

-- What the nodes put into the log: an entry whose command, where it decodes to one, has its payload
-- and counts that fit their type.
pub record IsEntry (unmarshal : Bytes → Option MetadataCommand) (e : Bytes) : Type 0 where
  pub in_range : (c : MetadataCommand) → unmarshal e ≡ some c → CountsInRange c
  pub has_payload : (c : MetadataCommand) → unmarshal e ≡ some c → HasPayload c.type c

module _ (unmarshal : Bytes → Option MetadataCommand) where
  update-Keeps :
      (s : MetadataState) (e : Bytes)
      → IsEntry unmarshal e
      → HasRoom s
      → WellFormed s
      → (r : Applied) × (update unmarshal s e ≡ some r) × Keeps s r
  unfolding update
  update-Keeps s e entry room wf =
      option_rule (λ o. (r : Applied) × (o ≡ some r) × Keeps s r) (unmarshal e)
        (λ q. (_, refl, (wf, omega arith)))
        (λ c q.
          let (r, p) = apply_type_total c.type s c (entry.has_payload c q) in
          (r, p, apply_command-Keeps s c (entry.in_range c q) room wf p))

  replay_step :
      (e : Bytes) (es : List Bytes) (s : MetadataState) {r : Applied}
      → update unmarshal s e ≡ some r
      → replay unmarshal s (e ∷ es) ≡ replay unmarshal r.0 es
  unfolding replay
  replay_step e es s p = rw (p, replay)

  -- Replaying a log, each of whose entries that decode to a command has its payload and counts in
  -- range, from a well formed state with 2 ^ 31 shard ids left for each entry and one more does not
  -- panic, and ends in a well formed state.
  pub replay-WellFormed :
      (es : List Bytes) (s : MetadataState)
      → All (IsEntry unmarshal) es
      → s.next_shard_id + (length es + 1) * 2 ^ 31 < 2 ^ 64
      → WellFormed s
      → (s' : MetadataState) × (replay unmarshal s es ≡ some s') × WellFormed s'
  unfolding replay
  replay-WellFormed [] s entries room wf = (s, refl, wf)
  replay-WellFormed (e ∷ es) s (entry, entries) room wf =
      let (r, p, (wf', next)) = update-Keeps s e entry (omega arith) wf in
      let (s', q, done) = replay-WellFormed es r.0 entries (omega arith) wf' in
      (s', replay_step e es s p ∙ q, done)
