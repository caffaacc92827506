-- ===== src/Tests/Metadata.antt =====
-- The theorems on the metadata state machine at concrete inputs.
use mathlib.Core.List.{Memᴰ}
use bunnymq.Prelude.{
  ◌≡◌, refl, arith, pos, negsuc, [], ◌∷◌, List, ℤ, Option, none, some, subst, IsI32,
}
use bunnymq.Prelude.Keys.{Bytes, bytes, bytes_eq, bytes-Eq}
use bunnymq.Prelude.Maps.{Map, lookup}
use bunnymq.Metadata.Types.{
  TopicPartition, key-Eq, MetadataState, MetadataCommand, CreateTopicCmd, create_topic,
  alter_topic_retention, GroupState, CommitConsumerOffsetCmd,
}
use bunnymq.Metadata.Types.{PartitionKey}
use bunnymq.Metadata.Text.{marshal_text, unmarshal_text}
use bunnymq.Metadata.Text.RoundTrip.{unmarshal_text-marshal_text}
use bunnymq.Metadata.Result.{Result, error_result, result_err_not_found}
use bunnymq.Metadata.Topics.{apply_create_topic, apply_alter_topic_retention}
use bunnymq.Metadata.Groups.{new_group_state}
use bunnymq.Metadata.Machine.{new_state, apply_command, apply_type, replay}
use bunnymq.Metadata.Lookup.{lookup_group_offsets}
use bunnymq.Metadata.Offsets.{offset_or, lookup_group_offsets-at}
use bunnymq.Metadata.Errors.{apply_command-IsAtomic}
use bunnymq.Metadata.WellFormed.{WellFormed}
use bunnymq.Metadata.WellFormed.Commands.{Keeps}
use bunnymq.Metadata.WellFormed.Machine.{
  CountsInRange, HasPayload, IsEntry, apply_command-Keeps, new_state-WellFormed, replay-WellFormed,
}
use bunnymq.Group.World.{no_command}

abbrev pub create : CreateTopicCmd
create = record {
  name = bytes "t";
  partition_count = pos 2;
  replication_factor = pos 1;
  retention_ms = pos 0;
  retention_bytes = pos 0;
  created_at_ms = pos 0;
  replica_node_ids = (1 ∷ []) ∷ (1 ∷ []) ∷ [];
}

abbrev pub create_command : MetadataCommand
create_command = record (no_command create_topic) { create_topic = some create }

-- A decoder that answers a command without its payload for some bytes, as that of JSON does.
abbrev unmarshal : Bytes → Option MetadataCommand
unmarshal [] = some create_command
unmarshal (x ∷ []) = none
unmarshal (x ∷ y ∷ ys) = some (no_command create_topic)

pub created-InRange : CountsInRange create_command
created-InRange = record { create = λ x p. in_range x p; alter = λ x p. cc }
  where
    in_range : (x : CreateTopicCmd) → some create ≡ some x → IsI32 x.partition_count
    in_range x p =
        subst (λ (y : CreateTopicCmd). IsI32 y.partition_count) (the_create p)
          (omega arith, omega arith)
      where
        the_create : {x y : CreateTopicCmd} → some x ≡ some y → x ≡ y
        the_create q = cc

created-IsEntry : IsEntry unmarshal []
created-IsEntry = record {
  in_range = λ c p. subst CountsInRange (the_command p) created-InRange;
  has_payload =
      λ c p. subst (λ (c : MetadataCommand). HasPayload c.type c) (the_command p) (λ q. cc);
}
  where
    the_command : {x y : MetadataCommand} → some x ≡ some y → x ≡ y
    the_command q = cc

undecoded-IsEntry : IsEntry unmarshal (bytes "x")
undecoded-IsEntry = record { in_range = λ c p. cc; has_payload = λ c p. cc }

-- A log of two entries, the second of which does not decode.
replay-WellFormed_example :
    (s' : MetadataState) × (replay unmarshal new_state ([] ∷ bytes "x" ∷ []) ≡ some s')
    × WellFormed s'
replay-WellFormed_example =
    replay-WellFormed unmarshal ([] ∷ bytes "x" ∷ []) new_state
      (created-IsEntry, (undecoded-IsEntry, tt)) (omega arith) new_state-WellFormed

pub created : apply_command new_state create_command ≡ some (apply_create_topic new_state create)
unfolding apply_command apply_type
created = refl

apply_command-Keeps_example : Keeps new_state (apply_create_topic new_state create)
apply_command-Keeps_example =
    apply_command-Keeps new_state create_command created-InRange (omega arith) new_state-WellFormed
      created

abbrev retention_command : MetadataCommand
retention_command = record (no_command alter_topic_retention) {
  alter_topic_retention =
      some (record { name = bytes "t"; retention_ms = pos 1; retention_bytes = pos 1 });
}

abbrev topic_not_found : Result
topic_not_found = error_result result_err_not_found "topic not found"

refused : apply_command new_state retention_command ≡ some (new_state, topic_not_found)
unfolding apply_command apply_type apply_alter_topic_retention lookup
refused = refl

apply_command-IsAtomic_example : new_state ≡ new_state
apply_command-IsAtomic_example =
    apply_command-IsAtomic new_state retention_command new_state topic_not_found "topic not found"
      refused refl

abbrev tp : ℤ → TopicPartition
tp p = record { topic = bytes "t"; partition_id = p }

abbrev group : GroupState
group = record (new_group_state (bytes "g")) { offsets = (tp (pos 0), pos 5) ∷ [] }

abbrev with_group : MetadataState
with_group = record new_state { group_states = (bytes "g", group) ∷ [] }

abbrev wanted : List TopicPartition
wanted = tp (pos 0) ∷ tp (pos 1) ∷ []

second-wanted : Memᴰ (tp (pos 1)) wanted
second-wanted = Memᴰ.tail (Memᴰ.head refl)

group-there : lookup (bytes "g") with_group.group_states ≡ some group
unfolding lookup bytes_eq
group-there = refl

lookup_group_offsets-at_example :
    lookup (tp (pos 1)) (lookup_group_offsets with_group (bytes "g") wanted)
    ≡ some (offset_or (lookup (tp (pos 1)) group.offsets) (negsuc 0))
lookup_group_offsets-at_example =
    lookup_group_offsets-at with_group (bytes "g") group wanted (tp (pos 1)) group-there
      second-wanted

abbrev new_offsets : Map TopicPartition ℤ
new_offsets = (tp (pos 1), pos 7) ∷ []

abbrev commit : CommitConsumerOffsetCmd
commit = record { group_id = bytes "g"; offsets = []; group_offsets = some new_offsets }

abbrev key : PartitionKey
key = record { topic = bytes "t"; partition_id = negsuc 11 }

key_run : marshal_text key ≡ 116 ∷ 0 ∷ 45 ∷ 49 ∷ 50 ∷ []
unfolding marshal_text
key_run = refl

unmarshal_text-marshal_text_example : unmarshal_text (marshal_text key) ≡ some key
unmarshal_text-marshal_text_example = unmarshal_text-marshal_text key (omega arith, omega arith)
