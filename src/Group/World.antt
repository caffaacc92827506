-- ===== src/Group/World.antt =====
-- The world that a request of the group coordinator runs in, and its calls of the Raft host
-- (internal/raft/host.go: `SyncProposeMetadata`, `LookupMetadata`).
-- The Raft library is not modelled: the world holds a schedule with one turn for each call of the
-- host. A turn names the commands of others that the shard applies before the call, and what
-- becomes of the call. A schedule that has run out is a quiet one, where every call succeeds.
use bunnymq.Prelude.{ℤ, pos, Option, none, some, List, [], ◌∷◌}
use bunnymq.Prelude.Keys.{Bytes, bytes-Eq}
use bunnymq.Prelude.Maps.{Map, lookup, insert, delete}
use bunnymq.Metadata.Types.{
  TopicMeta, GroupState, MetadataState, MetadataCommand, CommandType, JoinConsumerGroupCmd,
  LeaveConsumerGroupCmd, CommitConsumerOffsetCmd,
}
use bunnymq.Metadata.Groups.{or_else}
use bunnymq.Metadata.Topics.{Applied}
use bunnymq.Metadata.Machine.{apply_command}
use bunnymq.Metadata.Lookup.{
  QueryType, MetadataQuery, Answer, topic, group_state, all_group_states, not_found,
  lookup_metadata,
}

-- The four errors of the package, those of the host, and a panic.
pub data GroupError : Type 0 where
  err_not_group_member err_not_found err_invalid_argument err_stale_generation : GroupError
  lookup_failed propose_failed panicked : GroupError

-- `unknown` is a proposal that the shard applies although the caller sees an error (a timeout).
pub data Fate : Type 0 where
  granted refused unknown : Fate

pub record Turn : Type 0 where
  pub before : List MetadataCommand
  pub fate : Fate

-- lastHeartbeat, in nanoseconds
abbrev pub Heartbeats : Type 0
Heartbeats = Map Bytes (Map Bytes ℤ)

pub record World : Type 0 where
  pub metadata : MetadataState
  pub last_heartbeat : Heartbeats
  pub turns : List Turn

pub data Reply {ℓ} (A : Type ℓ) : Type ℓ where
  ok : A → Reply A
  err : GroupError → Reply A

abbrev pub M : Type 0 → Type 0
M A = World → Reply A × World

abbrev pub after : {A B : Type 0} → Reply A × World → (A → M B) → Reply B × World
after (ok a, w) f = f a w
after (err x, w) f = (err x, w)

infixl 5 ◌>>=◌ ◌>>◌
abbrev pub ◌>>=◌ : {R S : Type 0} (call : M R) (next : R → M S) → M S
◌>>=◌ call next w = after (call w) next

abbrev pub ◌>>◌ : {B : Type 0} → M (Unit {0}) → M B → M B
m >> k = m >>= λ _. k

abbrev pub return : {A : Type 0} → A → M A
return a w = (ok a, w)

abbrev pub raise : {A : Type 0} → GroupError → M A
raise x w = (err x, w)

-- The commands of others; `none` is a panic of the state machine.
unfoldable pub apply_all : List MetadataCommand → MetadataState → Option MetadataState
unfolding apply_command
apply_all [] s = some s
apply_all (c ∷ cs) s = elim (apply_command s c) [ none ↦ none | some (s', r) ↦ apply_all cs s' ]

abbrev settle : List Turn → Fate → Option MetadataState → World → Reply Fate × World
settle turns fate none w = (err panicked, w)
settle turns fate (some s) w = (ok fate, record w { metadata = s; turns = turns })

abbrev next_turn : List Turn → M Fate
next_turn [] w = (ok granted, w)
next_turn (t ∷ ts) w = settle ts t.fate (apply_all t.before w.metadata) w

-- Takes the turn of a call.
unfoldable pub take_turn : M Fate
unfolding apply_all
take_turn w = next_turn w.turns w

abbrev pub answer_when : Fate → MetadataQuery → M Answer
answer_when granted q w = (ok (lookup_metadata w.metadata q), w)
answer_when refused q w = (err lookup_failed, w)
answer_when unknown q w = (err lookup_failed, w)

-- `LookupMetadata`: a stale read of the local state machine
unfoldable pub query : MetadataQuery → M Answer
unfolding take_turn lookup_metadata
query q = do fate ← take_turn; answer_when fate q

-- A command goes through `encoding/json`, which keeps strings that are valid UTF-8, as those of
-- requests are, and where a field with `omitempty` that holds an empty map
-- is left out, and so is nil on the other side.
abbrev pub omit_empty {ℓ κ} : {K : Type ℓ} {V : Type κ} → Option (Map K V) → Option (Map K V)
omit_empty (some (x ∷ m)) = some (x ∷ m)
omit_empty (some []) = none
omit_empty none = none

abbrev omit_join : Option JoinConsumerGroupCmd → Option JoinConsumerGroupCmd
omit_join none = none
omit_join (some j) = some (record j { new_assignment = omit_empty j.new_assignment })

abbrev omit_leave : Option LeaveConsumerGroupCmd → Option LeaveConsumerGroupCmd
omit_leave none = none
omit_leave (some l) = some (record l { new_assignment = omit_empty l.new_assignment })

abbrev omit_commit : Option CommitConsumerOffsetCmd → Option CommitConsumerOffsetCmd
omit_commit none = none
omit_commit (some o) = some (record o { group_offsets = omit_empty o.group_offsets })

unfoldable pub transport_command : MetadataCommand → MetadataCommand
transport_command c = record c {
  join_consumer_group = omit_join c.join_consumer_group;
  leave_consumer_group = omit_leave c.leave_consumer_group;
  commit_consumer_offset = omit_commit c.commit_consumer_offset;
}

-- The result of the state machine is dropped: every caller in the package drops it.
abbrev pub land : Reply (Unit {0}) → Option Applied → M (Unit {0})
land reply none w = (err panicked, w)
land reply (some (s, r)) w = (reply, record w { metadata = s })

abbrev pub propose_when : Fate → MetadataCommand → M (Unit {0})
propose_when granted c w = land (ok tt) (apply_command w.metadata c) w
propose_when refused c w = (err propose_failed, w)
propose_when unknown c w = land (err propose_failed) (apply_command w.metadata c) w

-- `SyncProposeMetadata`
unfoldable pub propose : MetadataCommand → M (Unit {0})
unfolding take_turn transport_command apply_command
propose c = do fate ← take_turn; propose_when fate (transport_command c)

-- The queries of the package, and a panic at an answer of another type.
abbrev pub no_query : QueryType → MetadataQuery
no_query t = record {
  type = t;
  topic_name = [];
  partition_id = pos 0;
  node_id = 0;
  group_id = [];
  part_key = record { topic = []; partition_id = pos 0 };
  partitions = [];
}

abbrev as_topic : Answer → M (Option TopicMeta)
as_topic (topic t) = return (some t)
as_topic not_found = return none
as_topic _ = raise panicked

-- `none` is `metadata.ErrNotFound`
unfoldable pub find_topic : Bytes → M (Option TopicMeta)
unfolding query
find_topic name = do
  a ← query (record (no_query QueryType.get_topic) { topic_name = name })
  as_topic a

abbrev as_group : Answer → M (Option GroupState)
as_group (group_state g) = return g
as_group _ = raise panicked

unfoldable pub find_group : Bytes → M (Option GroupState)
unfolding query
find_group id = do
  a ← query (record (no_query QueryType.get_group_state) { group_id = id })
  as_group a

abbrev as_groups : Answer → M (Map Bytes GroupState)
as_groups (all_group_states gs) = return gs
as_groups _ = raise panicked

unfoldable pub find_all_groups : M (Map Bytes GroupState)
unfolding query
find_all_groups = do a ← query (no_query QueryType.get_all_group_states); as_groups a

-- A command with no payload but the one named.
abbrev pub no_command : CommandType → MetadataCommand
no_command t = record {
  type = t;
  create_topic = none;
  delete_topic = none;
  alter_topic_part_count = none;
  alter_topic_retention = none;
  register_node = none;
  assign_partition_leader = none;
  join_consumer_group = none;
  leave_consumer_group = none;
  heartbeat_consumer_group = none;
  commit_consumer_offset = none;
  rebalance_consumer_group = none;
}

-- `if gc.lastHeartbeat[g] == nil { … = make(…) }; gc.lastHeartbeat[g][m] = now`
unfoldable pub touch : Bytes → Bytes → ℤ → Heartbeats → Heartbeats
unfolding insert lookup
touch g m now hb = insert g (insert m now (or_else (lookup g hb) [])) hb

-- `if gc.lastHeartbeat[g] != nil { delete(gc.lastHeartbeat[g], m) }`
unfoldable pub forget : Bytes → Bytes → Heartbeats → Heartbeats
unfolding insert lookup delete
forget g m hb = elim (lookup g hb) [ none ↦ hb | some ms ↦ insert g (delete m ms) hb ]

abbrev pub on_heartbeats : (Heartbeats → Heartbeats) → M (Unit {0})
on_heartbeats f w = (ok tt, record w { last_heartbeat = f w.last_heartbeat })
