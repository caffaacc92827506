-- ===== src/Group/Sweep.antt =====
-- internal/coordinator/group/groupcoord.go: `sweepOnce`, which expires the members that were not
-- heard of for a session timeout. The ticker that calls it is not modelled.
-- The loop ranges over maps that it shares with the state machine, and its own proposals delete
-- from them: an entry that is deleted before it is reached is not visited. An entry that is added
-- meanwhile may be passed over, and is here.
-- The sweep drops the errors of its calls. A panic of the state machine under another's command,
-- which would end the process, is dropped like them here.
use bunnymq.Prelude.{
  ℕ, ℤ, pos, negsuc, Option, none, some, List, [], ◌∷◌, ◌*◌, ◌+◌, Bool, false, not, eqb,
  if◌then◌else◌, leb_ℤ, ◌-ℤ◌,
}
use bunnymq.Prelude.Keys.{Bytes, bytes, bytes_eq, bytes-Eq}
use bunnymq.Prelude.Maps.{Map, lookup, insert, keys}
use bunnymq.Metadata.Types.{GroupState, MemberState, TopicMeta, leave_consumer_group}
use bunnymq.Assignment.{range_assign}
use bunnymq.Group.World.{
  World, Reply, ok, err, Heartbeats, find_topic, find_all_groups, propose, no_command, forget,
}
use bunnymq.Group.Join.{GroupCoordinatorConfig, other_ids, members_of}
use bunnymq.Group.Leave.{leave_command}

-- `time.Duration(ms) * time.Millisecond`
abbrev pub milliseconds : ℤ → ℤ
milliseconds (pos n) = pos (n * 1000000)
milliseconds (negsuc n) = negsuc (n * 1000000 + 999999)

-- `gc.lastHeartbeat[groupID][memberID]`
abbrev pub in_table : Bytes → Option (Map Bytes ℤ) → Option ℤ
in_table m none = none
in_table m (some ms) = lookup m ms

abbrev pub last_heard : Bytes → Bytes → Heartbeats → Option ℤ
last_heard g m hb = in_table m (lookup g hb)

-- A member without an entry is not expired. `now.Sub` saturates at 292 years, which is not modelled.
abbrev pub is_expired : ℤ → MemberState → Option ℤ → Bool
is_expired now ms none = false
is_expired now ms (some last) = not (leb_ℤ (now -ℤ last) (milliseconds ms.session_timeout_ms))

-- A topic that is not found, or whose query fails, counts no partition: the query's error is
-- dropped.
abbrev count_reply : Bytes → Map Bytes ℤ → Reply (Option TopicMeta) × World → Map Bytes ℤ × World
count_reply topic counts (ok (some tm), w) = (insert topic tm.partition_count counts, w)
count_reply topic counts (ok none, w) = (counts, w)
count_reply topic counts (err x, w) = (counts, w)

unfoldable pub count_found : List Bytes → Map Bytes ℤ → World → Map Bytes ℤ × World
unfolding find_topic insert bytes_eq
count_found [] counts w = (counts, w)
count_found (topic ∷ topics) counts w =
    let next = count_reply topic counts (find_topic topic w) in count_found topics next.0 next.1

abbrev pub timeout : Bytes
timeout = bytes "timeout"

-- The entry of an expired member goes when the proposal succeeds.
abbrev pub after_expiry : Bytes → Bytes → Reply (Unit {0}) × World → World
after_expiry g m (err x, w) = w
after_expiry g m (ok u, w) = record w { last_heartbeat = forget g m w.last_heartbeat }

unfoldable pub expire : Bytes → Bytes → MemberState → Map Bytes MemberState → World → World
unfolding count_found other_ids range_assign propose forget
expire g m ms members w =
    let counts = count_found ms.subscribed_topics [] w in
    after_expiry g m (
      propose
        (record (no_command leave_consumer_group) {
          leave_consumer_group = some (leave_command g m timeout ms counts.0 members);
        })
        counts.1)

abbrev pub live_members : Bytes → World → Map Bytes MemberState
live_members g w = members_of (lookup g w.metadata.group_states)

abbrev pub visit : ℤ → Bytes → Bytes → Option MemberState → World → World
visit now g m none w = w
visit now g m (some ms) w =
    if is_expired now ms (last_heard g m w.last_heartbeat)
    then expire g m ms (live_members g w) w
    else w

unfoldable pub sweep_members : ℤ → Bytes → List Bytes → World → World
unfolding lookup bytes_eq expire
sweep_members now g [] w = w
sweep_members now g (m ∷ ms) w =
    sweep_members now g ms (visit now g m (lookup m (live_members g w)) w)

unfoldable pub sweep_groups : ℤ → List Bytes → World → World
unfolding lookup keys bytes_eq sweep_members
sweep_groups now [] w = w
sweep_groups now (g ∷ gs) w = sweep_groups now gs (sweep_members now g (keys (live_members g w)) w)

abbrev sweep_found : ℤ → Reply (Map Bytes GroupState) × World → World
sweep_found now (err x, w) = w
sweep_found now (ok groups, w) = sweep_groups now (keys groups) w

-- `leader` is the leader that the Raft host reports, `none` where it reports an error or none.
abbrev leads : GroupCoordinatorConfig → Option ℕ → Bool
leads config none = false
leads config (some id) = eqb id config.this_node_id

unfoldable pub sweep_once : GroupCoordinatorConfig → Option ℕ → ℤ → World → World
unfolding find_all_groups sweep_groups keys
sweep_once config leader now w =
    if leads config leader then sweep_found now (find_all_groups w) else w
