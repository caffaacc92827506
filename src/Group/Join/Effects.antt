-- ===== src/Group/Join/Effects.antt =====
-- What a join demands, and what it leaves.
use bunnymq.Prelude.{
  ℤ, Option, none, some, List, [], ◌∷◌, ◌≡◌, refl, sym, subst, arith, ◌⊎◌, inl, inr, true,
  if◌then◌else◌, if_rule, option_rule, Option-cases,
}
use bunnymq.Prelude.Keys.{Bytes, bytes-Eq}
use bunnymq.Prelude.Maps.{Map, lookup, insert, keys, lookup-insert_self}
use bunnymq.Metadata.Types.{MetadataState, GroupState, Assignment, join_consumer_group}
use bunnymq.Metadata.Groups.{
  or_else, apply_group_state_join, apply_join_consumer_group, put_group_state, new_group_state,
  next_generation,
}
use bunnymq.Metadata.Machine.{apply_command, apply_type}
use bunnymq.Assignment.{range_assign}
use bunnymq.Assignment.Keys.{IsCons, range_assign-IsCons}
use bunnymq.Group.World.{
  World, Heartbeats, GroupError, err_not_found, err_invalid_argument, Reply, ok, err, propose,
  find_group, no_command, transport_command, omit_empty, touch,
}
use bunnymq.Group.Quiet.{quiet, find_topic-quiet, find_group-quiet, propose-quiet}
use bunnymq.Group.Join.{
  GroupCoordinatorConfig, JoinGroupRequest, JoinGroupResponse, count_partitions, first_matches,
  members_of, other_ids, chosen_id, in_range, join_command, join_group, join_members,
}

-- The counts of the topics that a request names, `none` where a topic does not exist.
unfoldable pub find_counts : MetadataState → List Bytes → Map Bytes ℤ → Option (Map Bytes ℤ)
unfolding lookup insert
find_counts s [] counts = some counts
find_counts s (t ∷ ts) counts = elim (lookup t s.topics) [
  | none ↦ none
  | some tm ↦ find_counts s ts (insert t tm.partition_count counts)
]

count_partitions-quiet :
    (s : MetadataState) (hb : Heartbeats) (ts : List Bytes) (counts : Map Bytes ℤ)
    → count_partitions ts counts (quiet s hb) ≡ elim (find_counts s ts counts) [
      | none ↦ (err err_not_found, quiet s hb)
      | some counts' ↦ (ok counts', quiet s hb)
    ]
unfolding count_partitions find_counts
count_partitions-quiet s hb [] counts = refl
count_partitions-quiet s hb (t ∷ ts) counts = elim (Option-cases (lookup t s.topics)) [
  | inl q ↦ rw (find_topic-quiet s hb t, q) refl
  | inr (tm, q) ↦
      rw (find_topic-quiet s hb t, q)
        (count_partitions-quiet s hb ts (insert t tm.partition_count counts))
]

omit-range_assign :
    (m : Bytes) (ms ts : List Bytes) (counts : Map Bytes ℤ)
    → omit_empty (some (range_assign (m ∷ ms) ts counts)) ≡ some (range_assign (m ∷ ms) ts counts)
unfolding keys
omit-range_assign m ms ts counts =
    go (range_assign (m ∷ ms) ts counts) (range_assign-IsCons m ms ts counts)
  where
    go : (a : Assignment) → IsCons (keys a) → omit_empty (some a) ≡ some a
    go [] h = elim h [ ]
    go (x ∷ a) h = refl

module _ (config : GroupCoordinatorConfig) (fresh : Bytes) (started heard : ℤ) (s : MetadataState)
    (hb : Heartbeats) (req : JoinGroupRequest) where
  abbrev pub the_id : Bytes
  the_id = chosen_id fresh req.member_id

  abbrev pub old_group : GroupState
  old_group = or_else (lookup req.group_id s.group_states) (new_group_state req.group_id)

  -- The group after a join that found `counts`.
  abbrev pub joined_group : Map Bytes ℤ → GroupState
  joined_group counts = record old_group {
    members =
        insert the_id
          (record {
            member_id = the_id;
            subscribed_topics = req.topics;
            session_timeout_ms = req.session_timeout_ms;
            heartbeat_interval_ms = req.heartbeat_interval_ms;
            joined_at = started;
          })
          old_group.members;
    assignments = range_assign (the_id ∷ other_ids the_id old_group.members) req.topics counts;
    generation_id = next_generation old_group.generation_id;
  }

  abbrev pub joined_world : Map Bytes ℤ → World
  joined_world counts =
      quiet (put_group_state s req.group_id (joined_group counts))
        (touch req.group_id the_id heard hb)

  abbrev pub join_response : Map Bytes ℤ → JoinGroupResponse
  join_response counts = record {
    member_id = the_id;
    generation_id = next_generation old_group.generation_id;
    assignments = or_else (lookup the_id (joined_group counts).assignments) [];
  }

  members_of-old : members_of (lookup req.group_id s.group_states) ≡ old_group.members
  members_of-old = go (lookup req.group_id s.group_states)
    where
      go :
          (o : Option GroupState)
          → members_of o ≡ (or_else o (new_group_state req.group_id)).members
      go none = refl
      go (some g) = refl

  propose_join :
      (counts : Map Bytes ℤ)
      → propose
          (record (no_command join_consumer_group) {
            join_consumer_group =
                some (join_command config fresh started heard req the_id counts old_group.members);
          })
          (quiet s hb)
        ≡ (ok tt, quiet (put_group_state s req.group_id (joined_group counts)) hb)
  unfolding apply_command apply_type transport_command apply_join_consumer_group
      apply_group_state_join
  propose_join counts =
      rw
        (
          propose-quiet,
          omit-range_assign the_id (other_ids the_id old_group.members) req.topics counts,
        )
        refl

  found_after :
      (counts : Map Bytes ℤ)
      → find_group req.group_id (quiet (put_group_state s req.group_id (joined_group counts)) hb)
        ≡ (
          ok (some (joined_group counts)),
          quiet (put_group_state s req.group_id (joined_group counts)) hb,
        )
  found_after counts =
      rw (find_group-quiet, lookup-insert_self req.group_id (joined_group counts) s.group_states)
        refl

  join_members-quiet :
      (counts : Map Bytes ℤ)
      → join_members config fresh started heard req the_id counts old_group.members (quiet s hb)
        ≡ (ok (join_response counts), joined_world counts)
  unfolding join_members
  join_members-quiet counts = ground (arith, propose_join counts, found_after counts)

  abbrev JoinReply : Type 0
  JoinReply = Reply JoinGroupResponse × World

  join_group-quiet : join_group config fresh started heard req (quiet s hb) ≡ (
      if in_range config fresh started heard req.session_timeout_ms
      then elim (find_counts s req.topics []) [
        | none ↦ (err err_not_found, quiet s hb)
        | some counts ↦
            if first_matches old_group.members req.topics
            then (ok (join_response counts), joined_world counts)
            else (err err_invalid_argument, quiet s hb)
      ]
      else (err err_invalid_argument, quiet s hb))
  unfolding join_group
  join_group-quiet = elim (Option-cases (find_counts s req.topics [])) [
    | inl q ↦ ground (arith, q, count_partitions-quiet s hb req.topics [])
    | inr (counts, q) ↦ ground (
      arith,
      q,
      count_partitions-quiet s hb req.topics [],
      find_group-quiet s hb req.group_id,
      members_of-old,
      join_members-quiet counts,
    )
  ]

  abbrev Refused : JoinReply → Type 0
  Refused r = (x : GroupError) × (r ≡ (err x, quiet s hb))

  abbrev Accepted : JoinReply → Type 0
  Accepted r =
      (counts : Map Bytes ℤ) × (in_range config fresh started heard req.session_timeout_ms ≡ true)
      × (find_counts s req.topics [] ≡ some counts)
      × (first_matches old_group.members req.topics ≡ true)
      × (r ≡ (ok (join_response counts), joined_world counts))

  pub join_group_cases :
      ((x : GroupError) × (join_group config fresh started heard req (quiet s hb)
          ≡ (err x, quiet s hb)))
      ⊎ ((counts : Map Bytes ℤ) × (in_range config fresh started heard req.session_timeout_ms
            ≡ true)
          × (find_counts s req.topics [] ≡ some counts)
          × (first_matches old_group.members req.topics ≡ true)
          × (join_group config fresh started heard req (quiet s hb)
              ≡ (ok (join_response counts), joined_world counts)))
  join_group_cases =
      subst (λ r. Refused r ⊎ Accepted r) (sym join_group-quiet)
        (if_rule (λ r. Refused r ⊎ Accepted r)
          (in_range config fresh started heard req.session_timeout_ms)
          (λ ranged.
            option_rule (λ r. Refused r ⊎ Accepted r) (find_counts s req.topics [])
              (λ _. inl (_, refl))
              (λ counts found.
                if_rule (λ r. Refused r ⊎ Accepted r) (first_matches old_group.members req.topics)
                  (λ matches. inr (counts, ranged, found, matches, refl)) (λ _. inl (_, refl))))
          (λ _. inl (_, refl)))
