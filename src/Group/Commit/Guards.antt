-- ===== src/Group/Commit/Guards.antt =====
-- What a commit of offsets demands, and what it leaves.
use mathlib.Core.List.{Memᴰ}
use bunnymq.Prelude.{
  ℤ, none, some, List, [], ◌∷◌, ◌≡◌, refl, sym, arith, All, ◌⊎◌, inl, inr, true, eqb_ℤ, eqb_ℤ_iff,
  if◌then◌else◌, if_rule, option_rule, Bool-cases, subst,
}
use bunnymq.Prelude.Keys.{Bytes, bytes-Eq}
use bunnymq.Prelude.Maps.{Map, lookup, keys}
use bunnymq.Metadata.Types.{
  TopicPartition, key_eq, key_eq_iff, MetadataState, CommitConsumerOffsetCmd, GroupState,
  MemberState,
}
use bunnymq.Metadata.Groups.{or_else, apply_commit_consumer_offset}
use bunnymq.Metadata.Machine.{apply_command, apply_type}
use bunnymq.Group.World.{
  World, Heartbeats, GroupError, err_not_group_member, err_stale_generation, err_invalid_argument,
  Reply, ok, err, transport_command, omit_empty,
}
use bunnymq.Group.Quiet.{quiet, find_group-quiet, propose-quiet}
use bunnymq.Group.Commit.{is_assigned, all_assigned, commit_offset}

is_assigned→Mem :
    (tp : TopicPartition) (l : List TopicPartition) → is_assigned tp l ≡ true → Memᴰ tp l
unfolding is_assigned
is_assigned→Mem tp [] h = ground arith
is_assigned→Mem tp (x ∷ xs) h = elim (Bool-cases (key_eq x tp)) [
  | inl p ↦ Memᴰ.head (sym ((key_eq_iff x tp).0 p))
  | inr p ↦ Memᴰ.tail (is_assigned→Mem tp xs (ground arith))
]

assigned_each :
    (assigned : List TopicPartition) (offsets : Map TopicPartition ℤ)
    → all_assigned assigned offsets ≡ true
    → All (λ tp. Memᴰ tp assigned) (keys offsets)
unfolding all_assigned keys
assigned_each assigned [] h = tt
assigned_each assigned ((tp, z) ∷ offsets) h =
    (is_assigned→Mem tp assigned (ground arith), assigned_each assigned offsets (ground arith))

abbrev pub sent : Bytes → Map TopicPartition ℤ → CommitConsumerOffsetCmd
sent g offsets = record { group_id = g; offsets = []; group_offsets = omit_empty (some offsets) }

module _ (s : MetadataState) (hb : Heartbeats) (g m : Bytes) (gen : ℤ)
    (offsets : Map TopicPartition ℤ) where
  commit_offset-quiet :
      commit_offset g m gen offsets (quiet s hb) ≡ elim (lookup g s.group_states) [
        | none ↦ (err err_not_group_member, quiet s hb)
        | some group ↦ elim (lookup m group.members) [
          | none ↦ (err err_not_group_member, quiet s hb)
          | some ms ↦
              if eqb_ℤ gen group.generation_id
              then (if all_assigned (or_else (lookup m group.assignments) []) offsets
                  then (ok tt, quiet (apply_commit_consumer_offset s (sent g offsets)).0 hb)
                  else (err err_invalid_argument, quiet s hb))
              else (err err_stale_generation, quiet s hb)
        ]
      ]
  unfolding commit_offset apply_command apply_type transport_command
  commit_offset-quiet = ground (arith, find_group-quiet s hb g, propose-quiet s hb)

  -- What a commit demands of the state: a group, a membership, the group's generation, and that
  -- each partition of the commit is assigned to the member.
  abbrev pub MayCommit : Type 0
  MayCommit =
      (group : GroupState) × (ms : MemberState) × (lookup g s.group_states ≡ some group)
      × (lookup m group.members ≡ some ms)
      × (gen ≡ group.generation_id)
      × All (λ tp. Memᴰ tp (or_else (lookup m group.assignments) [])) (keys offsets)

  abbrev Refused : Reply (Unit {0}) × World → Type 0
  Refused r = (x : GroupError) × (r ≡ (err x, quiet s hb))

  abbrev Accepted : Reply (Unit {0}) × World → Type 0
  Accepted r =
      MayCommit × (r ≡ (ok tt, quiet (apply_commit_consumer_offset s (sent g offsets)).0 hb))

  -- On a quiet world, a commit either is refused with an error and changes nothing, or the caller
  -- is a member of the group, names its generation and only partitions that are assigned to it,
  -- and then the reply is success and the state is that of the commit command.
  pub commit_offset_cases :
      ((x : GroupError) × (commit_offset g m gen offsets (quiet s hb) ≡ (err x, quiet s hb)))
      ⊎ (MayCommit
          × (commit_offset g m gen offsets (quiet s hb)
              ≡ (ok tt, quiet (apply_commit_consumer_offset s (sent g offsets)).0 hb)))
  commit_offset_cases =
      subst (λ r. Refused r ⊎ Accepted r) (sym commit_offset-quiet)
        (option_rule (λ r. Refused r ⊎ Accepted r) (lookup g s.group_states) (λ _. inl (_, refl))
          (λ group is_group.
            option_rule (λ r. Refused r ⊎ Accepted r) (lookup m group.members) (λ _. inl (_, refl))
              (λ ms is_member.
                if_rule (λ r. Refused r ⊎ Accepted r) (eqb_ℤ gen group.generation_id)
                  (λ same.
                    if_rule (λ r. Refused r ⊎ Accepted r)
                      (all_assigned (or_else (lookup m group.assignments) []) offsets)
                      (λ every. inr (
                        (
                          group,
                          ms,
                          is_group,
                          is_member,
                          (eqb_ℤ_iff gen group.generation_id).0 same,
                          assigned_each _ offsets every,
                        ),
                        refl,
                      ))
                      (λ _. inl (_, refl)))
                  (λ _. inl (_, refl)))))
