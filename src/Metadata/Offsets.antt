-- ===== src/Metadata/Offsets.antt =====
-- Committed offsets: what a fetch returns after a commit.
use mathlib.Core.List.{Memᴰ}
use bunnymq.Prelude.{
  ℤ, negsuc, ◌≡◌, refl, sym, ◌∙◌, Option, none, some, List, [], ◌∷◌, arith, Option-cases, inl, inr,
  Bool-cases, subst, ap,
}
use bunnymq.Prelude.Keys.{Bytes, bytes-Eq}
use bunnymq.Prelude.Maps.{Map, lookup, insert, lookup-insert, lookup-insert_self, lookup-insert_ne}
use bunnymq.Prelude.Distinct.{Distinct}
use bunnymq.Metadata.Types.{TopicPartition, key_eq, key_eq_iff, key-Eq, GroupState, MetadataState}
use bunnymq.Metadata.Lookup.{missing_offsets, found_offsets, lookup_group_offsets}

-- The offset of a partition, -1 where none is committed.
abbrev pub offset_or : Option ℤ → ℤ → ℤ
offset_or none d = d
offset_or (some z) d = z

missing_keeps :
    (tp : TopicPartition) (tps : List TopicPartition) (r : Map TopicPartition ℤ)
    → lookup tp r ≡ some (negsuc 0)
    → lookup tp (missing_offsets tps r) ≡ some (negsuc 0)
unfolding missing_offsets
missing_keeps tp [] r h = h
missing_keeps tp (x ∷ xs) r h =
    missing_keeps tp xs _ (ground (arith, lookup-insert x tp (negsuc 0) r))

lookup-missing :
    {tp : TopicPartition} {tps : List TopicPartition} (r : Map TopicPartition ℤ)
    → Memᴰ tp tps
    → lookup tp (missing_offsets tps r) ≡ some (negsuc 0)
unfolding missing_offsets
lookup-missing {tp} r (Memᴰ.head {x = x} {xs = xs} e) =
    missing_keeps tp xs _ (rw e (lookup-insert_self x (negsuc 0) r))
lookup-missing r (Memᴰ.tail {x = x} h) = lookup-missing (insert x (negsuc 0) r) h

module _ (offsets : Map TopicPartition ℤ) (tp : TopicPartition) where
  abbrev step : TopicPartition → Map TopicPartition ℤ → Map TopicPartition ℤ
  step x r = elim (lookup x offsets) [ none ↦ r | some o ↦ insert x o r ]

  step-none :
      (x : TopicPartition) (r : Map TopicPartition ℤ)
      → lookup tp offsets ≡ none
      → lookup tp (step x r) ≡ lookup tp r
  step-none x r h = elim (Option-cases (lookup x offsets)) [
    | inl q ↦ rw (q, step) refl
    | inr (o, q) ↦
        rw (q, step)
          (lookup-insert_ne x tp o r (λ e. apart (sym h ∙ ap (λ k. lookup k offsets) (sym e) ∙ q)))
  ]
    where
      apart : {o : ℤ} → none ≡ some o → ⊥
      apart p = cc

  found_none :
      (tps : List TopicPartition) (r : Map TopicPartition ℤ)
      → lookup tp offsets ≡ none
      → lookup tp (found_offsets offsets tps r) ≡ lookup tp r
  unfolding found_offsets
  found_none [] r h = refl
  found_none (x ∷ xs) r h = found_none xs (step x r) h ∙ step-none x r h

  step-some :
      (x : TopicPartition) (r : Map TopicPartition ℤ) {z : ℤ}
      → lookup tp offsets ≡ some z
      → lookup tp r ≡ some z
      → lookup tp (step x r) ≡ some z
  step-some x r {z} h g = elim (Bool-cases (key_eq x tp)) [
    | inl p ↦
        subst (λ k. lookup tp (step k r) ≡ some z) (sym ((key_eq_iff x tp).0 p))
          (rw (h, step) (lookup-insert_self tp z r))
    | inr p ↦ elim (Option-cases (lookup x offsets)) [
      | inl q ↦ rw (q, step) g
      | inr (o, q) ↦
          rw (q, step) (lookup-insert_ne x tp o r (λ x=tp. ground (arith, key_eq_iff x tp)) ∙ g)
    ]
  ]

  found_keeps :
      (tps : List TopicPartition) (r : Map TopicPartition ℤ) {z : ℤ}
      → lookup tp offsets ≡ some z
      → lookup tp r ≡ some z
      → lookup tp (found_offsets offsets tps r) ≡ some z
  unfolding found_offsets
  found_keeps [] r h g = g
  found_keeps (x ∷ xs) r h g = found_keeps xs (step x r) h (step-some x r h g)

  found_some :
      {tps : List TopicPartition} (r : Map TopicPartition ℤ) {z : ℤ}
      → Memᴰ tp tps
      → lookup tp offsets ≡ some z
      → lookup tp (found_offsets offsets tps r) ≡ some z
  unfolding found_offsets
  found_some r {z} (Memᴰ.head {x = x} {xs = xs} same) h =
      found_keeps xs (step x r) h
        (subst (λ k. lookup tp (step k r) ≡ some z) same (rw (h, step) (lookup-insert_self tp z r)))
  found_some r (Memᴰ.tail {x = x} m) h = found_some (step x r) m h

-- A query of the offsets of a group that exists answers every requested partition, with its
-- committed offset, or with -1 where there is none.
pub lookup_group_offsets-at :
    (s : MetadataState) (id : Bytes) (g : GroupState) (tps : List TopicPartition)
    (tp : TopicPartition)
    → lookup id s.group_states ≡ some g
    → Memᴰ tp tps
    → lookup tp (lookup_group_offsets s id tps) ≡ some (offset_or (lookup tp g.offsets) (negsuc 0))
unfolding lookup_group_offsets
lookup_group_offsets-at s id g tps tp there m = elim (Option-cases (lookup tp g.offsets)) [
  | inl q ↦
      rw (there, q, lookup_group_offsets) (found_none g.offsets tp tps _ q ∙ lookup-missing [] m)
  | inr (z, q) ↦ rw (there, q, lookup_group_offsets) (found_some g.offsets tp _ m q)
]
