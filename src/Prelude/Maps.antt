-- ===== src/Prelude/Maps.antt =====
-- Go maps as association lists. The order of a Go map's entries is unspecified; here it is that
-- of the list, and what depends on it is proved to be the same for every permutation.
use mathlib.Core.Path.{◌≡◌, refl}
use mathlib.Core.Logic.{◌≢◌, ◌⊎◌, inl, inr}
use mathlib.Core.Option.{Option, none, some}
use mathlib.Core.List.{List, [], ◌∷◌}
use native.Mathlib.Omega.{arith}
use bunnymq.Prelude.Tests.{if◌then◌else◌, Option-cases}
use bunnymq.Prelude.Keys.{Eq}

abbrev pub Map {ℓ κ} : Type ℓ → Type κ → Type (ℓ ⊔ κ)
Map K V = List (K × V)

module _ {ℓ κ} {K : Type ℓ} {V : Type κ} ⦃e : Eq K⦄ where
  -- m[k], with `none` for a missing key
  unfoldable pub lookup : K → Map K V → Option V
  lookup k [] = none
  lookup k ((j, v) ∷ m) = if e.beq j k then some v else lookup k m

  -- delete(m, k)
  unfoldable pub delete : K → Map K V → Map K V
  delete k [] = []
  delete k ((j, v) ∷ m) = let rest = delete k m in if e.beq j k then rest else (j, v) ∷ rest

  -- m[k] = v
  unfoldable pub insert : K → V → Map K V → Map K V
  unfolding delete
  insert k v m = (k, v) ∷ delete k m

  -- m[k].f = x, at a key that is there: the value behind the pointer changes
  unfoldable pub modify : K → (V → V) → Map K V → Map K V
  modify k f [] = []
  modify k f ((j, v) ∷ m) = (j, if e.beq j k then f v else v) ∷ modify k f m

  pub lookup-delete :
      (k j : K) (m : Map K V) → lookup j (delete k m) ≡ (if e.beq k j then none else lookup j m)
  unfolding lookup delete
  lookup-delete k j [] = ground arith
  lookup-delete k j ((i, v) ∷ m) =
      ground (arith, lookup-delete k j m, e.beq_iff i k, e.beq_iff i j, e.beq_iff k j)

  pub lookup-insert :
      (k j : K) (v : V) (m : Map K V)
      → lookup j (insert k v m) ≡ (if e.beq k j then some v else lookup j m)
  unfolding lookup insert
  lookup-insert k j v m = ground (arith, lookup-delete k j m)

  pub lookup-modify :
      (k j : K) (f : V → V) (m : Map K V)
      → lookup j (modify k f m) ≡ (
          if e.beq k j then elim (lookup j m) [ none ↦ none | some v ↦ some (f v) ] else lookup j m)
  unfolding lookup modify
  lookup-modify k j f [] = ground arith
  lookup-modify k j f ((i, v) ∷ m) =
      ground (arith, lookup-modify k j f m, e.beq_iff i k, e.beq_iff i j, e.beq_iff k j)

  pub lookup-modify_self :
      (k : K) (f : V → V) (m : Map K V) {v : V}
      → lookup k m ≡ some v
      → lookup k (modify k f m) ≡ some (f v)
  lookup-modify_self k f m h = ground (arith, lookup-modify k k f m, e.beq_iff k k)

  pub lookup-modify_ne :
      (k j : K) (f : V → V) (m : Map K V) → k ≢ j → lookup j (modify k f m) ≡ lookup j m
  lookup-modify_ne k j f m h = ground (arith, lookup-modify k j f m, e.beq_iff k j)

  pub lookup-insert_self : (k : K) (v : V) (m : Map K V) → lookup k (insert k v m) ≡ some v
  lookup-insert_self k v m = ground (arith, lookup-insert k k v m, e.beq_iff k k)

  pub lookup-insert_ne :
      (k j : K) (v : V) (m : Map K V) → k ≢ j → lookup j (insert k v m) ≡ lookup j m
  lookup-insert_ne k j v m h = ground (arith, lookup-insert k j v m, e.beq_iff k j)

  pub lookup-delete_self : (k : K) (m : Map K V) → lookup k (delete k m) ≡ none
  lookup-delete_self k m = ground (arith, lookup-delete k k m, e.beq_iff k k)

  pub lookup-delete_ne : (k j : K) (m : Map K V) → k ≢ j → lookup j (delete k m) ≡ lookup j m
  lookup-delete_ne k j m h = ground (arith, lookup-delete k j m, e.beq_iff k j)

  -- A value that is found after a change was there before, as it is or about to be changed.
  pub modify_back :
      (k j : K) (f : V → V) (m : Map K V) {w : V}
      → lookup j (modify k f m) ≡ some w
      → (v : V) × (lookup j m ≡ some v) × ((w ≡ v) ⊎ (w ≡ f v))
  modify_back k j f m h = elim (Option-cases (lookup j m)) [
    | inl q ↦ absurd (ground (arith, lookup-modify k j f m))
    | inr (v, q) ↦ (v, q, ground (arith, lookup-modify k j f m))
  ]

  pub modify_forth :
      (k j : K) (f : V → V) (m : Map K V) {v : V}
      → lookup j m ≡ some v
      → (w : V) × (lookup j (modify k f m) ≡ some w)
  modify_forth k j f m {v} h = (if e.beq k j then f v else v, ground (arith, lookup-modify k j f m))

-- The keys, in the order of iteration.
unfoldable pub keys {ℓ κ} : {K : Type ℓ} {V : Type κ} → Map K V → List K
keys [] = []
keys ((k, v) ∷ m) = k ∷ keys m

pub keys-modify {ℓ κ} :
    {K : Type ℓ} {V : Type κ} ⦃e : Eq K⦄ (k : K) (f : V → V) (m : Map K V)
    → keys (modify k f m) ≡ keys m
unfolding keys modify
keys-modify k f [] = refl
keys-modify k f ((j, v) ∷ m) = rw (keys-modify k f m)
