-- ===== src/Prelude/Distinct.antt =====
-- Lists without repetition, and membership with its position.
use mathlib.Core.List.{Memᴰ, Permᴰ}
use mathlib.Core.Path.{◌≡◌, refl, sym, ap, subst, ◌∙◌}
use mathlib.Core.Logic.{◌≢◌, ◌⊎◌, inl, inr}
use mathlib.Core.Option.{some}
use mathlib.Core.List.{List, [], ◌∷◌, ◌++◌, map}
use Prim.Native.Nat.{ℕ, zero, suc, ◌<◌}
use native.Mathlib.Omega.{arith}
use bunnymq.Prelude.Lists.{length, get_elem?, All}

module _ {ℓ} {A : Type ℓ} where
  abbrev pub Distinct : List A → Type ℓ
  Distinct [] = Unit
  Distinct (x ∷ xs) = All (λ y. x ≢ y) xs × Distinct xs

  pub All-perm {κ} : (P : A → Type κ) {l m : List A} → Permᴰ l m → All P l → All P m
  All-perm P Permᴰ.nil h = h
  All-perm P (Permᴰ.cons e p) (h, t) = (subst P e h, All-perm P p t)
  All-perm P (Permᴰ.swap e f) (h, (k, t)) = (subst P f k, (subst P e h, t))
  All-perm P (Permᴰ.trans p q) h = All-perm P q (All-perm P p h)

  pub All-map {κ μ} :
      (P : A → Type κ) (Q : A → Type μ) (l : List A) → ((a : A) → P a → Q a) → All P l → All Q l
  All-map P Q [] f h = tt
  All-map P Q (x ∷ xs) f (h, t) = (f x h, All-map P Q xs f t)

  pub Distinct-perm : {l m : List A} → Permᴰ l m → Distinct l → Distinct m
  Distinct-perm Permᴰ.nil h = h
  Distinct-perm (Permᴰ.cons {a = x} {b = y} {l₁ = l} e p) (h, t) = (
    All-perm (λ z. y ≢ z) p (All-map (λ z. x ≢ z) (λ z. y ≢ z) l (λ z n q. n (e ∙ q)) h),
    Distinct-perm p t,
  )
  Distinct-perm (Permᴰ.swap {a = x} {b = y} {a' = x'} {b' = y'} {l = l} e f) ((n, h), (k, t)) = (
    (λ q. n (e ∙ sym q ∙ sym f), All-map (λ z. y ≢ z) (λ z. x' ≢ z) l (λ z m q. m (f ∙ q)) k),
    (All-map (λ z. x ≢ z) (λ z. y' ≢ z) l (λ z m q. m (e ∙ q)) h, t),
  )
  Distinct-perm (Permᴰ.trans p q) h = Distinct-perm q (Distinct-perm p h)

  some_path : {a b : A} → some a ≡ some b → a ≡ b
  some_path p = cc

  pub All-at {κ} :
      (P : A → Type κ) (l : List A) (i : ℕ) {a : A} → All P l → get_elem? l i ≡ some a → P a
  All-at P [] i h e = cc
  All-at P (x ∷ xs) zero h e = subst P (some_path e) h.0
  All-at P (x ∷ xs) (suc i) h e = All-at P xs i h.1 e

  -- The position of a member.
  pub index_of :
      {a : A} {l : List A} → Memᴰ a l → (i : ℕ) × (i < length l) × (get_elem? l i ≡ some a)
  index_of (Memᴰ.head e) = (0, omega arith, cc)
  index_of (Memᴰ.tail m) = let (i, h, e) = index_of m in (suc i, omega arith, e)

  pub at_mem : (l : List A) (i : ℕ) {a : A} → get_elem? l i ≡ some a → Memᴰ a l
  at_mem [] i e = cc
  at_mem (x ∷ xs) zero e = Memᴰ.head (cc)
  at_mem (x ∷ xs) (suc i) e = Memᴰ.tail (at_mem xs i e)

  pub at_exists : (l : List A) (i : ℕ) → i < length l → (a : A) × (get_elem? l i ≡ some a)
  at_exists [] i h = elim h [ ]
  at_exists (x ∷ xs) zero h = (x, refl)
  at_exists (x ∷ xs) (suc i) h = at_exists xs i (omega arith)

  pub at-lt : (l : List A) (i : ℕ) {a : A} → get_elem? l i ≡ some a → i < length l
  at-lt [] i e = cc
  at-lt (x ∷ xs) zero e = omega arith
  at-lt (x ∷ xs) (suc i) e = omega (arith, at-lt xs i e)

  pub Mem-perm : {a : A} {l m : List A} → Permᴰ l m → Memᴰ a l → Memᴰ a m
  Mem-perm Permᴰ.nil h = h
  Mem-perm (Permᴰ.cons e p) (Memᴰ.head q) = Memᴰ.head (q ∙ e)
  Mem-perm (Permᴰ.cons e p) (Memᴰ.tail h) = Memᴰ.tail (Mem-perm p h)
  Mem-perm (Permᴰ.swap e f) (Memᴰ.head q) = Memᴰ.tail (Memᴰ.head (q ∙ e))
  Mem-perm (Permᴰ.swap e f) (Memᴰ.tail (Memᴰ.head q)) = Memᴰ.head (q ∙ f)
  Mem-perm (Permᴰ.swap e f) (Memᴰ.tail (Memᴰ.tail h)) = Memᴰ.tail (Memᴰ.tail h)
  Mem-perm (Permᴰ.trans p q) h = Mem-perm q (Mem-perm p h)

  pub Mem-append_left : {a : A} {l : List A} (m : List A) → Memᴰ a l → Memᴰ a (l ++ m)
  Mem-append_left m (Memᴰ.head e) = Memᴰ.head e
  Mem-append_left m (Memᴰ.tail h) = Memᴰ.tail (Mem-append_left m h)

  pub Mem-append_right : {a : A} (l : List A) {m : List A} → Memᴰ a m → Memᴰ a (l ++ m)
  Mem-append_right [] h = h
  Mem-append_right (x ∷ xs) h = Memᴰ.tail (Mem-append_right xs h)

  pub Mem-append : {a : A} (l : List A) {m : List A} → Memᴰ a (l ++ m) → Memᴰ a l ⊎ Memᴰ a m
  Mem-append [] h = inr h
  Mem-append (x ∷ xs) (Memᴰ.head e) = inl (Memᴰ.head e)
  Mem-append (x ∷ xs) (Memᴰ.tail h) = elim (Mem-append xs h) [
    | inl k ↦ inl (Memᴰ.tail k)
    | inr k ↦ inr k
  ]

  pub All-mem {κ} : (P : A → Type κ) {a : A} {l : List A} → All P l → Memᴰ a l → P a
  All-mem P h (Memᴰ.head e) = subst P (sym e) h.0
  All-mem P h (Memᴰ.tail m) = All-mem P h.1 m

  -- A value stands at one position only.
  pub Distinct-index :
      (l : List A) (i j : ℕ) {a : A}
      → Distinct l
      → get_elem? l i ≡ some a
      → get_elem? l j ≡ some a
      → i ≡ j
  Distinct-index [] i j d e f = cc
  Distinct-index (x ∷ xs) zero zero d e f = refl
  Distinct-index (x ∷ xs) zero (suc j) d e f = absurd (All-at _ xs j d.0 f (some_path e))
  Distinct-index (x ∷ xs) (suc i) zero d e f = absurd (All-at _ xs i d.0 e (some_path f))
  Distinct-index (x ∷ xs) (suc i) (suc j) d e f = ap suc (Distinct-index xs i j d.1 e f)

  pub length-perm : {l m : List A} → Permᴰ l m → length l ≡ length m
  length-perm Permᴰ.nil = refl
  length-perm (Permᴰ.cons e p) = ap suc (length-perm p)
  length-perm (Permᴰ.swap {l = l} e f) = refl
  length-perm (Permᴰ.trans p q) = length-perm p ∙ length-perm q

module _ {ℓ κ} {A : Type ℓ} {B : Type κ} (f : A → B) where
  pub map-perm : {l m : List A} → Permᴰ l m → Permᴰ (map f l) (map f m)
  map-perm Permᴰ.nil = Permᴰ.nil
  map-perm (Permᴰ.cons e p) = Permᴰ.cons (ap f e) (map-perm p)
  map-perm (Permᴰ.swap e g) = Permᴰ.swap (ap f e) (ap f g)
  map-perm (Permᴰ.trans p q) = Permᴰ.trans (map-perm p) (map-perm q)
