-- ===== src/Prelude/Lists.antt =====
-- Lists measured by native numbers and filtered by Boolean tests, and predicates over them.
use Prim.Native.Nat.{ℕ, zero, suc, ◌+◌, ◌≤◌}
use mathlib.Core.Path.{◌≡◌, refl, sym, subst}
use mathlib.Core.Logic.{inl, inr}
use mathlib.Core.Bool.{Bool, true, false, ◌&&◌, ◌||◌}
use mathlib.Core.Option.{Option, none, some}
use mathlib.Core.List.{List, [], ◌∷◌, ◌++◌, Memᴰ}
use native.Mathlib.Omega.{arith}
use openclaw_wave_runner.Prelude.Tests.{if◌then◌else◌, Bool-cases}

module _ {ℓ} {A : Type ℓ} where
  abbrev pub length : List A → ℕ
  length [] = 0
  length (x ∷ xs) = suc (length xs)

  abbrev pub take : ℕ → List A → List A
  take zero xs = []
  take (suc n) [] = []
  take (suc n) (x ∷ xs) = x ∷ take n xs

  pub length-take-le : (n : ℕ) (xs : List A) → length (take n xs) ≤ n
  length-take-le zero xs = omega arith
  length-take-le (suc n) [] = omega arith
  length-take-le (suc n) (x ∷ xs) = omega (arith, length-take-le n xs)

  -- `xs.filter(p)`
  unfoldable pub filter : (A → Bool) → List A → List A
  filter p [] = []
  filter p (x ∷ xs) = let rest = filter p xs in if p x then x ∷ rest else rest

  -- `xs.some(p)`
  unfoldable pub any : (A → Bool) → List A → Bool
  any p [] = false
  any p (x ∷ xs) = p x || any p xs

  -- `xs.every(p)`
  unfoldable pub all : (A → Bool) → List A → Bool
  all p [] = true
  all p (x ∷ xs) = p x && all p xs

  -- `xs.find(p)`
  unfoldable pub find? : (A → Bool) → List A → Option A
  find? p [] = none
  find? p (x ∷ xs) = if p x then some x else find? p xs

  pub length-append : (xs ys : List A) → length (xs ++ ys) ≡ length xs + length ys
  length-append [] ys = omega arith
  length-append (x ∷ xs) ys = omega (arith, length-append xs ys)

  -- What holds of every element; it computes to a tuple.
  abbrev pub All {κ} : (A → Type κ) → List A → Type κ
  All P [] = Unit
  All P (x ∷ xs) = P x × All P xs

module _ {ℓ κ} {A : Type ℓ} (P : A → Type κ) where
  pub All-append : (xs ys : List A) → All P xs → All P ys → All P (xs ++ ys)
  All-append [] ys hx hy = hy
  All-append (x ∷ xs) ys hx hy = (hx.0, All-append xs ys hx.1 hy)

  pub All-intro : ((a : A) → P a) → (xs : List A) → All P xs
  All-intro h [] = tt
  All-intro h (x ∷ xs) = (h x, All-intro h xs)

  pub All-mem : {a : A} (xs : List A) → All P xs → Memᴰ a xs → P a
  All-mem [] h m = elim m [ ]
  All-mem (x ∷ xs) h (Memᴰ.head e) = subst P (sym e) h.0
  All-mem (x ∷ xs) h (Memᴰ.tail m) = All-mem xs h.1 m

  pub All-of_mem : (xs : List A) → ((a : A) → Memᴰ a xs → P a) → All P xs
  All-of_mem [] h = tt
  All-of_mem (x ∷ xs) h = (h x (Memᴰ.head refl), All-of_mem xs (λ a m. h a (Memᴰ.tail m)))

module _ {ℓ} {A : Type ℓ} (p : A → Bool) where
  pub any-true : (xs : List A) → any p xs ≡ true → (a : A) × Memᴰ a xs × (p a ≡ true)
  unfolding any
  any-true [] h = cc
  any-true (x ∷ xs) h = elim (Bool-cases (p x)) [
    | inl e ↦ (x, Memᴰ.head refl, e)
    | inr e ↦ let (a, m, q) = any-true xs (ground arith) in (a, Memᴰ.tail m, q)
  ]

  pub any-false : {a : A} (xs : List A) → any p xs ≡ false → Memᴰ a xs → p a ≡ false
  unfolding any
  any-false [] h m = elim m [ ]
  any-false (x ∷ xs) h (Memᴰ.head e) = ground arith
  any-false (x ∷ xs) h (Memᴰ.tail m) = any-false xs (ground arith) m

  pub all-true : {a : A} (xs : List A) → all p xs ≡ true → Memᴰ a xs → p a ≡ true
  unfolding all
  all-true [] h m = elim m [ ]
  all-true (x ∷ xs) h (Memᴰ.head e) = ground arith
  all-true (x ∷ xs) h (Memᴰ.tail m) = all-true xs (ground arith) m

  pub find?-some : {a : A} (xs : List A) → find? p xs ≡ some a → Memᴰ a xs × (p a ≡ true)
  unfolding find?
  find?-some [] h = cc
  find?-some (x ∷ xs) h = elim (Bool-cases (p x)) [
    | inl e ↦ (Memᴰ.head (ground arith), ground arith)
    | inr e ↦ let (m, q) = find?-some xs (ground arith) in (Memᴰ.tail m, q)
  ]

  pub mem-filter : {a : A} (xs : List A) → Memᴰ a (filter p xs) → Memᴰ a xs × (p a ≡ true)
  unfolding filter
  mem-filter [] m = elim m [ ]
  mem-filter {a} (x ∷ xs) m = elim (Bool-cases (p x)) [
    | inl e ↦ kept e (mem-filter xs) (rw e at m)
    | inr e ↦ let (k, q) = mem-filter xs (rw e at m) in (Memᴰ.tail k, q)
  ]
    where
      kept :
          p x ≡ true
          → (Memᴰ a (filter p xs) → Memᴰ a xs × (p a ≡ true))
          → Memᴰ a (x ∷ filter p xs)
          → Memᴰ a (x ∷ xs) × (p a ≡ true)
      kept e rec (Memᴰ.head q) = (Memᴰ.head q, ground arith)
      kept e rec (Memᴰ.tail k) = let (m, q) = rec k in (Memᴰ.tail m, q)

pub filter-mem {ℓ} :
    {A : Type ℓ} (p : A → Bool) {a : A} (xs : List A)
    → Memᴰ a xs
    → p a ≡ true
    → Memᴰ a (filter p xs)
unfolding filter
filter-mem p [] m h = m
filter-mem p {a} (x ∷ xs) m h = elim (Bool-cases (p x)) [
  | inl e ↦ rw e (kept (filter-mem p {a = a} xs) m)
  | inr e ↦ rw e (skipped (filter-mem p {a = a} xs) e m)
]
  where
    kept :
        (Memᴰ a xs → p a ≡ true → Memᴰ a (filter p xs)) → Memᴰ a (x ∷ xs) → Memᴰ a (x ∷ filter p xs)
    kept rec (Memᴰ.head q) = Memᴰ.head q
    kept rec (Memᴰ.tail k) = Memᴰ.tail (rec k h)

    skipped :
        (Memᴰ a xs → p a ≡ true → Memᴰ a (filter p xs))
        → p x ≡ false
        → Memᴰ a (x ∷ xs)
        → Memᴰ a (filter p xs)
    skipped rec e (Memᴰ.head q) = absurd (ground arith)
    skipped rec e (Memᴰ.tail k) = rec k h

pub All-map {ℓ κ μ} :
    {A : Type ℓ} {P : A → Type κ} {Q : A → Type μ} (xs : List A)
    → ((a : A) → P a → Q a)
    → All P xs
    → All Q xs
All-map [] f h = tt
All-map (x ∷ xs) f h = (f x h.0, All-map xs f h.1)
