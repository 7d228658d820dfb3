-- ===== src/Prelude/Sorting.antt =====
-- `ORDER BY` a number: a stable insertion sort, and what it keeps.
use Prim.Native.Nat.{ℕ, ◌+◌}
use mathlib.Core.Path.{◌≡◌, refl}
use mathlib.Core.Logic.{inl, inr}
use mathlib.Core.List.{List, [], ◌∷◌, ◌++◌, Memᴰ}
use native.Mathlib.Omega.{arith}
use openclaw_wave_runner.Prelude.Tests.{leb, if◌then◌else◌, Bool-cases}

module _ {ℓ} {A : Type ℓ} (column : A → ℕ) where
  pub insert_by : A → List A → List A
  insert_by a [] = a ∷ []
  insert_by a (x ∷ xs) = if leb (column a) (column x) then a ∷ x ∷ xs else x ∷ insert_by a xs

  -- Rows with the same number stay in the order of their insertion.
  unfoldable pub order_by : List A → List A
  unfolding insert_by
  order_by [] = []
  order_by (x ∷ xs) = insert_by x (order_by xs)

  mem-insert_by : {b : A} (a : A) (xs : List A) → Memᴰ b (a ∷ xs) → Memᴰ b (insert_by a xs)
  unfolding insert_by
  mem-insert_by a [] m = m
  mem-insert_by {b} a (x ∷ xs) m = elim (Bool-cases (leb (column a) (column x))) [
    | inl e ↦ rw e m
    | inr e ↦ rw e (later (mem-insert_by {b = b} a xs) m)
  ]
    where
      later :
          (Memᴰ b (a ∷ xs) → Memᴰ b (insert_by a xs))
          → Memᴰ b (a ∷ x ∷ xs)
          → Memᴰ b (x ∷ insert_by a xs)
      later rec (Memᴰ.head p) = Memᴰ.tail (rec (Memᴰ.head p))
      later rec (Memᴰ.tail (Memᴰ.head p)) = Memᴰ.head p
      later rec (Memᴰ.tail (Memᴰ.tail n)) = Memᴰ.tail (rec (Memᴰ.tail n))

  mem_of_insert_by : {b : A} (a : A) (xs : List A) → Memᴰ b (insert_by a xs) → Memᴰ b (a ∷ xs)
  unfolding insert_by
  mem_of_insert_by a [] m = m
  mem_of_insert_by {b} a (x ∷ xs) m = elim (Bool-cases (leb (column a) (column x))) [
    | inl e ↦ rw e at m
    | inr e ↦ later (mem_of_insert_by {b = b} a xs) (rw e at m)
  ]
    where
      skip : Memᴰ b (a ∷ xs) → Memᴰ b (a ∷ x ∷ xs)
      skip (Memᴰ.head p) = Memᴰ.head p
      skip (Memᴰ.tail n) = Memᴰ.tail (Memᴰ.tail n)

      later :
          (Memᴰ b (insert_by a xs) → Memᴰ b (a ∷ xs))
          → Memᴰ b (x ∷ insert_by a xs)
          → Memᴰ b (a ∷ x ∷ xs)
      later rec (Memᴰ.head p) = Memᴰ.tail (Memᴰ.head p)
      later rec (Memᴰ.tail n) = skip (rec n)

  -- The ordered rows are the rows.
  pub mem-order_by : {b : A} (xs : List A) → Memᴰ b xs → Memᴰ b (order_by xs)
  unfolding order_by
  mem-order_by [] m = m
  mem-order_by (x ∷ xs) (Memᴰ.head p) = mem-insert_by x (order_by xs) (Memᴰ.head p)
  mem-order_by (x ∷ xs) (Memᴰ.tail m) =
      mem-insert_by x (order_by xs) (Memᴰ.tail (mem-order_by xs m))

  pub mem_of_order_by : {b : A} (xs : List A) → Memᴰ b (order_by xs) → Memᴰ b xs
  unfolding order_by
  mem_of_order_by [] m = m
  mem_of_order_by {b} (x ∷ xs) m =
      later (mem_of_order_by {b = b} xs) (mem_of_insert_by x (order_by xs) m)
    where
      later : (Memᴰ b (order_by xs) → Memᴰ b xs) → Memᴰ b (x ∷ order_by xs) → Memᴰ b (x ∷ xs)
      later rec (Memᴰ.head p) = Memᴰ.head p
      later rec (Memᴰ.tail n) = Memᴰ.tail (rec n)

-- A sum over the rows, whatever their order.
abbrev pub sum_of {ℓ} : {A : Type ℓ} → (A → ℕ) → List A → ℕ
sum_of f [] = 0
sum_of f (x ∷ xs) = f x + sum_of f xs

pub sum_of-append {ℓ} :
    {A : Type ℓ} (f : A → ℕ) (xs ys : List A) → sum_of f (xs ++ ys) ≡ sum_of f xs + sum_of f ys
sum_of-append f [] ys = omega arith
sum_of-append f (x ∷ xs) ys = omega (arith, sum_of-append f xs ys)

module _ {ℓ} {A : Type ℓ} (column : A → ℕ) (f : A → ℕ) where
  sum_of-insert_by : (a : A) (xs : List A) → sum_of f (insert_by column a xs) ≡ f a + sum_of f xs
  unfolding insert_by
  sum_of-insert_by a [] = refl
  sum_of-insert_by a (x ∷ xs) = ground (arith, sum_of-insert_by a xs)

  pub sum_of-order_by : (xs : List A) → sum_of f (order_by column xs) ≡ sum_of f xs
  unfolding order_by
  sum_of-order_by [] = refl
  sum_of-order_by (x ∷ xs) =
      omega (arith, sum_of-insert_by x (order_by column xs), sum_of-order_by xs)
