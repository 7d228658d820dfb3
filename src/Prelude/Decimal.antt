-- ===== src/Prelude/Decimal.antt =====
-- `String(n)` for a natural number, and that different numbers are written differently.
use Prim.Native.Nat.{ℕ, zero, suc, ◌+◌, ◌-◌, ◌*◌, ◌/◌, ◌%◌, ◌≤◌}
use mathlib.Core.Path.{◌≡◌, refl, sym, ap, ◌∙◌}
use mathlib.Core.Logic.{inl, inr}
use mathlib.Core.List.{[], ◌∷◌, ◌++◌}
use native.Mathlib.Omega.{arith}
use openclaw_wave_runner.Prelude.Tests.{ltb, if◌then◌else◌, Bool-cases}
use openclaw_wave_runner.Prelude.Texts.{Text}

-- The digits of `n`; a fuel of `n` is enough, since each step divides it by ten.
unfoldable pub digits : ℕ → ℕ → Text
digits zero n = (48 + n % 10) ∷ []
digits (suc fuel) n =
    let rest = digits fuel (n / 10) in
    if ltb n 10 then (48 + n) ∷ [] else rest ++ (48 + n % 10) ∷ []

unfoldable pub decimal : ℕ → Text
unfolding digits
decimal n = digits n n

-- what a text of digits stands for, read from the left
unfoldable pub value_from : ℕ → Text → ℕ
value_from acc [] = acc
value_from acc (ch ∷ s) = value_from (acc * 10 + (ch - 48)) s

value_from-++ : (acc : ℕ) (s t : Text) → value_from acc (s ++ t) ≡ value_from (value_from acc s) t
unfolding value_from
value_from-++ acc [] t = refl
value_from-++ acc (ch ∷ s) t = value_from-++ (acc * 10 + (ch - 48)) s t

value_from-digits : (fuel n : ℕ) → n ≤ fuel → value_from 0 (digits fuel n) ≡ n
unfolding value_from digits
value_from-digits zero n h = ground arith
value_from-digits (suc fuel) n h = elim (Bool-cases (ltb n 10)) [
  | inl e ↦ rw e (ground arith)
  | inr e ↦
      let ih = value_from-digits fuel (n / 10) (ground arith) in
      rw e (rw (value_from-++ 0 (digits fuel (n / 10)) ((48 + n % 10) ∷ [])) (rw ih (ground arith)))
]

-- Reading a number's digits gives the number back.
pub value_from-decimal : (n : ℕ) → value_from 0 (decimal n) ≡ n
unfolding decimal
value_from-decimal n = value_from-digits n n (ground arith)

pub decimal_injective : (m n : ℕ) → decimal m ≡ decimal n → m ≡ n
decimal_injective m n e = sym (value_from-decimal m) ∙ ap (value_from 0) e ∙ value_from-decimal n
