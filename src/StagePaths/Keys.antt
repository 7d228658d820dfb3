-- ===== src/StagePaths/Keys.antt =====
-- Attempts have different keys (core/admission.ts).
use openclaw_wave_runner.Prelude.{ℕ, ◌≡◌, ◌≢◌, [], ◌∷◌, ◌++◌, Text, arith, All}
use openclaw_wave_runner.Prelude.Decimal.{decimal_injective}
use openclaw_wave_runner.Domain.{StageName}
use openclaw_wave_runner.StagePaths.{stage_text, colon, idempotency_key}

-- No colon stands in the text.
abbrev pub IsPlain : Text → Type 0
IsPlain s = All (λ ch. ch ≢ colon) s

cut : (s t x y : Text) → IsPlain s → IsPlain t → s ++ colon ∷ x ≡ t ++ colon ∷ y → (s ≡ t) × (x ≡ y)
cut [] [] x y p q e = ground arith
cut [] (b ∷ t) x y p q e = ground arith
cut (a ∷ s) [] x y p q e = ground arith
cut (a ∷ s) (b ∷ t) x y p q e = ground (arith, cut s t x y)

stage_text-IsPlain : (stage : StageName) → IsPlain (stage_text stage)
stage_text-IsPlain stage = ground arith

stage_text_injective : (a b : StageName) → stage_text a ≡ stage_text b → a ≡ b
stage_text_injective a b e = ground arith

-- Two attempts with the same key are the same attempt at the same stage of the same ticket of the
-- same wave, if no colon stands in the ids of the waves and the tickets.
pub idempotency_key_injective :
    (w w' t t' : Text) (s s' : StageName) (n n' : ℕ)
    → IsPlain w
    → IsPlain w'
    → IsPlain t
    → IsPlain t'
    → idempotency_key w t s n ≡ idempotency_key w' t' s' n'
    → (w ≡ w') × (t ≡ t') × (s ≡ s') × (n ≡ n')
unfolding idempotency_key
idempotency_key_injective w w' t t' s s' n n' pw pw' pt pt' e =
    let one = cut w w' _ _ pw pw' e in
    let two = cut t t' _ _ pt pt' one.1 in
    let three =
      cut (stage_text s) (stage_text s') _ _ (stage_text-IsPlain s) (stage_text-IsPlain s') two.1 in
    (one.0, two.0, stage_text_injective s s' three.0, decimal_injective n n' three.1)
