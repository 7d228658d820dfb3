-- ===== src/OperatorLoop/Stuck.antt =====
-- When a wave counts as stuck (core/operator-loop.ts), over a run of the operator's loop.
use openclaw_wave_runner.Prelude.{
  ℕ, suc, ◌≤◌, ◌<◌, ◌≡◌, ◌↔◌, refl, Bool, true, false, ◌&&◌, not, List, [], ◌∷◌, if◌then◌else◌,
  Text, text_eq, arith, ltb, leb,
}
use openclaw_wave_runner.Domain.{WaveStatus, wave_eq}
use openclaw_wave_runner.OperatorLoop.{next_stuck_count}

-- What one round of the loop sees of a wave.
pub record Observation : Type 0 where
  pub fingerprint : Text
  pub status : WaveStatus
  pub live : Bool

-- a run of the loop, from a fingerprint and a count, the first round first
pub run : ℕ → Text → ℕ → Bool → List Observation → ℕ × Bool
run threshold prev n stuck [] = (n, stuck)
run threshold prev n stuck (o ∷ rounds) =
    let (count, now_stuck) = next_stuck_count prev o.fingerprint n threshold o.status o.live in
    run threshold o.fingerprint count now_stuck rounds

-- The round saw a running wave without live work that had not changed.
abbrev pub is_frozen : Text → Observation → Bool
is_frozen prev o = wave_eq o.status WaveStatus.running && (not o.live && text_eq o.fingerprint prev)

-- how many rounds at the end of the run, without a break, saw a frozen wave; `n` before the run
pub streak : Text → ℕ → List Observation → ℕ
streak prev n [] = n
streak prev n (o ∷ rounds) = streak o.fingerprint (if is_frozen prev o then suc n else 0) rounds

step :
    (prev : Text) (n threshold : ℕ) (o : Observation)
    → let count = if is_frozen prev o then suc n else 0 in
      next_stuck_count prev o.fingerprint n threshold o.status o.live
      ≡ (count, ltb 0 threshold && leb threshold count)
unfolding next_stuck_count
step prev n threshold o = ground arith

run-streak :
    (threshold : ℕ) (prev : Text) (n : ℕ) (rounds : List Observation)
    → run threshold prev n (ltb 0 threshold && leb threshold n) rounds
      ≡ (streak prev n rounds, ltb 0 threshold && leb threshold (streak prev n rounds))
unfolding run streak
run-streak threshold prev n [] = refl
run-streak threshold prev n (o ∷ rounds) =
    rw (step prev n threshold o)
      (run-streak threshold o.fingerprint (if is_frozen prev o then suc n else 0) rounds)

-- After a run from a count of 0, the count is the number of rounds at its end that saw the wave
-- running, without live work and unchanged, one after the other; and the wave is stuck exactly when
-- the threshold is above 0 and that many rounds or more were so.
stuck_iff :
    (threshold : ℕ) (prev : Text) (rounds : List Observation)
    → let (count, stuck) = run threshold prev 0 false rounds in
      (count ≡ streak prev 0 rounds)
      × ((stuck ≡ true) ↔ ((0 < threshold) × (threshold ≤ streak prev 0 rounds)))
stuck_iff threshold prev rounds =
    let off : (ltb 0 threshold && leb threshold 0) ≡ false = ground arith in
    let all_rounds = rw off at (run-streak threshold prev 0 rounds) in
    rw all_rounds (refl, ground arith)
