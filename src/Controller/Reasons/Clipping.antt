-- ===== src/Controller/Reasons/Clipping.antt =====
-- `clipReason` (core/settlement.ts): the reasons that are stored have a bounded length.
use openclaw_wave_runner.Prelude.{
  ℕ, ◌-◌, ◌≤◌, ◌<◌, inl, inr, false, [], ◌∷◌, length, leb, take, length-append, length-take-le,
  Text, Bool-cases, leb→le, arith,
}
use openclaw_wave_runner.Controller.Reasons.{clip, clip_reason, reason_cap, ellipsis, trim, squeeze}

clip_bounded : (cap : ℕ) (t : Text) → 0 < cap → length (clip cap t) ≤ cap
unfolding clip
clip_bounded cap t h = elim (Bool-cases (leb (length t) cap)) [
  | inl short ↦ rw short (leb→le (length t) cap short)
  | inr long ↦
      rw long (
        omega (arith, length-append (take (cap - 1) t) (ellipsis ∷ []), length-take-le (cap - 1) t))
]

-- A reason that is stored has at most REASON_CAP characters, whatever its text.
clip_reason_bounded : (s : Text) → length (clip_reason s) ≤ reason_cap
unfolding clip_reason
clip_reason_bounded s = clip_bounded reason_cap (trim (squeeze false s)) (omega arith)
