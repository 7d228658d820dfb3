-- ===== src/Controller/PlanArtifact.antt =====
-- core/plan-artifact.ts and the fallback of core/plan-text.ts: what a plan must say before it is reviewed.
use openclaw_wave_runner.Prelude.{
  ℕ, zero, suc, Bool, true, false, ◌&&◌, ◌||◌, not, Option, none, some, get_or, [], ◌∷◌, ◌++◌,
  length, ltb, leb, ◌==◌, if◌then◌else◌, Text, text, text_eq, is_empty, includes,
}
use openclaw_wave_runner.Controller.Reasons.{trim, trim_start, lower, lower_text}

abbrev min_chars : ℕ
min_chars = 24

-- `\w`
abbrev is_word : ℕ → Bool
is_word ch =
    (leb 48 ch && leb ch 57)
    || ((leb 65 ch && leb ch 90) || ((leb 97 ch && leb ch 122) || ch == 95))

-- `word\b` under the flag `i`, at the front of a text; the word is in small letters
abbrev word_here : Text → Text → Bool
word_here [] [] = true
word_here [] (ch ∷ s) = not (is_word ch)
word_here (p ∷ ps) [] = false
word_here (p ∷ ps) (ch ∷ s) = p == lower ch && word_here ps s

abbrev block_word : Text → Bool
block_word s = word_here (text "blocked") s || word_here (text "needs_jason") s

abbrev hash : ℕ
hash = 35

-- at least one `#` and as many more as the number says, then spaces, then the word
abbrev after_hashes : ℕ → Text → Bool
after_hashes n [] = false
after_hashes zero (ch ∷ s) = if ch == hash then false else block_word (trim_start (ch ∷ s))
after_hashes (suc n) (ch ∷ s) =
    let more = after_hashes n s in if ch == hash then more else block_word (trim_start (ch ∷ s))

abbrev heading_here : Text → Bool
heading_here [] = false
heading_here (ch ∷ s) = if ch == hash then after_hashes 5 s else block_word (ch ∷ s)

-- a line ends before the next character, under the flag `m`
abbrev ends_line : ℕ → Bool
ends_line ch = ch == 10 || (ch == 13 || (ch == 0x2028 || ch == 0x2029))

-- `BLOCK_HEADING.test(text)`; the first argument says that a line begins here
unfoldable pub block_heading : Bool → Text → Bool
unfolding trim_start
block_heading at_start [] = false
block_heading at_start (ch ∷ s) =
    (at_start && heading_here (ch ∷ s)) || block_heading (ends_line ch) s

-- The command is empty or `true`.
abbrev pub is_fixture_verify : Option Text → Bool
is_fixture_verify none = true
is_fixture_verify (some verify) =
    is_empty (trim verify) || text_eq (lower_text (trim verify)) (text "true")

abbrev lacks_verify : Option Text → Text → Bool
lacks_verify none plan = false
lacks_verify (some verify) plan =
    not (is_fixture_verify (some verify)) && not (includes (trim verify) plan)

-- why a plan is refused, or `none`
unfoldable pub check_plan_artifact : Text → Text → Option Text → Option Text
unfolding trim block_heading includes
check_plan_artifact plan_text ticket_id verify_command =
    let plan = trim plan_text in
    if ltb (length plan) min_chars
    then some (text "tiny or missing PLAN.md")
    else if block_heading true plan
    then some (text "plan headed BLOCKED/NEEDS_JASON")
    else if not (is_empty ticket_id) && not (includes ticket_id plan)
    then some (text "plan missing ticket id " ++ ticket_id)
    else if lacks_verify verify_command plan
    then some (text "plan missing verify command")
    else none

abbrev verify_line : Option Text → Text
verify_line none = []
verify_line (some verify) =
    if is_empty (trim verify) then [] else 10 ∷ text "verify: " ++ (trim verify ++ 10 ∷ [])

-- the text that stands in for a plan that is not on disk
unfoldable pub fallback_plan : Text → Option Text → Option Text → Option Text → Text
unfolding trim
fallback_plan ticket_id plan_class summary verify_command =
    text "# PLAN "
    ++ (ticket_id
        ++ (10 ∷ 10 ∷ get_or summary (text "deterministic plan")
            ++ (10 ∷ 10 ∷ text "class: "
                ++ (get_or plan_class (text "manual") ++ (verify_line verify_command ++ 10 ∷ [])))))
