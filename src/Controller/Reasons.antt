-- ===== src/Controller/Reasons.antt =====
-- core/settlement.ts and core/fail-launch.ts: why a stage died, in short, and whether it is tried again.
pub mod Clipping
use mathlib.Core.List.{reverse}
use openclaw_wave_runner.Prelude.{
  ℕ, ◌+◌, ◌-◌, Bool, true, false, ◌&&◌, ◌||◌, not, Option, none, some, get_or, List, [], ◌∷◌, ◌++◌,
  length, take, leb, ltb, ◌==◌, if◌then◌else◌, Text, text, text_eq, is_empty, starts_with, includes,
}
use openclaw_wave_runner.Prelude.Decimal.{decimal}
use openclaw_wave_runner.Domain.{StageName, TicketStatus, stage_eq, TicketRun, LaunchOutbox}
use openclaw_wave_runner.StateMachine.{ticket_owners, ticket_next}
use openclaw_wave_runner.StagePaths.{stage_text, is_plan_gate_stage}

-- `\s` of a regular expression
abbrev pub is_space : ℕ → Bool
is_space ch =
    (leb 9 ch && leb ch 13)
    || (ch == 32
        || (ch == 160
            || (ch == 0x1680
                || ((leb 0x2000 ch && leb ch 0x200a)
                    || (ch == 0x2028
                        || (ch == 0x2029
                            || (ch == 0x202f
                                || (ch == 0x205f || (ch == 0x3000 || ch == 0xfeff)))))))))

-- `text.replace(/\s+/g, " ")`; the first argument says that a run of spaces has begun
unfoldable pub squeeze : Bool → Text → Text
squeeze in_run [] = []
squeeze in_run (ch ∷ s) =
    let in_space = squeeze true s in
    let in_word = squeeze false s in
    if is_space ch then (if in_run then in_space else 32 ∷ in_space) else ch ∷ in_word

unfoldable pub trim_start : Text → Text
trim_start [] = []
trim_start (ch ∷ s) = if is_space ch then trim_start s else ch ∷ s

-- `text.trim()`
unfoldable pub trim : Text → Text
unfolding trim_start
trim s = reverse (trim_start (reverse (trim_start s)))

abbrev pub reason_cap : ℕ
reason_cap = 500

-- the code unit of `…`
abbrev pub ellipsis : ℕ
ellipsis = 0x2026

-- the last step of `clipReason`, for a cap
unfoldable pub clip : ℕ → Text → Text
clip cap t = if leb (length t) cap then t else take (cap - 1) t ++ ellipsis ∷ []

unfoldable pub clip_reason : Text → Text
unfolding squeeze trim clip
clip_reason s = clip reason_cap (trim (squeeze false s))

-- How a worker ended when it did not succeed.
pub data DeathStatus : Type 0 where
  failed cancelled : DeathStatus

abbrev death_kind : DeathStatus → Text
death_kind cancelled = text "worker cancelled (no stage artifacts)"
death_kind failed = text "worker failed"

-- `a ?? b ?? ""`
abbrev pub first_text : Option Text → Option Text → Text
first_text (some a) b = a
first_text none (some b) = b
first_text none none = []

unfoldable pub stage_death_reason : DeathStatus → Option Text → Option Text → StageName → ℕ → Text
unfolding clip_reason decimal
stage_death_reason status summary error stage attempt =
    let from_worker = clip_reason (first_text summary error) in
    if not (is_empty from_worker)
    then from_worker
    else clip_reason (
        stage_text stage
        ++ (text " attempt " ++ (decimal attempt ++ (text ": " ++ death_kind status))))

abbrev is_text : Option Text → Text → Bool
is_text none t = false
is_text (some s) t = text_eq s t

abbrev begins : Text → Option Text → Bool
begins prefix none = false
begins prefix (some s) = starts_with prefix s

-- Does this death not call for another try?
unfoldable pub stage_death_no_retry : Option Text → Text → StageName → Option Text → Bool
unfolding starts_with includes
stage_death_no_retry verify_fail_snippet reason stage plan_worker =
    is_text verify_fail_snippet (text "missing_verify")
    || (begins (text "stale_fence") verify_fail_snippet
        || ((includes (text "Unknown agent id") reason
              || (includes (text "unknown_acp_agent") reason
                  || (includes (text "grok_agent_missing") reason
                      || includes (text "grok CLI fallback refuses Codex PLAN") reason)))
            || (stage_eq stage StageName.plan
                && (is_text plan_worker (text "codex")
                    && includes (text "ACP_TURN_FAILED") reason))))

-- the letters of an ASCII pattern under the flag `i`
abbrev pub lower : ℕ → ℕ
lower ch = if leb 65 ch && leb ch 90 then ch + 32 else ch

abbrev pub lower_text : Text → Text
lower_text [] = []
lower_text (ch ∷ s) = lower ch ∷ lower_text s

unfoldable pub lost_spawn_reason : LaunchOutbox → Text
unfolding includes
lost_spawn_reason item =
    let prior = lower_text (get_or item.error []) in
    if includes (text "unknown agent id") prior
      || (includes (text "unknown_acp_agent") prior || includes (text "grok_agent_missing") prior)
    then text "unknown_acp_agent"
    else text "lost_spawn"

-- `attempt - 1 < maxRetriesPerStage`; an attempt is at least 1
abbrev pub retries_remain : ℕ → ℕ → Bool
retries_remain attempt max_retries = ltb (attempt - 1) max_retries

-- the stages that are tried again
abbrev pub is_retried_stage : StageName → Bool
is_retried_stage stage =
    stage_eq stage StageName.plan || (stage_eq stage StageName.impl || is_plan_gate_stage stage)

-- the status from which the stage may be launched again
abbrev pub rearm_status : StageName → TicketStatus
rearm_status stage =
    if stage_eq stage StageName.plan
    then TicketStatus.revising
    else if is_plan_gate_stage stage
    then TicketStatus.plan_review
    else TicketStatus.approved

unfoldable pub retry_reason : ℕ → Text → Text
unfolding clip_reason decimal
retry_reason attempt reason =
    clip_reason (text "retry " ++ (decimal (attempt + 1) ++ (text " after: " ++ reason)))

-- `result === undefined` leaves the result as it is
abbrev or_kept : Option Text → Option Text → Option Text
or_kept none kept = kept
or_kept (some result) kept = some result

-- `putTicketStatus`, before the row is stored
abbrev pub with_status : TicketStatus → Option Text → TicketRun → TicketRun
with_status status outcome ticket = record ticket {
  status = status;
  outcome = or_kept outcome ticket.outcome;
  owner = ticket_owners status;
  next_action = ticket_next status;
  revision = ticket.revision + 1;
}
