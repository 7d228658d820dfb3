-- ===== src/Controller/Watchdog/Hangs.antt =====
-- When a worker counts as hung (core/stage-watchdog.ts).
use openclaw_wave_runner.Prelude.{
  ℕ, ◌+◌, ◌*◌, ◌/◌, ◌==◌, ltb, ◌≤◌, ◌≡◌, inl, inr, refl, Bool, false, ◌||◌, Option, List, [], ◌∷◌,
  filter, if◌then◌else◌, Bool-cases, Text, text, text_eq, arith,
}
use openclaw_wave_runner.Domain.{StageName}
use openclaw_wave_runner.Controller.Watchdog.{
  Watch, stage_wall_ms, acp_timeout_seconds, GrokSessionEvent, Reads, no_reads, is_read_file,
  session_event, all_events, read_file_hung_at,
}

-- the events that the test looks at: the ends of turns, and reads of files
abbrev pub counts : GrokSessionEvent → Bool
counts event = text_eq event.type (text "turn_ended") || is_read_file event.tool_name

neither : (a b : Bool) → a || b ≡ false → (a ≡ false) × (b ≡ false)
neither a b h = ground arith

skipped :
    (date_parse : Text → Option ℕ) (event : GrokSessionEvent) (reads : Reads)
    → counts event ≡ false
    → session_event date_parse event reads ≡ reads
skipped date_parse event reads h =
    let (going, other) =
      neither (text_eq event.type (text "turn_ended")) (is_read_file event.tool_name) h in
    rw going (rw other refl)

all_events-filter :
    (date_parse : Text → Option ℕ) (events : List GrokSessionEvent) (reads : Reads)
    → all_events date_parse (filter counts events) reads ≡ all_events date_parse events reads
unfolding all_events filter
all_events-filter date_parse [] reads = refl
all_events-filter date_parse (event ∷ events) reads = elim (Bool-cases (counts event)) [
  | inl counted ↦
      rw counted (all_events-filter date_parse events (session_event date_parse event reads))
  | inr other ↦
      rw other
        (rw (skipped date_parse event reads other) (all_events-filter date_parse events reads))
]

-- No other tool makes a worker count as hung, however long it runs: events of other tools within a turn
-- do not matter.
pub read_file_hung_at-filter :
    (date_parse : Text → Option ℕ) (events : List GrokSessionEvent) (now hang_ms : ℕ)
    → read_file_hung_at date_parse (filter counts events) now hang_ms
      ≡ read_file_hung_at date_parse events now hang_ms
unfolding read_file_hung_at
read_file_hung_at-filter date_parse events now hang_ms =
    rw (all_events-filter date_parse events no_reads) refl

-- The timeout that is sent with a launch is at least a second, and not shorter than the wall time of
-- its stage.
pub acp_timeout_seconds_bounds :
    (watch : Watch) (stage : StageName)
    → (1 ≤ acp_timeout_seconds watch stage)
      × (stage_wall_ms watch stage ≤ 1000 * acp_timeout_seconds watch stage)
unfolding acp_timeout_seconds
acp_timeout_seconds_bounds watch stage = rounded_up (stage_wall_ms watch stage)
  where
    rounded_up :
        (ms : ℕ)
        → (1 ≤ (
            if ms == 0
            then 604_800
            else (if ltb ((ms + 999) / 1000) 1 then 1 else (ms + 999) / 1000)))
          × (ms
              ≤ 1000
                * (if ms == 0
                    then 604_800
                    else (if ltb ((ms + 999) / 1000) 1 then 1 else (ms + 999) / 1000)))
    rounded_up ms = ground arith
