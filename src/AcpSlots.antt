-- ===== src/AcpSlots.antt =====
-- core/acp-slots.ts: how many sessions of a provider are in flight, and the cap on them. The sums
-- over the ledgers of a directory, and the reading of the cap from the environment, are left out.
use openclaw_wave_runner.Prelude.{
  ℕ, zero, suc, ◌+◌, Bool, true, false, ◌&&◌, not, Option, none, some, get_or, List, [], ◌∷◌, ltb,
  filter, any, map, if◌then◌else◌, Text, text, text_eq,
}
use openclaw_wave_runner.Domain.{OutboxState, is_terminal_wave, WaveRecord, TicketRun, LaunchOutbox}
use openclaw_wave_runner.Store.{WaveDatabase, list_waves, list_open_outbox, get_ticket}

-- `DEFAULT_ACP_SLOTS`
abbrev pub default_acp_slots : ℕ
default_acp_slots = 4

abbrev pub is_live_outbox_state : OutboxState → Bool
is_live_outbox_state OutboxState.settled = false
is_live_outbox_state OutboxState.failed = false
is_live_outbox_state _ = true

abbrev positive_or : ℕ → ℕ → ℕ
positive_or zero default = default
positive_or (suc n) default = suc n

abbrev lesser : ℕ → ℕ → ℕ
lesser a b = if ltb b a then b else a

-- A cap of 0 stands for none. The tests for infinity and for NaN have no counterpart.
unfoldable pub acp_slot_cap : ℕ → ℕ → ℕ
acp_slot_cap wave_provider_cap global_cap =
    lesser (positive_or wave_provider_cap global_cap) (positive_or global_cap default_acp_slots)

unfoldable pub count_live_provider_sessions :
    List LaunchOutbox → (Text → Text → Option Text) → Text → ℕ
count_live_provider_sessions [] provider_of provider = 0
count_live_provider_sessions (item ∷ items) provider_of provider =
    let rest = count_live_provider_sessions items provider_of provider in
    let hit =
      is_live_outbox_state item.state
      && text_eq (get_or (provider_of item.wave_id item.ticket_id) (text "mock")) provider in
    if hit then 1 + rest else rest

abbrev provider_or_mock : Option TicketRun → Text
provider_or_mock none = text "mock"
provider_or_mock (some ticket) = get_or ticket.provider (text "mock")

abbrev live_wave_ids : WaveDatabase → List Text
live_wave_ids db =
    map (λ (wave : WaveRecord). wave.wave_id)
      (filter (λ (wave : WaveRecord). not (is_terminal_wave wave.status)) (list_waves db))

unfoldable pub count_open_provider : WaveDatabase → Text → ℕ
unfolding count_live_provider_sessions
count_open_provider db provider =
    count_live_provider_sessions
      (filter (λ (item : LaunchOutbox). any (text_eq item.wave_id) (live_wave_ids db))
        (list_open_outbox db))
      (λ wave_id ticket_id. some (provider_or_mock (get_ticket wave_id ticket_id db))) provider
