-- ===== src/Manifest.antt =====
-- core/manifest.ts and domain/types.ts: the frozen tickets of a wave, and the order in which their
-- dependencies let them run. `localeCompare` depends on the locale: a test `comes_before` on ids, a
-- parameter. The hashes, the checks of a manifest and the board catalogue are left out.
pub mod Order
pub mod Acyclic
use openclaw_wave_runner.Prelude.{
  ℕ, zero, suc, Bool, true, false, ◌&&◌, ◌||◌, not, Option, List, [], ◌∷◌, ◌++◌, length, ltb, ◌==◌,
  if◌then◌else◌, filter, any, all, Text, text_eq, WaveError, Result, ok, err,
}
use openclaw_wave_runner.Domain.{HumanHoldReason}

pub record SatisfiedExternalDep : Type 0 where
  pub ticket_id : Text
  pub status : Text

-- `landMode`
pub data LandMode : Type 0 where
  apply commit : LandMode

pub record FrozenTicket : Type 0 where
  pub ticket_id : Text
  pub title : Text
  pub content_hash : Text
  pub depends_on : List Text
  pub order : ℕ
  pub source_path : Text
  pub plan_class : Option Text
  pub verify_command : Option Text
  pub provider : Option Text
  pub model : Option Text
  pub human_hold : Option Bool
  pub human_hold_reason : Option HumanHoldReason
  pub writer_scope : Option Text
  pub product : Option Text
  pub game : Option Text
  pub land_mode : Option LandMode
  pub plan_review_skip : Option Bool
  pub plan_review_revise_cap : Option ℕ
  pub needs_ux : Option Bool
  pub ux_spec_path : Option Text
  pub ux_review_revise_cap : Option ℕ
  pub plan_worker : Option Text
  pub satisfied_external_deps : Option (List SatisfiedExternalDep)

-- `new Map(tickets.map((ticket) => [ticket.ticketId, ticket]))`: a repeated id takes the place of the
-- first ticket with it
unfoldable pub set_ticket : FrozenTicket → List FrozenTicket → List FrozenTicket
set_ticket ticket [] = ticket ∷ []
set_ticket ticket (t ∷ tickets) =
    if text_eq t.ticket_id ticket.ticket_id then ticket ∷ tickets else t ∷ set_ticket ticket tickets

unfoldable pub map_of_from : List FrozenTicket → List FrozenTicket → List FrozenTicket
unfolding set_ticket
map_of_from entries [] = entries
map_of_from entries (ticket ∷ tickets) = map_of_from (set_ticket ticket entries) tickets

unfoldable pub map_of : List FrozenTicket → List FrozenTicket
unfolding map_of_from
map_of tickets = map_of_from [] tickets

-- every dependency is among `done`
abbrev pub is_ready : List Text → FrozenTicket → Bool
is_ready done ticket = all (λ dep. any (text_eq dep) done) ticket.depends_on

-- `a.order - b.order || a.ticketId.localeCompare(b.ticketId)` is at most 0
abbrev pub is_first : (Text → Text → Bool) → FrozenTicket → FrozenTicket → Bool
is_first comes_before a b =
    ltb a.order b.order || (a.order == b.order && comes_before a.ticket_id b.ticket_id)

-- the head of the sorted list `t ∷ tickets`
unfoldable pub first_of : (Text → Text → Bool) → FrozenTicket → List FrozenTicket → FrozenTicket
first_of comes_before t [] = t
first_of comes_before t (u ∷ tickets) =
    let first = first_of comes_before u tickets in
    if is_first comes_before t first then t else first

-- `Map.delete`
abbrev pub without : Text → List FrozenTicket → List FrozenTicket
without id tickets = filter (λ (t : FrozenTicket). not (text_eq t.ticket_id id)) tickets

-- The loop; each round takes one ticket away, so that a fuel of as many rounds as there are tickets
-- is enough.
unfoldable pub order_loop :
    (Text → Text → Bool)
    → ℕ
    → List FrozenTicket
    → List Text
    → List FrozenTicket
    → Result (List FrozenTicket)
unfolding first_of
order_loop comes_before zero remaining done ordered = ok ordered
order_loop comes_before (suc fuel) [] done ordered = ok ordered
order_loop comes_before (suc fuel) (t ∷ tickets) done ordered =
    elim (filter (is_ready done) (t ∷ tickets)) [
      | [] ↦ err WaveError.dependency_cycle
      | r ∷ ready ↦
          let next = first_of comes_before r ready in
          order_loop comes_before fuel (without next.ticket_id (t ∷ tickets))
            (next.ticket_id ∷ done) (ordered ++ next ∷ [])
    ]

unfoldable pub topological_order :
    (Text → Text → Bool) → List FrozenTicket → Result (List FrozenTicket)
unfolding map_of order_loop
topological_order comes_before tickets =
    let remaining = map_of tickets in order_loop comes_before (length remaining) remaining [] []
