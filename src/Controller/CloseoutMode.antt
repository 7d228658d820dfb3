-- ===== src/Controller/CloseoutMode.antt =====
-- domain/closeout-mode.ts: whether the work of a ticket is applied to the primary checkout or landed as
-- a commit. `JSON.parse` of a manifest is a parameter: the tickets, or `none` where it throws.
use openclaw_wave_runner.Prelude.{
  Option, none, some, get_or, List, find?, if◌then◌else◌, Text, text, text_eq, map,
}
use openclaw_wave_runner.Manifest.{FrozenTicket, LandMode, apply, commit}
use openclaw_wave_runner.Controller.Reasons.{trim, lower_text}

abbrev pub land_text : LandMode → Text
land_text apply = text "apply"
land_text commit = text "commit"

abbrev mode_of : Text → Option LandMode
mode_of value =
    if text_eq value (text "apply")
    then some apply
    else if text_eq value (text "commit")
    then some commit
    else none

-- A value that is not a string is `none`.
unfoldable pub parse_closeout_mode : Option Text → Option LandMode
unfolding trim
parse_closeout_mode none = none
parse_closeout_mode (some raw) = mode_of (lower_text (trim raw))

abbrev or_mode : Option LandMode → Option LandMode → LandMode
or_mode (some mode) fallback = mode
or_mode none fallback = get_or fallback commit

-- the ticket's mode, then `WAVE_LAND_MODE`, then a commit
unfoldable pub resolve_closeout_mode : Option Text → Option Text → LandMode
unfolding parse_closeout_mode
resolve_closeout_mode ticket_land wave_land_mode =
    or_mode (parse_closeout_mode ticket_land) (parse_closeout_mode wave_land_mode)

abbrev land_of : Option FrozenTicket → Option Text
land_of none = none
land_of (some ticket) = elim ticket.land_mode [ none ↦ none | some mode ↦ some (land_text mode) ]

abbrev land_in : Option (List FrozenTicket) → Text → Option Text
land_in none ticket_id = none
land_in (some tickets) ticket_id =
    land_of (find? (λ (t : FrozenTicket). text_eq t.ticket_id ticket_id) tickets)

unfoldable pub ticket_land_from_manifest :
    (Text → Option (List FrozenTicket)) → Text → Text → Option Text
ticket_land_from_manifest parse manifest_json ticket_id = land_in (parse manifest_json) ticket_id

unfoldable pub closeout_mode_for_wave_ticket :
    (Text → Option (List FrozenTicket)) → Option Text → Text → Text → LandMode
unfolding resolve_closeout_mode ticket_land_from_manifest
closeout_mode_for_wave_ticket parse wave_land_mode manifest_json ticket_id =
    resolve_closeout_mode (ticket_land_from_manifest parse manifest_json ticket_id) wave_land_mode

abbrev with_mode : LandMode → FrozenTicket → FrozenTicket
with_mode mode ticket = elim ticket.land_mode [
  | some own ↦ ticket
  | none ↦ record ticket { land_mode = some mode }
]

abbrev freeze_with : Option LandMode → List FrozenTicket → List FrozenTicket
freeze_with none tickets = tickets
freeze_with (some mode) tickets = map (with_mode mode) tickets

unfoldable pub freeze_land_mode : List FrozenTicket → Option Text → List FrozenTicket
unfolding parse_closeout_mode
freeze_land_mode tickets wave_land_mode = freeze_with (parse_closeout_mode wave_land_mode) tickets
