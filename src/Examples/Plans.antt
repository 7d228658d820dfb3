-- ===== src/Examples/Plans.antt =====
-- Runs of the manifest's order, of the keys and names, of the safety gate and of the stuck count.
use openclaw_wave_runner.Prelude.{
  ℕ, ◌≡◌, ◌↔◌, inr, refl, true, false, none, some, List, [], ◌∷◌, Text, text, text_eq, any, all,
  filter, ◌==◌, if◌then◌else◌, sym, Bool, ok, arith,
}
use mathlib.Core.List.{Memᴰ}
use mathlib.Core.Path.{subst}
use openclaw_wave_runner.Domain.{StageName, WaveStatus}
use openclaw_wave_runner.Manifest.{FrozenTicket, topological_order}
use openclaw_wave_runner.Manifest.Order.{HasDistinctIds, IsScheduleOf}
use openclaw_wave_runner.Manifest.Acyclic.{
  IsRanked, topological_order-IsScheduleOf, topological_order_total,
}
use openclaw_wave_runner.StagePaths.Keys.{idempotency_key_injective}
use openclaw_wave_runner.Safety.{LaunchRequest, assert_supervised_bounded_launch}
use openclaw_wave_runner.Safety.Gates.{IsSafeLaunch, assert_supervised_bounded_launch_iff}
use openclaw_wave_runner.OperatorLoop.Stuck.{Observation}

abbrev frozen : Text → List Text → FrozenTicket
frozen id depends_on = record {
  ticket_id = id;
  title = text "t";
  content_hash = text "c";
  depends_on = depends_on;
  order = 0;
  source_path = text "t.md";
  plan_class = none;
  verify_command = none;
  provider = none;
  model = none;
  human_hold = none;
  human_hold_reason = none;
  writer_scope = none;
  product = none;
  game = none;
  land_mode = none;
  plan_review_skip = none;
  plan_review_revise_cap = none;
  needs_ux = none;
  ux_spec_path = none;
  ux_review_revise_cap = none;
  plan_worker = none;
  satisfied_external_deps = none;
}

-- "a" waits for "b"
abbrev two_tickets : List FrozenTicket
two_tickets = frozen (text "a") (text "b" ∷ []) ∷ frozen (text "b") [] ∷ []

abbrev any_order : Text → Text → Bool
any_order s t = true

two_distinct : HasDistinctIds two_tickets
two_distinct = ground arith

two_ordered :
    topological_order any_order two_tickets
    ≡ ok (frozen (text "b") [] ∷ frozen (text "a") (text "b" ∷ []) ∷ [])
unfolding topological_order any all filter text_eq
two_ordered = refl

topological_order-IsScheduleOf_example :
    IsScheduleOf [] two_tickets (frozen (text "b") [] ∷ frozen (text "a") (text "b" ∷ []) ∷ [])
topological_order-IsScheduleOf_example =
    topological_order-IsScheduleOf any_order two_tickets two_distinct
      (frozen (text "b") [] ∷ frozen (text "a") (text "b" ∷ []) ∷ []) two_ordered

-- "b" has rank 0, everything else rank 1
abbrev rank_b : Text → ℕ
rank_b [] = 1
rank_b (c ∷ s) = if c == b'b' then 0 else 1

only_b : (dep : Text) → Memᴰ dep (text "b" ∷ []) → dep ≡ text "b"
only_b dep (Memᴰ.head e) = e
only_b dep (Memᴰ.tail m) = elim m [ ]

two-IsRanked : IsRanked rank_b [] two_tickets
two-IsRanked t dep (Memᴰ.head e) m =
    let q = only_b dep (subst (λ (x : FrozenTicket). Memᴰ dep x.depends_on) e m) in
    inr (frozen (text "b") [], Memᴰ.tail (Memᴰ.head refl), sym q, ground (arith, e, q))
two-IsRanked t dep (Memᴰ.tail (Memᴰ.head e)) m =
    elim (subst (λ (x : FrozenTicket). Memᴰ dep x.depends_on) e m) [ ]
two-IsRanked t dep (Memᴰ.tail (Memᴰ.tail n)) m = elim n [ ]

topological_order_total_example :
    (out : List FrozenTicket) × (topological_order any_order two_tickets ≡ ok out)
topological_order_total_example =
    topological_order_total any_order two_tickets two_distinct rank_b two-IsRanked

abbrev twelve : ℕ
twelve = 12

idempotency_key_injective_example :
    (text "w" ≡ text "w")
    × (text "a" ≡ text "a")
    × (StageName.plan ≡ StageName.plan)
    × (twelve ≡ twelve)
idempotency_key_injective_example =
    idempotency_key_injective (text "w") (text "w") (text "a") (text "a") StageName.plan
      StageName.plan twelve twelve (ground arith) (ground arith) (ground arith) (ground arith) refl

-- two different tickets, 2 launches, 1,000 tokens
abbrev safe_request : LaunchRequest
safe_request = record {
  ticket_ids = some (text "a" ∷ text "b" ∷ []);
  operator_action = true;
  isolated_worktree = true;
  deploy_push = false;
  gateway_mutate = false;
  limits =
      some (record {
        max_launches = 2;
        max_tokens = 1000;
        max_wall_time_ms = 0;
        repo_concurrency = 1;
      });
}

assert_supervised_bounded_launch_iff_example :
    (assert_supervised_bounded_launch safe_request ≡ ok tt) ↔ IsSafeLaunch safe_request
assert_supervised_bounded_launch_iff_example = assert_supervised_bounded_launch_iff safe_request

-- three frozen rounds under a threshold of 3
abbrev frozen_round : Observation
frozen_round = record { fingerprint = text "f"; status = WaveStatus.running; live = false }
