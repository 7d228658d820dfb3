-- ===== src/Safety/Gates.antt =====
-- What the gates of domain/safety.ts let through.
use openclaw_wave_runner.Prelude.{
  ◌≤◌, ◌≡◌, ◌≢◌, ◌↔◌, refl, true, false, Option, none, some, ok, arith, List, [], ◌∷◌, length, any,
  Text, text_eq, text_eq_iff, All,
}
use openclaw_wave_runner.Safety.{
  LaunchLimits, LaunchRequest, ids_of, set_of, assert_supervised_bounded_launch,
}

-- No id stands twice in the list.
abbrev pub IsDistinct : List Text → Type 0
IsDistinct [] = Unit
IsDistinct (id ∷ ids) = All (λ other. id ≢ other) ids × IsDistinct ids

-- `set_of` keeps the members
mem-set_of : (a : Text) (ids : List Text) → any (text_eq a) (set_of ids) ≡ any (text_eq a) ids
unfolding set_of any
mem-set_of a [] = refl
mem-set_of a (id ∷ ids) = ground (arith, text_eq_iff a id, mem-set_of a ids)

length-set_of : (ids : List Text) → length (set_of ids) ≤ length ids
unfolding set_of
length-set_of [] = omega arith
length-set_of (id ∷ ids) = ground (arith, length-set_of ids)

none_equal :
    (id : Text) (ids : List Text) → any (text_eq id) ids ≡ false → All (λ other. id ≢ other) ids
unfolding any
none_equal id [] h = tt
none_equal id (x ∷ ids) h = ground (arith, text_eq_iff id x, none_equal id ids)

any_none :
    (id : Text) (ids : List Text) → All (λ other. id ≢ other) ids → any (text_eq id) ids ≡ false
unfolding any
any_none id [] h = refl
any_none id (x ∷ ids) h = ground (arith, text_eq_iff id x, any_none id ids h.1)

-- The size of the set is the length of the list exactly when no id stands twice.
IsDistinct-of_size : (ids : List Text) → length (set_of ids) ≡ length ids → IsDistinct ids
unfolding set_of
IsDistinct-of_size [] h = tt
IsDistinct-of_size (id ∷ ids) h =
    ground (arith, length-set_of ids, mem-set_of id ids, none_equal id ids, IsDistinct-of_size ids)

size_of_distinct : (ids : List Text) → IsDistinct ids → length (set_of ids) ≡ length ids
unfolding set_of
size_of_distinct [] h = refl
size_of_distinct (id ∷ ids) h =
    ground (arith, mem-set_of id ids, any_none id ids h.0, size_of_distinct ids h.1)

-- The limits that a supervised launch may ask for.
abbrev pub LimitsFit : Option LaunchLimits → Type 0
LimitsFit none = Unit
LimitsFit (some limits) =
    (limits.repo_concurrency ≡ 1)
    × (1 ≤ limits.max_launches)
    × (limits.max_launches ≤ 48)
    × (1 ≤ limits.max_tokens)
    × (limits.max_tokens ≤ 500_000)

pub record IsSafeLaunch (input : LaunchRequest) : Type 0 where
  pub by_operator : input.operator_action ≡ true
  pub some_tickets : 1 ≤ length (ids_of input.ticket_ids)
  pub few_tickets : length (ids_of input.ticket_ids) ≤ 8
  pub distinct_tickets : IsDistinct (ids_of input.ticket_ids)
  pub isolated : input.isolated_worktree ≡ true
  pub no_push : input.deploy_push ≡ false
  pub no_gateway_change : input.gateway_mutate ≡ false
  pub limits_fit : LimitsFit input.limits

module _ (input : LaunchRequest) where
  lets_through : IsSafeLaunch input → assert_supervised_bounded_launch input ≡ ok tt
  unfolding assert_supervised_bounded_launch
  lets_through h = ground (arith, size_of_distinct (ids_of input.ticket_ids) h.distinct_tickets)

  is_safe : assert_supervised_bounded_launch input ≡ ok tt → IsSafeLaunch input
  unfolding assert_supervised_bounded_launch
  is_safe h = ground (arith, IsDistinct-of_size (ids_of input.ticket_ids))

  -- The gate lets a supervised launch through exactly when an operator asks for it, for one to eight
  -- distinct tickets, in an isolated worktree, with no push and no change of the gateway, and within
  -- the limits, if it states some: one writer, 1 to 48 launches and 1 to 500,000 tokens.
  pub assert_supervised_bounded_launch_iff :
      (assert_supervised_bounded_launch input ≡ ok tt) ↔ IsSafeLaunch input
  assert_supervised_bounded_launch_iff = (is_safe, lets_through)
