-- ===== src/Controller/Completion/Search.antt =====
-- The search for a dead ancestor (`nearestDeadAncestor` of core/tick.ts): its fuel is enough, and what it
-- finds is one.
use mathlib.Core.List.{Memᴰ}
use mathlib.Core.Option.{some-injective}
use openclaw_wave_runner.Prelude.{
  ℕ, zero, suc, ◌+◌, ◌≤◌, ◌<◌, ◌≡◌, inl, inr, refl, sym, ap, ◌∙◌, true, false, not, any, find?-some,
  none, some, List, [], ◌∷◌, Text, text_eq, text_eq_refl, length, filter, arith, Bool-cases,
  Option-cases,
}
use openclaw_wave_runner.Domain.{TicketRun}
use openclaw_wave_runner.Controller.Completion.{
  Found, is_dead, by_id, search, walk, nearest_dead_ancestor,
}

-- how many of the tickets are not seen yet
abbrev unseen : List TicketRun → List Text → ℕ
unseen tickets seen =
    length (filter (λ (t : TicketRun). not (any (text_eq t.ticket_id) seen)) tickets)

unseen-le-length :
    (tickets : List TicketRun) (seen : List Text) → unseen tickets seen ≤ length tickets
unfolding filter
unseen-le-length [] seen = omega arith
unseen-le-length (t ∷ tickets) seen = ground (arith, unseen-le-length tickets seen)

unseen-cons :
    (id : Text) (tickets : List TicketRun) (seen : List Text)
    → unseen tickets (id ∷ seen) ≤ unseen tickets seen
unfolding filter any
unseen-cons id [] seen = omega arith
unseen-cons id (t ∷ tickets) seen = ground (arith, unseen-cons id tickets seen)

-- seeing a ticket that was not seen
unseen-cons_new :
    (t : TicketRun) (tickets : List TicketRun) (seen : List Text)
    → Memᴰ t tickets
    → any (text_eq t.ticket_id) seen ≡ false
    → unseen tickets (t.ticket_id ∷ seen) < unseen tickets seen
unfolding filter any
unseen-cons_new t [] seen m new = elim m [ ]
unseen-cons_new t (u ∷ tickets) seen (Memᴰ.head e) new =
    ground (arith, e, unseen-cons t.ticket_id tickets seen, text_eq_refl t.ticket_id)
unseen-cons_new t (u ∷ tickets) seen (Memᴰ.tail m) new =
    ground (arith, unseen-cons_new t tickets seen m new)

module _ (tickets : List TicketRun) where
  -- a search only adds to what is seen
  search_grows :
      (walk' : TicketRun → List Text → Found)
      → ((t : TicketRun) (seen : List Text) → unseen tickets (walk' t seen).1 ≤ unseen tickets seen)
      → (deps seen : List Text)
      → unseen tickets (search walk' tickets deps seen).1 ≤ unseen tickets seen
  unfolding search
  search_grows walk' grows [] seen = omega arith
  search_grows walk' grows (dep ∷ deps) seen = elim (Option-cases (by_id tickets dep)) [
    | inl e ↦ rw e (search_grows walk' grows deps seen)
    | inr (t, e) ↦ elim (Bool-cases (is_dead t.status)) [
      | inl d ↦ rw e (rw d (omega arith))
      | inr d ↦ elim (Option-cases (walk' t seen).0) [
        | inl f ↦ rw e (
            rw d
              (rw f (omega (arith, grows t seen, search_grows walk' grows deps (walk' t seen).1))))
        | inr (dead, f) ↦ rw e (rw d (rw f (grows t seen)))
      ]
    ]
  ]

  walk_grows :
      (fuel : ℕ) (t : TicketRun) (seen : List Text)
      → unseen tickets (walk tickets fuel t seen).1 ≤ unseen tickets seen
  unfolding walk
  walk_grows zero t seen = omega arith
  walk_grows (suc fuel) t seen = elim (Bool-cases (any (text_eq t.ticket_id) seen)) [
    | inl e ↦ rw e (omega arith)
    | inr e ↦ rw e (
        omega (
          arith,
          unseen-cons t.ticket_id tickets seen,
          search_grows (walk tickets fuel) (walk_grows fuel) t.depends_on (t.ticket_id ∷ seen),
        ))
  ]

  -- two walks that agree while few tickets are unseen give searches that agree
  search_same :
      (walk' walk'' : TicketRun → List Text → Found) (n : ℕ)
      → ((t : TicketRun) (seen : List Text) → unseen tickets (walk' t seen).1 ≤ unseen tickets seen)
      → ((t : TicketRun) (seen : List Text)
          → Memᴰ t tickets
          → unseen tickets seen < n
          → walk' t seen ≡ walk'' t seen)
      → (deps seen : List Text) → unseen tickets seen < n
      → search walk' tickets deps seen ≡ search walk'' tickets deps seen
  unfolding search
  search_same walk' walk'' n grows agree [] seen few = refl
  search_same walk' walk'' n grows agree (dep ∷ deps) seen few =
      elim (Option-cases (by_id tickets dep)) [
        | inl e ↦ rw e (search_same walk' walk'' n grows agree deps seen few)
        | inr (t, e) ↦ elim (Bool-cases (is_dead t.status)) [
          | inl d ↦ rw e (rw d refl)
          | inr d ↦
              let there = (find?-some (λ (u : TicketRun). text_eq u.ticket_id dep) tickets e).0 in
              let same = agree t seen there few in
              let fewer : unseen tickets (walk' t seen).1 < n = omega (arith, grows t seen, few) in
              let rest = search_same walk' walk'' n grows agree deps (walk' t seen).1 fewer in
              elim (Option-cases (walk' t seen).0) [
                | inl f ↦ rw e (rw d (rw (sym same) (rw f rest)))
                | inr (dead, f) ↦ rw e (rw d (rw (sym same) (rw f refl)))
              ]
        ]
      ]

  walk_enough :
      (fuel : ℕ) (t : TicketRun) (seen : List Text)
      → Memᴰ t tickets
      → unseen tickets seen < fuel
      → walk tickets fuel t seen ≡ walk tickets (suc fuel) t seen
  unfolding walk
  walk_enough zero t seen there few = absurd (omega (arith, few))
  walk_enough (suc fuel) t seen there few = elim (Bool-cases (any (text_eq t.ticket_id) seen)) [
    | inl e ↦ rw e refl
    | inr e ↦ rw e (
        search_same (walk tickets fuel) (walk tickets (suc fuel)) fuel (walk_grows fuel)
          (walk_enough fuel) t.depends_on (t.ticket_id ∷ seen)
          (omega (arith, few, unseen-cons_new t tickets seen there e)))
  ]

  walk_more :
      (n : ℕ) (t : TicketRun) (more : ℕ)
      → Memᴰ t tickets
      → unseen tickets [] < n
      → walk tickets (n + more) t [] ≡ walk tickets n t []
  walk_more n t zero there few = let same : n + 0 ≡ n = omega arith in rw same refl
  walk_more n t (suc more) there few =
      let next : n + suc more ≡ suc (n + more) = omega arith in
      rw next (
        sym (walk_enough (n + more) t [] there (omega (arith, few))) ∙ walk_more n t more there few)

  -- The search comes to an end: for a ticket of the wave, a fuel of one more than its tickets gives
  -- what any greater fuel gives.
  pub nearest_dead_ancestor_terminates :
      (t : TicketRun) (more : ℕ)
      → Memᴰ t tickets
      → (walk tickets (suc (length tickets) + more) t []).0 ≡ nearest_dead_ancestor tickets t
  unfolding nearest_dead_ancestor
  nearest_dead_ancestor_terminates t more there =
      ap (λ (r : Found). r.0)
        (walk_more (suc (length tickets)) t more there (omega (arith, unseen-le-length tickets [])))

  -- an ancestor of a ticket by its dependencies
  pub data IsAncestor (dead : TicketRun) : TicketRun → Type 0 where
    parent :
        {t : TicketRun} (dep : Text)
        → Memᴰ dep t.depends_on
        → by_id tickets dep ≡ some dead
        → IsAncestor dead t
    further :
        {t u : TicketRun} (dep : Text)
        → Memᴰ dep t.depends_on
        → by_id tickets dep ≡ some u
        → IsAncestor dead u
        → IsAncestor dead t

  search_finds :
      (walk' : TicketRun → List Text → Found) (t dead : TicketRun)
      → ((u : TicketRun) (seen : List Text)
          → (walk' u seen).0 ≡ some dead
          → (is_dead dead.status ≡ true) × IsAncestor dead u)
      → (deps seen : List Text) → ((dep : Text) → Memᴰ dep deps → Memᴰ dep t.depends_on)
      → (search walk' tickets deps seen).0 ≡ some dead
      → (is_dead dead.status ≡ true) × IsAncestor dead t
  unfolding search
  search_finds walk' t dead finds [] seen among h = absurd (ground (arith, h))
  search_finds walk' t dead finds (dep ∷ deps) seen among h =
      elim (Option-cases (by_id tickets dep)) [
        | inl e ↦
            search_finds walk' t dead finds deps seen (λ d m. among d (Memᴰ.tail m)) (rw e at h)
        | inr (u, e) ↦ elim (Bool-cases (is_dead u.status)) [
          | inl d ↦
              let same : u ≡ dead = some-injective u dead (rw d at (rw e at h)) in
              (
                ap (λ (v : TicketRun). is_dead v.status) (sym same) ∙ d,
                IsAncestor.parent dep (among dep (Memᴰ.head refl)) (e ∙ ap some same),
              )
          | inr d ↦ elim (Option-cases (walk' u seen).0) [
            | inl f ↦
                search_finds walk' t dead finds deps (walk' u seen).1 (λ x m. among x (Memᴰ.tail m))
                  (rw f at (rw d at (rw e at h)))
            | inr (v, f) ↦
                let same : v ≡ dead = some-injective v dead (rw f at (rw d at (rw e at h))) in
                let (bad, path) = finds u seen (f ∙ ap some same) in
                (bad, IsAncestor.further dep (among dep (Memᴰ.head refl)) e path)
          ]
        ]
      ]

  walk_finds :
      (fuel : ℕ) (dead t : TicketRun) (seen : List Text)
      → (walk tickets fuel t seen).0 ≡ some dead
      → (is_dead dead.status ≡ true) × IsAncestor dead t
  unfolding walk
  walk_finds zero dead t seen h = absurd (ground (arith, h))
  walk_finds (suc fuel) dead t seen h = elim (Bool-cases (any (text_eq t.ticket_id) seen)) [
    | inl e ↦ absurd (nothing_found (rw e at h))
    | inr e ↦
        search_finds (walk tickets fuel) t dead (walk_finds fuel dead) t.depends_on
          (t.ticket_id ∷ seen) (λ dep m. m) (rw e at h)
  ]
    where
      nothing_found : {u : TicketRun} → none ≡ some u → ⊥
      nothing_found p = cc

  -- The ticket that the search finds is cancelled or failed, and the searched ticket depends on it,
  -- directly or through other tickets of the wave.
  pub nearest_dead_ancestor-IsAncestor :
      (t dead : TicketRun)
      → nearest_dead_ancestor tickets t ≡ some dead
      → (is_dead dead.status ≡ true) × IsAncestor dead t
  unfolding nearest_dead_ancestor
  nearest_dead_ancestor-IsAncestor t dead h = walk_finds (suc (length tickets)) dead t [] h
