-- ===== src/Manifest/Acyclic.antt =====
-- `topologicalOrder` (core/manifest.ts) on tickets whose dependencies are there and have no cycle.
use mathlib.Core.List.{Memᴰ, append-nil, append_assoc}
use mathlib.Core.Path.{subst}
use openclaw_wave_runner.Prelude.{
  ℕ, zero, suc, ◌≤◌, ◌<◌, ◌≡◌, ◌≢◌, ◌⊎◌, inl, inr, refl, sym, ◌∙◌, Bool, true, List, [], ◌∷◌, ◌++◌,
  length, filter, mem-filter, filter-mem, any, all, All, All-of_mem, All-mem, All-append, Text,
  text_eq, text_eq_iff, ok, arith, Bool-cases, leb,
}
use openclaw_wave_runner.Manifest.{
  FrozenTicket, set_ticket, map_of_from, map_of, is_ready, first_of, without, order_loop,
  topological_order,
}
use openclaw_wave_runner.Manifest.Order.{
  HasDistinctIds, IsScheduleOf, order_loop-schedules, round_step, ready-cases, length-without_mem,
  mem-without, first_of-mem,
}

-- Each dependency is done, or it is a ticket in the list that has a smaller rank.
abbrev pub IsRanked : (Text → ℕ) → List Text → List FrozenTicket → Type 0
IsRanked rank done tickets =
    (t : FrozenTicket) (dep : Text)
    → Memᴰ t tickets
    → Memᴰ dep t.depends_on
    → (any (text_eq dep) done ≡ true)
      ⊎ ((u : FrozenTicket) × Memᴰ u tickets × (u.ticket_id ≡ dep) × (rank dep < rank t.ticket_id))

lowest :
    (rank : Text → ℕ) (t : FrozenTicket) (tickets : List FrozenTicket)
    → (m : FrozenTicket) × Memᴰ m (t ∷ tickets)
      × ((u : FrozenTicket) → Memᴰ u (t ∷ tickets) → rank m.ticket_id ≤ rank u.ticket_id)
lowest rank t [] = (t, Memᴰ.head refl, only)
  where
    only : (u : FrozenTicket) → Memᴰ u (t ∷ []) → rank t.ticket_id ≤ rank u.ticket_id
    only u (Memᴰ.head e) = ground (arith, e)
    only u (Memᴰ.tail m) = elim m [ ]
lowest rank t (x ∷ tickets) =
    let (m, there, least) = lowest rank x tickets in
    elim (Bool-cases (leb (rank t.ticket_id) (rank m.ticket_id))) [
      | inl e ↦ (t, Memᴰ.head refl, below t m least (ground arith) (ground arith))
      | inr e ↦ (m, Memᴰ.tail there, below m m least (ground arith) (ground arith))
    ]
  where
    below :
        (k m : FrozenTicket)
        → ((u : FrozenTicket) → Memᴰ u (x ∷ tickets) → rank m.ticket_id ≤ rank u.ticket_id)
        → rank k.ticket_id ≤ rank m.ticket_id
        → rank k.ticket_id ≤ rank t.ticket_id
        → (u : FrozenTicket) → Memᴰ u (t ∷ x ∷ tickets)
        → rank k.ticket_id ≤ rank u.ticket_id
    below k m least le lt u (Memᴰ.head e) = ground (arith, e, lt)
    below k m least le lt u (Memᴰ.tail n) = omega (arith, le, least u n)

all_of_mem :
    {A : Type 0} (p : A → Bool) (xs : List A) → ((x : A) → Memᴰ x xs → p x ≡ true) → all p xs ≡ true
unfolding all
all_of_mem p [] h = refl
all_of_mem p (x ∷ xs) h =
    ground (arith, h x (Memᴰ.head refl), all_of_mem p xs (λ y m. h y (Memᴰ.tail m)))

-- the lowest ticket is ready
some_ready :
    (rank : Text → ℕ) (done : List Text) (t : FrozenTicket) (tickets : List FrozenTicket)
    → IsRanked rank done (t ∷ tickets)
    → filter (is_ready done) (t ∷ tickets) ≢ []
some_ready rank done t tickets ranked none_ready =
    let (m, there, least) = lowest rank t tickets in
    let ready : is_ready done m ≡ true = all_of_mem _ m.depends_on (λ dep n.
      elim (ranked m dep there n) [
        | inl done_dep ↦ done_dep
        | inr (u, in_list, own, lower) ↦ absurd (ground (arith, least u in_list, own, lower))
      ]) in
    elim (subst (λ xs. Memᴰ m xs) none_ready
      (filter-mem (is_ready done) (t ∷ tickets) there ready)) [ ]

-- taking a ready ticket away keeps the ranking
IsRanked-without :
    (rank : Text → ℕ) (done : List Text) (tickets : List FrozenTicket) (next : FrozenTicket)
    → IsRanked rank done tickets
    → IsRanked rank (next.ticket_id ∷ done) (without next.ticket_id tickets)
unfolding any
IsRanked-without rank done tickets next ranked t dep m n =
    elim (ranked t dep ((mem-without next.ticket_id tickets).0 m).0 n) [
      | inl done_dep ↦ inl (ground (arith, done_dep))
      | inr (u, there, own, lower) ↦ elim (Bool-cases (text_eq dep next.ticket_id)) [
        | inl e ↦ inl (ground (arith, e))
        | inr e ↦ inr (
          u,
          (mem-without next.ticket_id tickets).1 (
            there,
            λ same. absurd (ground (arith, e, own, same, text_eq_iff dep next.ticket_id)),
          ),
          own,
          lower,
        )
      ]
    ]

order_loop_total :
    (before : Text → Text → Bool) (rank : Text → ℕ) (fuel : ℕ) (remaining : List FrozenTicket)
    (done : List Text) (ordered : List FrozenTicket)
    → length remaining ≤ fuel
    → IsRanked rank done remaining
    → (out : List FrozenTicket) × (order_loop before fuel remaining done ordered ≡ ok out)
unfolding order_loop
order_loop_total before rank zero [] done ordered enough ranked = (ordered, refl)
order_loop_total before rank (suc fuel) [] done ordered enough ranked = (ordered, refl)
order_loop_total before rank zero (t ∷ tickets) done ordered enough ranked = absurd (ground arith)
order_loop_total before rank (suc fuel) (t ∷ tickets) done ordered enough ranked =
    elim (ready-cases (filter (is_ready done) (t ∷ tickets))) [
      | inl e ↦ absurd (some_ready rank done t tickets ranked e)
      | inr (r, ready, e) ↦
          let next = first_of before r ready in
          let (there, _) =
            mem-filter (is_ready done) (t ∷ tickets)
              (subst (λ xs. Memᴰ next xs) (sym e) (first_of-mem before r ready)) in
          let (out, rest) =
            order_loop_total before rank fuel (without next.ticket_id (t ∷ tickets))
              (next.ticket_id ∷ done) (ordered ++ next ∷ [])
              (ground (arith, length-without_mem next (t ∷ tickets) there))
              (IsRanked-without rank done (t ∷ tickets) next ranked) in
          (out, round_step before fuel t tickets done ordered r ready e ∙ rest)
    ]

-- the map of tickets with distinct ids lists them as they are
set_fresh :
    (t : FrozenTicket) (entries : List FrozenTicket)
    → All (λ u. t.ticket_id ≢ u.ticket_id) entries
    → set_ticket t entries ≡ entries ++ t ∷ []
unfolding set_ticket
set_fresh t [] h = refl
set_fresh t (u ∷ entries) h =
    ground (arith, text_eq_iff u.ticket_id t.ticket_id, set_fresh t entries h.1)

map_of_from-distinct :
    (entries tickets : List FrozenTicket)
    → HasDistinctIds tickets
    → All (λ t. All (λ u. t.ticket_id ≢ u.ticket_id) entries) tickets
    → map_of_from entries tickets ≡ entries ++ tickets
unfolding map_of_from
map_of_from-distinct entries [] distinct apart = sym (append-nil entries)
map_of_from-distinct entries (t ∷ tickets) distinct apart =
    let later = All-of_mem _ tickets (λ u m.
      All-append (λ v. u.ticket_id ≢ v.ticket_id) entries (t ∷ []) (All-mem _ tickets apart.1 m)
        (λ e. All-mem _ tickets distinct.0 m (sym e), tt)) in
    rw (set_fresh t entries apart.0) (
      map_of_from-distinct (entries ++ t ∷ []) tickets distinct.1 later
      ∙ append_assoc entries (t ∷ []) tickets)

map_of-distinct : (tickets : List FrozenTicket) → HasDistinctIds tickets → map_of tickets ≡ tickets
unfolding map_of
map_of-distinct tickets distinct =
    map_of_from-distinct [] tickets distinct (All-of_mem _ tickets (λ t m. tt))

module _ (before : Text → Text → Bool) (tickets : List FrozenTicket)
    (distinct : HasDistinctIds tickets) where
  -- What the ordering returns for tickets with distinct ids is a schedule of them: each ticket stands
  -- in it once, and none before one of its dependencies.
  pub topological_order-IsScheduleOf :
      (out : List FrozenTicket)
      → topological_order before tickets ≡ ok out
      → IsScheduleOf [] tickets out
  unfolding topological_order
  topological_order-IsScheduleOf out h =
      let (rest, same, schedule) =
        order_loop-schedules before (length tickets) tickets [] [] out (omega arith) distinct
          (rw (map_of-distinct tickets distinct) at h) in
      subst (IsScheduleOf [] tickets) (sym same) schedule

  -- The ordering of tickets with distinct ids does not throw where they can be ranked, that is
  -- where every dependency is a ticket of a smaller rank.
  pub topological_order_total :
      (rank : Text → ℕ)
      → IsRanked rank [] tickets
      → (out : List FrozenTicket) × (topological_order before tickets ≡ ok out)
  unfolding topological_order
  topological_order_total rank ranked =
      rw (map_of-distinct tickets distinct)
        (order_loop_total before rank (length tickets) tickets [] [] (omega arith) ranked)
