-- ===== src/Manifest/Order.antt =====
-- What `topologicalOrder` (core/manifest.ts) returns.
use mathlib.Core.List.{Memᴰ, append-nil, append_assoc}
use mathlib.Core.Path.{subst}
use openclaw_wave_runner.Prelude.{
  WaveError, ℕ, zero, suc, ◌≤◌, ◌<◌, ◌≡◌, ◌≢◌, ◌⊎◌, ◌↔◌, inl, inr, refl, sym, ap, ◌∙◌, Bool, true,
  not, List, [], ◌∷◌, ◌++◌, length, filter, mem-filter, filter-mem, any, all-true, All, All-of_mem,
  All-mem, Text, text_eq, text_eq_iff, ok, err, arith, Bool-cases,
}
use openclaw_wave_runner.Manifest.{FrozenTicket, is_first, is_ready, first_of, without, order_loop}

-- No two tickets have the same id.
abbrev pub HasDistinctIds : List FrozenTicket → Type 0
HasDistinctIds [] = Unit
HasDistinctIds (t ∷ tickets) = All (λ u. t.ticket_id ≢ u.ticket_id) tickets × HasDistinctIds tickets

-- Every ticket comes after its dependencies, given what is done before.
abbrev pub IsScheduled : List Text → List FrozenTicket → Type 0
IsScheduled done [] = Unit
IsScheduled done (t ∷ tickets) =
    All (λ dep. any (text_eq dep) done ≡ true) t.depends_on
    × IsScheduled (t.ticket_id ∷ done) tickets

pub first_of-mem :
    (before : Text → Text → Bool) (t : FrozenTicket) (tickets : List FrozenTicket)
    → Memᴰ (first_of before t tickets) (t ∷ tickets)
unfolding first_of
first_of-mem before t [] = Memᴰ.head refl
first_of-mem before t (u ∷ tickets) =
    elim (Bool-cases (is_first before t (first_of before u tickets))) [
      | inl e ↦ rw e (Memᴰ.head refl)
      | inr e ↦ rw e (Memᴰ.tail (first_of-mem before u tickets))
    ]

pub ready-cases :
    {A : Type 0} (xs : List A) → (xs ≡ []) ⊎ ((x : A) × (rest : List A) × (xs ≡ x ∷ rest))
ready-cases [] = inl refl
ready-cases (x ∷ xs) = inr (x, xs, refl)

length-without :
    (id : Text) (tickets : List FrozenTicket) → length (without id tickets) ≤ length tickets
unfolding filter
length-without id [] = omega arith
length-without id (t ∷ tickets) = ground (arith, length-without id tickets)

-- taking a ticket away shortens the list
pub length-without_mem :
    (t : FrozenTicket) (tickets : List FrozenTicket)
    → Memᴰ t tickets
    → length (without t.ticket_id tickets) < length tickets
unfolding filter
length-without_mem t [] m = elim m [ ]
length-without_mem t (u ∷ tickets) (Memᴰ.head e) =
    ground (arith, e, length-without t.ticket_id tickets, text_eq_iff u.ticket_id t.ticket_id)
length-without_mem t (u ∷ tickets) (Memᴰ.tail m) = ground (arith, length-without_mem t tickets m)

HasDistinctIds-without :
    (id : Text) (tickets : List FrozenTicket)
    → HasDistinctIds tickets
    → HasDistinctIds (without id tickets)
unfolding filter
HasDistinctIds-without id [] h = tt
HasDistinctIds-without id (t ∷ tickets) h = elim (Bool-cases (not (text_eq t.ticket_id id))) [
  | inl e ↦ rw e (
    All-of_mem _ (without id tickets) (λ u m. All-mem _ tickets h.0 (mem-filter _ tickets m).0),
    HasDistinctIds-without id tickets h.1,
  )
  | inr e ↦ rw e (HasDistinctIds-without id tickets h.1)
]

pub mem-without :
    {t : FrozenTicket} (id : Text) (tickets : List FrozenTicket)
    → Memᴰ t (without id tickets) ↔ (Memᴰ t tickets × (t.ticket_id ≢ id))
mem-without {t} id tickets = (
  λ m.
      let (there, kept) = mem-filter _ tickets m in
      (there, λ e. ground (arith, kept, text_eq_iff t.ticket_id id)),
  λ h. filter-mem _ tickets h.0 (ground (arith, h.1, text_eq_iff t.ticket_id id)),
)

-- A schedule of the tickets in `remaining`: each of them once, none before its dependencies.
pub record IsScheduleOf (done : List Text) (remaining out : List FrozenTicket) : Type 0 where
  pub scheduled : IsScheduled done out
  pub same : (t : FrozenTicket) → Memᴰ t out ↔ Memᴰ t remaining
  pub once : HasDistinctIds out

-- tickets with one id are one ticket
same_of_id :
    {t u : FrozenTicket} (tickets : List FrozenTicket)
    → HasDistinctIds tickets
    → Memᴰ t tickets
    → Memᴰ u tickets
    → t.ticket_id ≡ u.ticket_id
    → t ≡ u
same_of_id [] h m n e = elim m [ ]
same_of_id (x ∷ tickets) h (Memᴰ.head p) (Memᴰ.head q) e = p ∙ sym q
same_of_id {t} {u} (x ∷ tickets) h (Memᴰ.head p) (Memᴰ.tail n) e =
    absurd (All-mem _ tickets h.0 n (ap (λ (v : FrozenTicket). v.ticket_id) (sym p) ∙ e))
same_of_id {t} {u} (x ∷ tickets) h (Memᴰ.tail m) (Memᴰ.head q) e =
    absurd (All-mem _ tickets h.0 m (ap (λ (v : FrozenTicket). v.ticket_id) (sym q) ∙ sym e))
same_of_id (x ∷ tickets) h (Memᴰ.tail m) (Memᴰ.tail n) e = same_of_id tickets h.1 m n e

-- a ready ticket before a schedule of the others
schedule_more :
    (done : List Text) (next : FrozenTicket) (remaining rest : List FrozenTicket)
    → HasDistinctIds remaining
    → Memᴰ next remaining
    → is_ready done next ≡ true
    → IsScheduleOf (next.ticket_id ∷ done) (without next.ticket_id remaining) rest
    → IsScheduleOf done remaining (next ∷ rest)
schedule_more done next remaining rest distinct there ready schedule = record {
  scheduled = (
    All-of_mem _ next.depends_on (λ dep m. all-true _ next.depends_on ready m),
    schedule.scheduled,
  );
  same = λ t. (into t, out_of t);
  once = (
    All-of_mem _ rest
        (λ u m e. ((mem-without next.ticket_id remaining).0 ((schedule.same u).0 m)).1 (sym e)),
    schedule.once,
  );
}
  where
    into : (t : FrozenTicket) → Memᴰ t (next ∷ rest) → Memᴰ t remaining
    into t (Memᴰ.head e) = subst (λ u. Memᴰ u remaining) (sym e) there
    into t (Memᴰ.tail m) = ((mem-without next.ticket_id remaining).0 ((schedule.same t).0 m)).0

    out_of : (t : FrozenTicket) → Memᴰ t remaining → Memᴰ t (next ∷ rest)
    out_of t m = elim (Bool-cases (text_eq t.ticket_id next.ticket_id)) [
      | inl e ↦
          Memᴰ.head
            (same_of_id remaining distinct m there ((text_eq_iff t.ticket_id next.ticket_id).0 e))
      | inr e ↦ Memᴰ.tail (
          (schedule.same t).1 (
            (mem-without next.ticket_id remaining).1 (
              m,
              λ same. absurd (ground (arith, e, same, text_eq_iff t.ticket_id next.ticket_id)),
            )))
    ]

module _ (before : Text → Text → Bool) (fuel : ℕ) (t : FrozenTicket) (tickets : List FrozenTicket)
    (done : List Text) (ordered : List FrozenTicket) where
  -- the two outcomes of a round
  pub round_stuck :
      filter (is_ready done) (t ∷ tickets) ≡ []
      → order_loop before (suc fuel) (t ∷ tickets) done ordered ≡ err WaveError.dependency_cycle
  unfolding order_loop
  round_stuck e = ground arith

  pub round_step :
      (r : FrozenTicket) (ready : List FrozenTicket)
      → filter (is_ready done) (t ∷ tickets) ≡ r ∷ ready
      → let next = first_of before r ready in
        order_loop before (suc fuel) (t ∷ tickets) done ordered
        ≡ order_loop before fuel
            (without next.ticket_id (t ∷ tickets))
            (next.ticket_id ∷ done)
            (ordered ++ next ∷ [])
  unfolding order_loop
  round_step r ready e = ground arith

no_more : (done : List Text) → IsScheduleOf done [] []
no_more done = record { scheduled = tt; same = λ t. (λ m. m, λ m. m); once = tt }

pub order_loop-schedules :
    (before : Text → Text → Bool) (fuel : ℕ) (remaining : List FrozenTicket) (done : List Text)
    (ordered out : List FrozenTicket)
    → length remaining ≤ fuel
    → HasDistinctIds remaining
    → order_loop before fuel remaining done ordered ≡ ok out
    → (rest : List FrozenTicket) × (out ≡ ordered ++ rest) × IsScheduleOf done remaining rest
unfolding order_loop
order_loop-schedules before zero [] done ordered out enough distinct h =
    ([], ground (arith, append-nil ordered), no_more done)
order_loop-schedules before (suc fuel) [] done ordered out enough distinct h =
    ([], ground (arith, append-nil ordered), no_more done)
order_loop-schedules before zero (t ∷ tickets) done ordered out enough distinct h =
    absurd (ground arith)
order_loop-schedules before (suc fuel) (t ∷ tickets) done ordered out enough distinct h =
    elim (ready-cases (filter (is_ready done) (t ∷ tickets))) [
      | inl e ↦ absurd (ground (arith, h, round_stuck before fuel t tickets done ordered e))
      | inr (r, ready, e) ↦
          let next = first_of before r ready in
          let (there, is_ready_next) =
            mem-filter (is_ready done) (t ∷ tickets)
              (subst (λ xs. Memᴰ next xs) (sym e) (first_of-mem before r ready)) in
          let (rest, split, schedule) =
            order_loop-schedules before fuel (without next.ticket_id (t ∷ tickets))
              (next.ticket_id ∷ done) (ordered ++ next ∷ []) out
              (ground (arith, length-without_mem next (t ∷ tickets) there))
              (HasDistinctIds-without next.ticket_id (t ∷ tickets) distinct)
              (sym (round_step before fuel t tickets done ordered r ready e) ∙ h) in
          (
            next ∷ rest,
            split ∙ append_assoc ordered (next ∷ []) rest,
            schedule_more done next (t ∷ tickets) rest distinct there is_ready_next schedule,
          )
    ]
