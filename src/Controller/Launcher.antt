-- ===== src/Controller/Launcher.antt =====
-- What the controller promises to the worker: it is an abstract launcher of queued tasks, each of which
-- is launched once at most. How the rows of the outbox and the calls of the worker (core/launch.ts,
-- core/admission.ts) are its state, and when one such state comes from another.
use mathlib.Core.List.{Memᴰ, append_assoc, append-nil}
use mathlib.Core.Path.{subst}
use openclaw_wave_runner.Prelude.{◌≡◌, ◌≢◌, sym, ap, ◌∙◌, List, [], ◌∷◌, ◌++◌, All, Text}
use openclaw_wave_runner.Store.Outbox.{outbox_keys}
use openclaw_wave_runner.Controller.Exec.{Controller}
use openclaw_wave_runner.Controller.Quiet.{Distinct, launched_keys}

-- The tasks that were ever queued, the last one last, and those that were launched, the last one first.
pub record Tasks : Type 0 where
  pub queued : List Text
  pub log : List Text

-- The launcher has two steps: it queues a new task, or launches one that is queued and was never launched.
pub data Launcher (before : Tasks) : Tasks → Type 0 where
  idle : Launcher before before
  queue :
      {queued log : List Text} (k : Text)
      → Launcher before (record { queued = queued; log = log })
      → All (λ j. j ≢ k) queued
      → Launcher before (record { queued = queued ++ k ∷ []; log = log })
  launch :
      {queued log : List Text} (k : Text)
      → Launcher before (record { queued = queued; log = log })
      → Memᴰ k queued
      → All (λ j. k ≢ j) log
      → Launcher before (record { queued = queued; log = k ∷ log })

-- the state of the launcher that a controller stands for
abbrev pub tasks : Controller → Tasks
tasks c = record { queued = outbox_keys c.db; log = launched_keys c.calls }

-- The second log is the first with more keys before it.
pub record LogGrows (log log' : List Text) : Type 0 where
  pub more : List Text
  pub grown : log' ≡ more ++ log

pub LogGrows-same : {log log' : List Text} → log' ≡ log → LogGrows log log'
LogGrows-same e = record { more = []; grown = e }

pub LogGrows-trans :
    {log log' log'' : List Text} → LogGrows log log' → LogGrows log' log'' → LogGrows log log''
LogGrows-trans {log} p q = record {
  more = q.more ++ p.more;
  grown = q.grown ∙ ap (λ l. q.more ++ l) p.grown ∙ sym (append_assoc q.more p.more log);
}

-- The second list of keys is the first with more keys behind it.
pub record KeysGrow (keys keys' : List Text) : Type 0 where
  pub more : List Text
  pub grown : keys' ≡ keys ++ more

pub KeysGrow-same : {keys keys' : List Text} → keys' ≡ keys → KeysGrow keys keys'
KeysGrow-same {keys} e = record { more = []; grown = e ∙ sym (append-nil keys) }

pub KeysGrow-trans :
    {keys keys' keys'' : List Text}
    → KeysGrow keys keys'
    → KeysGrow keys' keys''
    → KeysGrow keys keys''
KeysGrow-trans {keys} p q = record {
  more = p.more ++ q.more;
  grown = q.grown ∙ ap (λ l. l ++ q.more) p.grown ∙ append_assoc keys p.more q.more;
}

before_last :
    (k : Text) (keys more : List Text) → Distinct (keys ++ k ∷ more) → All (λ j. j ≢ k) keys
before_last k [] more h = tt
before_last k (j ∷ keys) more h = (first j keys h.0, before_last k keys more h.1)
  where
    first : (j : Text) (keys : List Text) → All (λ i. j ≢ i) (keys ++ k ∷ more) → j ≢ k
    first j [] h = h.0
    first j (i ∷ keys) h = first j keys h.1

module _ (before : Tasks) where
  pub queue_all :
      (queued log more : List Text)
      → Distinct (queued ++ more)
      → Launcher before (record { queued = queued; log = log })
      → Launcher before (record { queued = queued ++ more; log = log })
  queue_all queued log [] h run =
      subst (λ q. Launcher before (record { queued = q; log = log })) (sym (append-nil queued)) run
  queue_all queued log (k ∷ more) h run =
      let e = append_assoc queued (k ∷ []) more in
      subst (λ q. Launcher before (record { queued = q; log = log })) e
        (queue_all (queued ++ k ∷ []) log more (subst Distinct (sym e) h)
          (Launcher.queue k run (before_last k queued more h)))

  pub launch_all :
      (queued log more : List Text)
      → Distinct (more ++ log)
      → All (λ k. Memᴰ k queued) more
      → Launcher before (record { queued = queued; log = log })
      → Launcher before (record { queued = queued; log = more ++ log })
  launch_all queued log [] h known run = run
  launch_all queued log (k ∷ more) h known run =
      Launcher.launch k (launch_all queued log more h.1 known.1 run) known.0 h.0
