-- ===== src/Supervisor/Budget.antt =====
-- How a run of the supervisor moves the entry of one process, among those of others.
use tunnel_manager.Prelude.{
  ◌+◌, ◌≤◌, ◌≡◌, refl, sym, ap, ◌∙◌, true, false, ◌&&◌, List, [], ◌∷◌, ◌++◌, Option, none, some,
  arith, ltb, Option-cases, Bool-cases, inl, inr, All,
}
use mathlib.Core.Path.{subst}
use tunnel_manager.Prelude.Text.{Bytes, text_eq, text_eq_iff}
use tunnel_manager.Supervisor.{
  ManagedProcess, ProcessEvent, Supervisor, put, fresh, register, stop, Input, registered, launched,
  announced, stop_called, exited, counted, woke, timer_expired, timer_ran, managed_step, subject,
  step, run,
}
use tunnel_manager.Supervisor.Lifecycle.{
  is_active, restarts, budget, IsEnding, Spends, Moves, Stepped, advance-Stepped,
}

-- A step changes nothing, or makes an entry, or moves the entry of its process.
data Change (s : Supervisor) (i : Input) : Supervisor × List ProcessEvent → Type 0 where
  same : Change s i (s, [])
  made : (id : Bytes) → i ≡ registered id → Change s i (put s id (some fresh), [])
  moved :
      (p : ManagedProcess) (o : Option ManagedProcess) (events : List ProcessEvent)
      → s.procs (subject i) ≡ some p
      → Moves (subject i) p i o events
      → Change s i (put s (subject i) o, events)

Stepped-Change :
    (s : Supervisor) (i : Input) (p : ManagedProcess) (x : Supervisor × List ProcessEvent)
    → s.procs (subject i) ≡ some p
    → Stepped s (subject i) p i x
    → Change s i x
Stepped-Change s i p x there (inl e) = subst (Change s i) (sym e) same
Stepped-Change s i p x there (inr (o, events, e, m)) =
    subst (Change s i) (sym e) (moved p o events there m)

managed_step-Change :
    (s : Supervisor) (i : Input) (o : Option ManagedProcess)
    → s.procs (subject i) ≡ o
    → Change s i (managed_step s i o)
managed_step-Change s i none e = same
managed_step-Change s i (some p) e = Stepped-Change s i p _ e (advance-Stepped s (subject i) p i)

step-Change : (s : Supervisor) (i : Input) → Change s i (step s i)
unfolding step register stop restarts
step-Change s (registered id) = elim (Option-cases (s.procs id)) [
  | inl e ↦ rw (e, register) (made id refl)
  | inr (p, e) ↦ rw (e, register) same
]
step-Change s (stop_called id signal) = elim (Option-cases (s.procs id)) [
  | inl e ↦ rw (e, stop) same
  | inr (p, e) ↦
      rw (e, stop)
        (moved p (some (record p { stop_requested = true })) [] e
          (record { own = tt; cheap = λ _. omega arith; ending = λ h. (refl, h.1) }))
]
step-Change s (launched id outcome) = managed_step-Change s (launched id outcome) (s.procs id) refl
step-Change s (announced id) = managed_step-Change s (announced id) (s.procs id) refl
step-Change s (exited id cause) = managed_step-Change s (exited id cause) (s.procs id) refl
step-Change s (counted id) = managed_step-Change s (counted id) (s.procs id) refl
step-Change s (woke id outcome) = managed_step-Change s (woke id outcome) (s.procs id) refl
step-Change s (timer_expired id) = managed_step-Change s (timer_expired id) (s.procs id) refl
step-Change s (timer_ran id) = managed_step-Change s (timer_ran id) (s.procs id) refl

-- No call of `Start` registers the process.
abbrev pub NotStarted : Bytes → Input → Type 0
NotStarted id (registered j) = text_eq j id ≡ false
NotStarted id _ = Unit

-- Nor does the function of a timer of the process run.
abbrev pub IsSpending : Bytes → Input → Type 0
IsSpending id (timer_ran j) = text_eq j id ≡ false
IsSpending id i = NotStarted id i

IsSpending-NotStarted : (id : Bytes) (i : Input) → IsSpending id i → NotStarted id i
IsSpending-NotStarted id (registered j) h = h
IsSpending-NotStarted id (launched j outcome) h = tt
IsSpending-NotStarted id (announced j) h = tt
IsSpending-NotStarted id (stop_called j signal) h = tt
IsSpending-NotStarted id (exited j cause) h = tt
IsSpending-NotStarted id (counted j) h = tt
IsSpending-NotStarted id (woke j outcome) h = tt
IsSpending-NotStarted id (timer_expired j) h = tt
IsSpending-NotStarted id (timer_ran j) h = tt

IsSpending-Spends :
    (i : Input) → IsSpending (subject i) i → (text_eq (subject i) (subject i) ≡ true) → Spends i
IsSpending-Spends (registered j) h e = tt
IsSpending-Spends (launched j outcome) h e = tt
IsSpending-Spends (announced j) h e = tt
IsSpending-Spends (stop_called j signal) h e = tt
IsSpending-Spends (exited j cause) h e = tt
IsSpending-Spends (counted j) h e = tt
IsSpending-Spends (woke j outcome) h e = tt
IsSpending-Spends (timer_expired j) h e = tt
IsSpending-Spends (timer_ran j) h e = cc (h, e)

restarts_other :
    (j id : Bytes) (events : List ProcessEvent)
    → text_eq j id ≡ false
    → All (λ (e : ProcessEvent). e.domain_id ≡ j) events
    → restarts id events ≡ 0
unfolding restarts
restarts_other j id [] other h = refl
restarts_other j id (e ∷ es) other (h, hs) =
    let missed : text_eq e.domain_id id ≡ false = subst (λ k. text_eq k id ≡ false) (sym h) other in
    let later = restarts_other j id es other hs in
    elim (Bool-cases (is_active e.status && (ltb 0 e.restart_count && text_eq e.domain_id id))) [
      | inl hit ↦ absurd (ground (arith, missed, hit))
      | inr miss ↦ rw miss later
    ]

restarts-append :
    (id : Bytes) (es fs : List ProcessEvent)
    → restarts id (es ++ fs) ≡ restarts id es + restarts id fs
unfolding restarts
restarts-append id [] fs = omega arith
restarts-append id (e ∷ es) fs = ground (arith, restarts-append id es fs)

module _ (id : Bytes) (s : Supervisor) (i : Input) where
  Change-restarts :
      (x : Supervisor × List ProcessEvent)
      → Change s i x
      → IsSpending id i
      → restarts id x.1 + budget (x.0.procs id) ≤ budget (s.procs id)
  unfolding restarts
  Change-restarts _ same h = omega arith
  Change-restarts _ (made j e) h =
      let other : text_eq j id ≡ false = subst (IsSpending id) e h in rw other (omega arith)
  Change-restarts _ (moved p o events there m) h = elim (Bool-cases (text_eq (subject i) id)) [
    | inr other ↦ rw (other, restarts_other (subject i) id events other m.own) (omega arith)
    | inl mine ↦
        let e = (text_eq_iff (subject i) id).0 mine in
        rw mine (
          subst (λ j. restarts j events + budget o ≤ budget (s.procs j)) e
            (rw there (
              m.cheap (
                IsSpending-Spends i (subst (λ j. IsSpending j i) (sym e) h)
                  (subst (λ j. text_eq (subject i) j ≡ true) (sym e) mine)))))
  ]

  Change-IsEnding :
      (x : Supervisor × List ProcessEvent)
      → Change s i x
      → NotStarted id i
      → IsEnding (s.procs id)
      → IsEnding (x.0.procs id)
  Change-IsEnding _ same h k = k
  Change-IsEnding _ (made j e) h k =
      let other : text_eq j id ≡ false = subst (NotStarted id) e h in rw other k
  Change-IsEnding _ (moved p o events there m) h k = elim (Bool-cases (text_eq (subject i) id)) [
    | inr other ↦ rw other k
    | inl mine ↦
        let e = (text_eq_iff (subject i) id).0 mine in
        rw mine (m.ending (subst IsEnding (ap (λ j. s.procs j) (sym e) ∙ there) k))
  ]

-- As long as neither a new `Start` of the process nor the function of one of its stable timers comes
-- in between, it is restarted no more often than its count leaves of five, and once more if a restart
-- is under way, whatever happens to it and to others and in whatever order: each restart that is
-- reported takes one off what is left.
pub run-restarts :
    (id : Bytes) (s : Supervisor) (is : List Input)
    → All (IsSpending id) is
    → restarts id (run s is).1 + budget ((run s is).0.procs id) ≤ budget (s.procs id)
unfolding run restarts
run-restarts id s [] h = omega arith
run-restarts id s (i ∷ is) (h, hs) =
    let now = Change-restarts id s i (step s i) (step-Change s i) h in
    let later = run-restarts id (step s i).0 is hs in
    rw (restarts-append id (step s i).1 (run (step s i).0 is).1) (omega (arith, now, later))

pub run-IsEnding :
    (id : Bytes) (s : Supervisor) (is : List Input)
    → All (NotStarted id) is
    → IsEnding (s.procs id)
    → IsEnding ((run s is).0.procs id)
unfolding run
run-IsEnding id s [] h k = k
run-IsEnding id s (i ∷ is) (h, hs) k =
    run-IsEnding id (step s i).0 is hs (Change-IsEnding id s i (step s i) (step-Change s i) h k)
