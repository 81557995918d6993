-- ===== src/Supervisor/Bounds.antt =====
-- The restart counts and the sleeps before a restart, for any interleaving of the goroutines.
use tunnel_manager.Prelude.{
  ℕ, zero, suc, ◌+◌, ◌-◌, ◌≤◌, ◌≡◌, refl, true, false, List, [], ◌∷◌, Option, none, some, Result,
  ok, err, Error, arith, if_rule, some_eq, ltb, Bool-cases, Option-cases, inl, inr, All, All-append,
}
use mathlib.Core.Path.{subst}
use tunnel_manager.Prelude.Text.{Bytes, text_eq}
use tunnel_manager.Supervisor.{
  max_restart_attempts, Phase, starting, started, waiting, counting, sleeping, ManagedProcess,
  ProcessEvent, Supervisor, new_supervisor, put, register, launch, announce, stop, backoff,
  after_wait, count_restart, resume, expire, stable, Input, registered, launched, announced,
  stop_called, exited, counted, woke, timer_expired, timer_ran, on_launched, on_announced,
  on_exited, on_counted, on_woke, advance, managed_step, subject, step, run,
}

-- In the sleep before an attempt, it is between 1 and 5, and no more are reported.
abbrev pub PhaseBounded : Phase → Type 0
PhaseBounded (sleeping attempt) = (1 ≤ attempt) × (attempt ≤ max_restart_attempts)
PhaseBounded (started pid count) = count ≤ max_restart_attempts
PhaseBounded _ = Unit

pub record IsBounded (p : ManagedProcess) : Type 0 where
  pub few : p.restart_count ≤ max_restart_attempts
  pub phase : PhaseBounded p.phase

abbrev pub AllBounded : Supervisor → Type 0
AllBounded s = (id : Bytes) (p : ManagedProcess) → s.procs id ≡ some p → IsBounded p

-- The events report few restarts.
abbrev pub Modest : List ProcessEvent → Type 0
Modest events = All (λ (e : ProcessEvent). e.restart_count ≤ max_restart_attempts) events

abbrev pub KeepsBounds : Supervisor × List ProcessEvent → Type 0
KeepsBounds x = AllBounded x.0 × Modest x.1

module _ (s : Supervisor) (id : Bytes) (h : AllBounded s) where
  put-some : (q : ManagedProcess) → IsBounded q → AllBounded (put s id (some q))
  put-some q b j p e = elim (Bool-cases (text_eq id j)) [
    | inl same ↦ subst IsBounded (some_eq (rw same at e)) b
    | inr other ↦ h j p (rw other at e)
  ]

  put-none : AllBounded (put s id none)
  put-none j p e = elim (Bool-cases (text_eq id j)) [
    | inl same ↦ absurd (none_some (rw same at e))
    | inr other ↦ h j p (rw other at e)
  ]
    where
      none_some : {q : ManagedProcess} → ◌≡◌ {A = Option ManagedProcess} none (some q) → ⊥
      none_some x = cc

  after_wait-KeepsBounds :
      (p : ManagedProcess) (cause : Option Error)
      → IsBounded p
      → KeepsBounds (after_wait s id p cause)
  unfolding after_wait
  after_wait-KeepsBounds p cause b =
      if_rule KeepsBounds p.stop_requested _ _ (λ asked. (put-none, (omega arith, tt)))
        λ running. (
          put-some (record p { phase = counting cause; armed = false })
              (record { few = b.few; phase = tt }),
          tt,
        )

  count_restart-KeepsBounds :
      (p : ManagedProcess) (cause : Option Error)
      → IsBounded p
      → KeepsBounds (count_restart s id p cause)
  unfolding count_restart
  count_restart-KeepsBounds p cause b =
      if_rule KeepsBounds (ltb max_restart_attempts (p.restart_count + 1)) _ _
        (λ over. (put-none, (omega arith, tt)))
        λ under.
          let low : p.restart_count + 1 ≤ 5 = ground arith in
          (
            put-some
                (record p {
                  phase = sleeping (p.restart_count + 1);
                  restart_count = p.restart_count + 1;
                })
                (record { few = low; phase = (omega arith, low) }),
            tt,
          )

  launch-KeepsBounds :
      (p : ManagedProcess) (outcome : Result ℕ)
      → IsBounded p
      → KeepsBounds (on_launched s id p starting outcome)
  unfolding launch on_launched
  launch-KeepsBounds p (err e) b = (put-none, tt)
  launch-KeepsBounds p (ok pid) b =
      if_rule
        (λ (x : Supervisor × (Result (Unit {0}) × List ProcessEvent)). KeepsBounds (x.0, x.1.1))
        p.stop_requested _ _ (λ asked. (put-none, (omega arith, tt)))
        λ running. (
          put-some (record p { phase = started pid 0 })
              (record { few = b.few; phase = omega arith }),
          tt,
        )

  resume-KeepsBounds :
      (p : ManagedProcess) (attempt : ℕ) (outcome : Result ℕ)
      → IsBounded p
      → attempt ≤ 5
      → KeepsBounds (resume s id p attempt outcome)
  unfolding resume
  resume-KeepsBounds p attempt (err e) b low = after_wait-KeepsBounds p _ b
  resume-KeepsBounds p attempt (ok pid) b low = (
    put-some (record p { phase = started pid attempt }) (record { few = b.few; phase = low }),
    tt,
  )

  on_launched-KeepsBounds :
      (p : ManagedProcess) (f : Phase) (outcome : Result ℕ)
      → IsBounded p
      → KeepsBounds (on_launched s id p f outcome)
  unfolding on_launched
  on_launched-KeepsBounds p starting outcome b = launch-KeepsBounds p outcome b
  on_launched-KeepsBounds p (started pid n) outcome b = (h, tt)
  on_launched-KeepsBounds p (waiting pid) outcome b = (h, tt)
  on_launched-KeepsBounds p (counting c) outcome b = (h, tt)
  on_launched-KeepsBounds p (sleeping n) outcome b = (h, tt)

  on_announced-KeepsBounds :
      (p : ManagedProcess) (f : Phase)
      → IsBounded p
      → PhaseBounded f
      → KeepsBounds (on_announced s id p f)
  unfolding on_announced announce
  on_announced-KeepsBounds p starting b k = (h, tt)
  on_announced-KeepsBounds p (started pid n) b k = (
    put-some (record p { phase = waiting pid; armed = true }) (record { few = b.few; phase = tt }),
    (k, tt),
  )
  on_announced-KeepsBounds p (waiting pid) b k = (h, tt)
  on_announced-KeepsBounds p (counting c) b k = (h, tt)
  on_announced-KeepsBounds p (sleeping n) b k = (h, tt)

  on_exited-KeepsBounds :
      (p : ManagedProcess) (f : Phase) (cause : Option Error)
      → IsBounded p
      → KeepsBounds (on_exited s id p f cause)
  unfolding on_exited
  on_exited-KeepsBounds p starting cause b = (h, tt)
  on_exited-KeepsBounds p (started pid n) cause b = (h, tt)
  on_exited-KeepsBounds p (waiting pid) cause b = after_wait-KeepsBounds p cause b
  on_exited-KeepsBounds p (counting c) cause b = (h, tt)
  on_exited-KeepsBounds p (sleeping n) cause b = (h, tt)

  on_counted-KeepsBounds :
      (p : ManagedProcess) (f : Phase) → IsBounded p → KeepsBounds (on_counted s id p f)
  unfolding on_counted
  on_counted-KeepsBounds p starting b = (h, tt)
  on_counted-KeepsBounds p (started pid n) b = (h, tt)
  on_counted-KeepsBounds p (waiting pid) b = (h, tt)
  on_counted-KeepsBounds p (counting c) b = count_restart-KeepsBounds p c b
  on_counted-KeepsBounds p (sleeping n) b = (h, tt)

  on_woke-KeepsBounds :
      (p : ManagedProcess) (f : Phase) (outcome : Result ℕ)
      → IsBounded p
      → PhaseBounded f
      → KeepsBounds (on_woke s id p f outcome)
  unfolding on_woke
  on_woke-KeepsBounds p starting outcome b k = (h, tt)
  on_woke-KeepsBounds p (started pid n) outcome b k = (h, tt)
  on_woke-KeepsBounds p (waiting pid) outcome b k = (h, tt)
  on_woke-KeepsBounds p (counting c) outcome b k = (h, tt)
  on_woke-KeepsBounds p (sleeping n) outcome b k = resume-KeepsBounds p n outcome b k.1

  advance-KeepsBounds :
      (p : ManagedProcess) (i : Input) → IsBounded p → KeepsBounds (advance s id p i)
  unfolding advance expire stable
  advance-KeepsBounds p (registered _) b = (h, tt)
  advance-KeepsBounds p (stop_called _ _) b = (h, tt)
  advance-KeepsBounds p (launched _ outcome) b = on_launched-KeepsBounds p p.phase outcome b
  advance-KeepsBounds p (announced _) b = on_announced-KeepsBounds p p.phase b b.phase
  advance-KeepsBounds p (exited _ cause) b = on_exited-KeepsBounds p p.phase cause b
  advance-KeepsBounds p (counted _) b = on_counted-KeepsBounds p p.phase b
  advance-KeepsBounds p (woke _ outcome) b = on_woke-KeepsBounds p p.phase outcome b b.phase
  advance-KeepsBounds p (timer_expired _) b = (
    if_rule AllBounded p.armed _ _
        (λ on.
          put-some (record p { armed = false; late = p.late + 1 })
            (record { few = b.few; phase = b.phase }))
        (λ off. h),
    tt,
  )
  advance-KeepsBounds p (timer_ran _) b = (
    if_rule AllBounded (ltb 0 p.late) _ _
        (λ on.
          put-some (record p { restart_count = 0; late = p.late - 1 })
            (record { few = omega arith; phase = b.phase }))
        (λ off. h),
    tt,
  )

  stop-AllBounded : (signal : Result (Unit {0})) → AllBounded (stop s id signal).0
  unfolding stop
  stop-AllBounded signal = elim (Option-cases (s.procs id)) [
    | inl none_here ↦ rw (none_here, stop) h
    | inr (p, there) ↦
        let b = h id p there in
        rw (there, stop)
          (put-some (record p { stop_requested = true }) (record { few = b.few; phase = b.phase }))
  ]

  register-AllBounded : AllBounded (register s id).0
  unfolding register
  register-AllBounded = elim (Option-cases (s.procs id)) [
    | inl none_here ↦
        rw (none_here, register) (put-some _ (record { few = omega arith; phase = tt }))
    | inr (p, there) ↦ rw (there, register) h
  ]

managed_step-KeepsBounds :
    (s : Supervisor) (i : Input) (o : Option ManagedProcess)
    → AllBounded s
    → s.procs (subject i) ≡ o
    → KeepsBounds (managed_step s i o)
managed_step-KeepsBounds s i none h e = (h, tt)
managed_step-KeepsBounds s i (some p) h e =
    advance-KeepsBounds s (subject i) h p i (h (subject i) p e)

step-KeepsBounds : (s : Supervisor) (i : Input) → AllBounded s → KeepsBounds (step s i)
unfolding step
step-KeepsBounds s (registered id) h = (register-AllBounded s id h, tt)
step-KeepsBounds s (stop_called id signal) h = (stop-AllBounded s id h signal, tt)
step-KeepsBounds s (launched id outcome) h =
    managed_step-KeepsBounds s (launched id outcome) (s.procs id) h refl
step-KeepsBounds s (announced id) h = managed_step-KeepsBounds s (announced id) (s.procs id) h refl
step-KeepsBounds s (exited id cause) h =
    managed_step-KeepsBounds s (exited id cause) (s.procs id) h refl
step-KeepsBounds s (counted id) h = managed_step-KeepsBounds s (counted id) (s.procs id) h refl
step-KeepsBounds s (woke id outcome) h =
    managed_step-KeepsBounds s (woke id outcome) (s.procs id) h refl
step-KeepsBounds s (timer_expired id) h =
    managed_step-KeepsBounds s (timer_expired id) (s.procs id) h refl
step-KeepsBounds s (timer_ran id) h = managed_step-KeepsBounds s (timer_ran id) (s.procs id) h refl

-- From a supervisor whose processes are within the bounds, whatever happens in any order, the late
-- functions of expired timers included, leaves them there: the restart count is at most five, and a
-- process that sleeps does so before an attempt between one and five. No event reports more than
-- five restarts.
pub run-KeepsBounds : (s : Supervisor) (is : List Input) → AllBounded s → KeepsBounds (run s is)
unfolding run
run-KeepsBounds s [] h = (h, tt)
run-KeepsBounds s (i ∷ is) h =
    let (kept, few) = step-KeepsBounds s i h in
    let (kept', few') = run-KeepsBounds (step s i).0 is kept in
    (kept', All-append _ (step s i).1 (run (step s i).0 is).1 few few')

backoff_table : (n : ℕ) → 1 ≤ n → n ≤ 5 → (1 ≤ backoff n) × (backoff n ≤ 16)
unfolding backoff
backoff_table zero lo hi = absurd (omega arith)
backoff_table (suc zero) lo hi = omega arith
backoff_table (suc (suc zero)) lo hi = omega arith
backoff_table (suc (suc (suc zero))) lo hi = omega arith
backoff_table (suc (suc (suc (suc zero)))) lo hi = omega arith
backoff_table (suc (suc (suc (suc (suc zero))))) lo hi = omega arith
backoff_table (suc (suc (suc (suc (suc (suc n)))))) lo hi = absurd (omega arith)

-- Whatever happens to a new supervisor, no sleep before a restart is shorter than one second or
-- longer than sixteen.
pub run-backoff :
    (is : List Input) (id : Bytes) (p : ManagedProcess) (attempt : ℕ)
    → (run new_supervisor is).0.procs id ≡ some p
    → p.phase ≡ sleeping attempt
    → (1 ≤ backoff attempt) × (backoff attempt ≤ 16)
run-backoff is id p attempt there e =
    let b = (run-KeepsBounds new_supervisor is (λ j q x. absurd (nothing x))).0 id p there in
    let (low, high) = subst PhaseBounded e b.phase in backoff_table attempt low high
  where
    nothing : {q : ManagedProcess} → ◌≡◌ {A = Option ManagedProcess} none (some q) → ⊥
    nothing x = cc
