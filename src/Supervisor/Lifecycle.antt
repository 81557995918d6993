-- ===== src/Supervisor/Lifecycle.antt =====
-- One step of the supervisor, seen from the entry of its process: what becomes of the entry, what is
-- emitted, and how many restarts the process has left.
use tunnel_manager.Prelude.{
  ℕ, ◌+◌, ◌-◌, ◌≤◌, ◌≡◌, refl, ap, Bool, true, false, ◌&&◌, List, [], ◌∷◌, ◌++◌, Option, none, some,
  Result, ok, err, Error, arith, if_rule, if◌then◌else◌, ltb, ◌⊎◌, inl, inr, All,
}
use tunnel_manager.Prelude.Text.{Bytes, text_eq, text_eq_refl}
use tunnel_manager.Model.{DomainStatus, active}
use tunnel_manager.Supervisor.{
  max_restart_attempts, Phase, starting, started, waiting, counting, sleeping, ManagedProcess,
  ProcessEvent, Supervisor, put, launch, announce, after_wait, count_restart, resume, expire,
  stable, wait_again, Input, registered, launched, announced, stop_called, exited, counted, woke,
  timer_expired, timer_ran, on_launched, on_announced, on_exited, on_counted, on_woke, advance,
  step, run,
}

abbrev pub is_active : DomainStatus → Bool
is_active active = true
is_active _ = false

-- The restarts of a process that the events report.
unfoldable pub restarts : Bytes → List ProcessEvent → ℕ
restarts id [] = 0
restarts id (e ∷ es) =
    let later = restarts id es in
    if is_active e.status && (ltb 0 e.restart_count && text_eq e.domain_id id)
    then later + 1
    else later

abbrev pub pending : Phase → ℕ
pending (started pid count) = if ltb 0 count then 1 else 0
pending (sleeping attempt) = 1
pending _ = 0

-- The restarts that are left, with one that is under way and not reported yet.
abbrev pub budget : Option ManagedProcess → ℕ
budget none = 0
budget (some p) = (max_restart_attempts - p.restart_count) + pending p.phase

-- The process is running or being started.
abbrev pub IsLive : Phase → Type 0
IsLive (counting cause) = ⊥
IsLive (sleeping attempt) = ⊥
IsLive _ = Unit

-- The process is gone, or it was asked to stop while it was running or being started.
abbrev pub IsEnding : Option ManagedProcess → Type 0
IsEnding none = Unit
IsEnding (some p) = (p.stop_requested ≡ true) × IsLive p.phase

-- The function of a timer is what gives restarts back.
abbrev pub Spends : Input → Type 0
Spends (timer_ran id) = ⊥
Spends _ = Unit

-- A step from the entry `p` to `o`.
pub record Moves (id : Bytes) (p : ManagedProcess) (i : Input) (o : Option ManagedProcess)
    (events : List ProcessEvent) : Type 0 where
  pub own : All (λ (e : ProcessEvent). e.domain_id ≡ id) events
  pub cheap : Spends i → restarts id events + budget o ≤ budget (some p)
  pub ending : IsEnding (some p) → IsEnding o

abbrev pub Stepped :
    Supervisor → Bytes → ManagedProcess → Input → Supervisor × List ProcessEvent → Type 0
Stepped s id p i x =
    (x ≡ (s, []))
    ⊎ ((o : Option ManagedProcess) × (events : List ProcessEvent) × (x ≡ (put s id o, events))
        × Moves id p i o events)

module _ (s : Supervisor) (id : Bytes) (p : ManagedProcess) where
  after_wait-Stepped :
      (i : Input) (cause : Option Error)
      → (IsEnding (some p) → p.stop_requested ≡ true)
      → Stepped s id p i (after_wait s id p cause)
  unfolding after_wait restarts
  after_wait-Stepped i cause k =
      if_rule (Stepped s id p i) p.stop_requested _ _
        (λ asked.
          inr (
            none,
            _,
            refl,
            record { own = (refl, tt); cheap = λ _. omega arith; ending = λ _. tt },
          ))
        λ running. inr (
          some (record p { phase = counting cause; armed = false }),
          [],
          refl,
          record { own = tt; cheap = λ _. omega arith; ending = λ h. absurd (cc (k h, running)) },
        )

  count_restart-Stepped :
      (i : Input) (cause : Option Error)
      → (IsEnding (some p) → ⊥)
      → Stepped s id p i (count_restart s id p cause)
  unfolding count_restart restarts
  count_restart-Stepped i cause k =
      if_rule (Stepped s id p i) (ltb max_restart_attempts (p.restart_count + 1)) _ _
        (λ over.
          inr (
            none,
            _,
            refl,
            record { own = (refl, tt); cheap = λ _. omega arith; ending = λ _. tt },
          ))
        λ under. inr (
          some (record p {
            phase = sleeping (p.restart_count + 1);
            restart_count = p.restart_count + 1;
          }),
          [],
          refl,
          record {
            own = tt;
            cheap = λ _. let low : p.restart_count + 1 ≤ 5 = ground arith in omega arith;
            ending = λ h. absurd (k h);
          },
        )

  on_launched-Stepped :
      (i : Input) (f : Phase) (outcome : Result ℕ) → Stepped s id p i (on_launched s id p f outcome)
  unfolding on_launched launch restarts
  on_launched-Stepped i starting (err e) =
      inr (none, [], refl, record { own = tt; cheap = λ _. omega arith; ending = λ _. tt })
  on_launched-Stepped i starting (ok pid) =
      if_rule
        (λ (x : Supervisor × (Result (Unit {0}) × List ProcessEvent)).
          Stepped s id p i (x.0, x.1.1))
        p.stop_requested _ _
        (λ asked.
          inr (
            none,
            _,
            refl,
            record { own = (refl, tt); cheap = λ _. omega arith; ending = λ _. tt },
          ))
        λ running. inr (
          some (record p { phase = started pid 0 }),
          [],
          refl,
          record { own = tt; cheap = λ _. omega arith; ending = λ h. (h.0, tt) },
        )
  on_launched-Stepped i (started pid n) outcome = inl refl
  on_launched-Stepped i (waiting pid) outcome = inl refl
  on_launched-Stepped i (counting c) outcome = inl refl
  on_launched-Stepped i (sleeping n) outcome = inl refl

  on_announced-Stepped :
      (i : Input) (f : Phase) → p.phase ≡ f → Stepped s id p i (on_announced s id p f)
  unfolding on_announced announce restarts
  on_announced-Stepped i starting e = inl refl
  on_announced-Stepped i (started pid n) e = inr (
    some (record p { phase = waiting pid; armed = true }),
    _,
    refl,
    record {
      own = (refl, tt);
      cheap = λ _. rw (e, text_eq_refl id) (ground arith);
      ending = λ h. (h.0, tt);
    },
  )
  on_announced-Stepped i (waiting pid) e = inl refl
  on_announced-Stepped i (counting c) e = inl refl
  on_announced-Stepped i (sleeping n) e = inl refl

  on_exited-Stepped :
      (i : Input) (f : Phase) (cause : Option Error) → Stepped s id p i (on_exited s id p f cause)
  unfolding on_exited
  on_exited-Stepped i starting cause = inl refl
  on_exited-Stepped i (started pid n) cause = inl refl
  on_exited-Stepped i (waiting pid) cause = after_wait-Stepped i cause (λ h. h.0)
  on_exited-Stepped i (counting c) cause = inl refl
  on_exited-Stepped i (sleeping n) cause = inl refl

  on_counted-Stepped :
      (i : Input) (f : Phase) → p.phase ≡ f → Stepped s id p i (on_counted s id p f)
  unfolding on_counted
  on_counted-Stepped i starting e = inl refl
  on_counted-Stepped i (started pid n) e = inl refl
  on_counted-Stepped i (waiting pid) e = inl refl
  on_counted-Stepped i (counting c) e = count_restart-Stepped i c (λ h. rw e at h.1)
  on_counted-Stepped i (sleeping n) e = inl refl

  on_woke-Stepped :
      (i : Input) (f : Phase) (outcome : Result ℕ)
      → p.phase ≡ f
      → Stepped s id p i (on_woke s id p f outcome)
  unfolding on_woke resume restarts
  on_woke-Stepped i starting outcome e = inl refl
  on_woke-Stepped i (started pid n) outcome e = inl refl
  on_woke-Stepped i (waiting pid) outcome e = inl refl
  on_woke-Stepped i (counting c) outcome e = inl refl
  on_woke-Stepped i (sleeping n) (err f) e = after_wait-Stepped i wait_again (λ h. h.0)
  on_woke-Stepped i (sleeping n) (ok pid) e = inr (
    some (record p { phase = started pid n }),
    [],
    refl,
    record { own = tt; cheap = λ _. rw e (ground arith); ending = λ h. absurd (rw e at h.1) },
  )

  pub advance-Stepped : (i : Input) → Stepped s id p i (advance s id p i)
  unfolding advance expire stable restarts
  advance-Stepped (registered j) = inl refl
  advance-Stepped (stop_called j signal) = inl refl
  advance-Stepped (launched j outcome) = on_launched-Stepped (launched j outcome) p.phase outcome
  advance-Stepped (announced j) = on_announced-Stepped (announced j) p.phase refl
  advance-Stepped (exited j cause) = on_exited-Stepped (exited j cause) p.phase cause
  advance-Stepped (counted j) = on_counted-Stepped (counted j) p.phase refl
  advance-Stepped (woke j outcome) = on_woke-Stepped (woke j outcome) p.phase outcome refl
  advance-Stepped (timer_expired j) =
      if_rule (λ (t : Supervisor). Stepped s id p (timer_expired j) (t, [])) p.armed _ _
        (λ on. inr (
          some (record p { armed = false; late = p.late + 1 }),
          [],
          refl,
          record { own = tt; cheap = λ _. omega arith; ending = λ h. h },
        ))
        (λ off. inl refl)
  advance-Stepped (timer_ran j) =
      if_rule (λ (t : Supervisor). Stepped s id p (timer_ran j) (t, [])) (ltb 0 p.late) _ _
        (λ on. inr (
          some (record p { restart_count = 0; late = p.late - 1 }),
          [],
          refl,
          record { own = tt; cheap = λ h. absurd h; ending = λ h. h },
        ))
        (λ off. inl refl)

pub put_self : (s : Supervisor) (id : Bytes) (o : Option ManagedProcess) → (put s id o).procs id ≡ o
put_self s id o = rw (text_eq_refl id)

-- One step of a run whose result is known.
pub run-step :
    (s t : Supervisor) (i : Input) (is : List Input) (events : List ProcessEvent)
    → step s i ≡ (t, events)
    → run s (i ∷ is) ≡ ((run t is).0, events ++ (run t is).1)
unfolding run
run-step s t i is events e =
    ap (λ (x : Supervisor × List ProcessEvent). ((run x.0 is).0, x.1 ++ (run x.0 is).1)) e
