-- ===== src/Supervisor/Stopping.antt =====
-- What a call of `Stop` does, in each phase of the process.
use tunnel_manager.Prelude.{
  ℕ, ◌≡◌, refl, sym, ap, ◌∙◌, Bool, true, List, [], ◌∷◌, Option, none, some, Result, ok, err, Error,
  sentinel, process_done, All,
}
use mathlib.Core.Path.{subst}
use tunnel_manager.Prelude.Text.{Bytes}
use tunnel_manager.Supervisor.Lifecycle.{IsLive, IsEnding, put_self, run-step}
use tunnel_manager.Supervisor.Budget.{NotStarted, run-IsEnding}
use tunnel_manager.Supervisor.{
  Phase, starting, started, waiting, sleeping, ManagedProcess, ProcessEvent, Supervisor, put,
  active_event, stopped_event, stop, step, run, Input, stop_called, exited, woke, launched,
  announced,
}

abbrev pub managed : Phase → Bool → ℕ → Bool → ℕ → ManagedProcess
managed phase asked count armed late = record {
  phase = phase;
  stop_requested = asked;
  restart_count = count;
  armed = armed;
  late = late;
}

module _ (s : Supervisor) (id : Bytes) where
  asked_to_stop :
      (p : ManagedProcess) (signal : Result (Unit {0}))
      → s.procs id ≡ some p
      → step s (stop_called id signal) ≡ (put s id (some (record p { stop_requested = true })), [])
  unfolding step stop
  asked_to_stop p signal e = rw (e, stop)

  exits_stopped :
      (p : ManagedProcess) (pid : ℕ) (cause : Option Error)
      → s.procs id ≡ some p
      → p.stop_requested ≡ true
      → p.phase ≡ waiting pid
      → step s (exited id cause) ≡ (put s id none, stopped_event id ∷ [])
  unfolding step
  exits_stopped p pid cause e asked f = rw (e, f, asked)

  launches_stopped :
      (p : ManagedProcess) (pid : ℕ)
      → s.procs id ≡ some p
      → p.stop_requested ≡ true
      → p.phase ≡ starting
      → step s (launched id (ok pid)) ≡ (put s id none, stopped_event id ∷ [])
  unfolding step
  launches_stopped p pid e asked f = rw (e, f, asked)

  wakes_anyway :
      (pid attempt count late : ℕ) (armed : Bool)
      → s.procs id ≡ some (managed (sleeping attempt) true count armed late)
      → step s (woke id (ok pid))
        ≡ (put s id (some (managed (started pid attempt) true count armed late)), [])
  unfolding step
  wakes_anyway pid attempt count late armed e = rw (e, step)

  announces_anyway :
      (pid attempt count late : ℕ) (armed : Bool)
      → s.procs id ≡ some (managed (started pid attempt) true count armed late)
      → step s (announced id) ≡ (
        put s id (some (managed (waiting pid) true count true late)),
        active_event id pid attempt ∷ [],
      )
  unfolding step
  announces_anyway pid attempt count late armed e = rw (e, step)

-- Once `Stop` was called for a process that is running or being started, and however its
-- goroutines, those of others and further calls go on, short of a new `Start`: it has no entry, or it
-- is still running or being started, never counted for a restart or asleep before one. The return of
-- its start with a process, or its exit, then takes the entry away, and says that it stopped.
pub stop_is_final :
    (s : Supervisor) (id : Bytes) (p : ManagedProcess) (signal : Result (Unit {0}))
    (is : List Input)
    → s.procs id ≡ some p
    → IsLive p.phase
    → All (NotStarted id) is
    → let s' = (run s (stop_called id signal ∷ is)).0 in
      IsEnding (s'.procs id)
      × ((q : ManagedProcess) (pid : ℕ)
          → s'.procs id ≡ some q
          → (q.phase ≡ waiting pid
              → (cause : Option Error)
              → step s' (exited id cause) ≡ (put s' id none, stopped_event id ∷ []))
            × (q.phase ≡ starting
                → step s' (launched id (ok pid)) ≡ (put s' id none, stopped_event id ∷ [])))
stop_is_final s id p signal is e live rest =
    let asked = record p { stop_requested = true } in
    let t = put s id (some asked) in
    let u = (run s (stop_called id signal ∷ is)).0 in
    let split : u ≡ (run t is).0 =
      ap (λ (x : Supervisor × List ProcessEvent). x.0)
        (run-step s t (stop_called id signal) is [] (asked_to_stop s id p signal e)) in
    let ending : IsEnding (u.procs id) = rw split (
      run-IsEnding id t is rest (subst IsEnding (sym (put_self s id (some asked))) (refl, live))) in
    (
      ending,
      λ q pid there.
          let asked' = (subst IsEnding there ending).0 in
          (
            λ f cause. exits_stopped u id q pid cause there asked' f,
            λ f. launches_stopped u id q pid there asked' f,
          ),
    )

-- A call of `Stop` while `supervise` sleeps before a restart returns that the process is done, and
-- does not prevent the restart: the process is started, it is reported active, and nothing signals it.
pub stop_asleep :
    (s : Supervisor) (id : Bytes) (pid attempt count late : ℕ) (asked armed : Bool)
    (signal : Result (Unit {0}))
    → s.procs id ≡ some (managed (sleeping attempt) asked count armed late)
    → let inputs = stop_called id signal ∷ (woke id (ok pid) ∷ (announced id ∷ [])) in
      ((stop s id signal).1 ≡ err (sentinel process_done))
      × ((run s inputs).0.procs id ≡ some (managed (waiting pid) true count true late))
      × ((run s inputs).1 ≡ active_event id pid attempt ∷ [])
unfolding stop run
stop_asleep s id pid attempt count late asked armed signal e =
    let t = put s id (some (managed (sleeping attempt) true count armed late)) in
    let u = put t id (some (managed (started pid attempt) true count armed late)) in
    let v = put u id (some (managed (waiting pid) true count true late)) in
    let rest : List Input = woke id (ok pid) ∷ (announced id ∷ []) in
    let first =
      run-step s t (stop_called id signal) rest []
        (asked_to_stop s id (managed (sleeping attempt) asked count armed late) signal e) in
    let second =
      run-step t u (woke id (ok pid)) (announced id ∷ []) []
        (wakes_anyway t id pid attempt count late armed (put_self s id _)) in
    let third =
      run-step u v (announced id) [] _
        (announces_anyway u id pid attempt count late armed (put_self t id _)) in
    let all = first ∙ (second ∙ third) in
    (
      rw (e, stop),
      ap (λ (x : Supervisor × List ProcessEvent). x.0.procs id) all ∙ put_self u id _,
      ap (λ (x : Supervisor × List ProcessEvent). x.1) all,
    )
