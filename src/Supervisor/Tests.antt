-- ===== src/Supervisor/Tests.antt =====
-- Runs of the supervisor, and its theorems at concrete inputs.
use tunnel_manager.Prelude.{
  ℕ, ◌+◌, ◌≤◌, ◌≡◌, refl, true, false, List, [], ◌∷◌, Option, none, some, ok, err, Error, external,
  sentinel, process_done, All,
}
use tunnel_manager.Prelude.Text.{Bytes, codes, text_eq}
use tunnel_manager.Supervisor.{
  starting, waiting, sleeping, ManagedProcess, Supervisor, new_supervisor, put, active_event,
  stopped_event, stop, start, backoff, Input, registered, launched, announced, stop_called, exited,
  counted, woke, timer_expired, timer_ran, step, run,
}
use tunnel_manager.Supervisor.Bounds.{AllBounded, KeepsBounds, run-KeepsBounds, run-backoff}
use tunnel_manager.Supervisor.Lifecycle.{IsEnding, restarts, budget}
use tunnel_manager.Supervisor.Budget.{IsSpending, run-restarts}
use tunnel_manager.Supervisor.Stopping.{managed, stop_is_final, stop_asleep}

abbrev d : Bytes
d = codes "d"

abbrev crash : Option Error
crash = some (external (codes "exit status 1"))

abbrev round : ℕ → List Input → List Input
round pid more = exited d crash ∷ (counted d ∷ (woke d (ok pid) ∷ (announced d ∷ more)))

-- A process that starts, crashes, starts again and crashes.
abbrev script : List Input
script =
    registered d ∷ (launched d (ok 7) ∷ (announced d ∷ round 8 (exited d crash ∷ (counted d ∷ []))))

script_sleeps : (run new_supervisor script).0.procs d ≡ some (managed (sleeping 2) false 2 false 0)
unfolding run step text_eq
script_sleeps = refl

script_events : (run new_supervisor script).1 ≡ active_event d 7 0 ∷ (active_event d 8 1 ∷ [])
unfolding run step text_eq
script_events = refl

started_in_one :
    (start new_supervisor d (ok 7)).0.procs d
    ≡ (run new_supervisor (registered d ∷ (launched d (ok 7) ∷ (announced d ∷ [])))).0.procs d
unfolding run step start text_eq
started_in_one = refl

AllBounded-new : AllBounded new_supervisor
AllBounded-new id p e = cc

run-KeepsBounds_example : KeepsBounds (run new_supervisor script)
run-KeepsBounds_example = run-KeepsBounds new_supervisor script AllBounded-new

run-backoff_example : (1 ≤ backoff 2) × (backoff 2 ≤ 16)
run-backoff_example =
    run-backoff script d (managed (sleeping 2) false 2 false 0) 2 script_sleeps refl

abbrev holding : ManagedProcess → Supervisor
holding p = put new_supervisor d (some p)

abbrev running : ManagedProcess
running = managed (waiting 7) false 0 true 0

abbrev asleep : ManagedProcess
asleep = managed (sleeping 2) false 2 false 0

holding_lem : (p : ManagedProcess) → (holding p).procs d ≡ some p
unfolding text_eq
holding_lem p = refl

-- A function that was late gives the restarts back, also during the sleep.
abbrev reset_late : List Input
reset_late = timer_expired d ∷ (exited d crash ∷ (counted d ∷ (timer_ran d ∷ [])))

late_resets :
    (run (holding running) reset_late).0.procs d ≡ some (managed (sleeping 1) false 0 false 0)
unfolding run step text_eq
late_resets = refl

abbrev last : List Input
last = exited d crash ∷ (counted d ∷ [])

abbrev crashes : List Input
crashes = round 1 (round 2 (round 3 (round 4 (round 5 last))))

crashes_restart : restarts d (run (holding running) crashes).1 ≡ 5
unfolding run step text_eq restarts
crashes_restart = refl

round-IsSpending :
    (pid : ℕ) (more : List Input) → All (IsSpending d) more → All (IsSpending d) (round pid more)
round-IsSpending pid more h = (tt, (tt, (tt, (tt, h))))

crashes-IsSpending : All (IsSpending d) crashes
crashes-IsSpending = round-IsSpending 1 (round 2 (round 3 (round 4 (round 5 last)))) (
    round-IsSpending 2 (round 3 (round 4 (round 5 last))) (
      round-IsSpending 3 (round 4 (round 5 last))
        (round-IsSpending 4 (round 5 last) (round-IsSpending 5 last (tt, (tt, tt))))))

run-restarts_example :
    restarts d (run (holding running) crashes).1
      + budget ((run (holding running) crashes).0.procs d)
    ≤ budget ((holding running).procs d)
run-restarts_example = run-restarts d (holding running) crashes crashes-IsSpending

stop_asleep_example :
    ((stop (holding asleep) d (ok tt)).1 ≡ err (sentinel process_done))
    × ((run (holding asleep) (stop_called d (ok tt) ∷ (woke d (ok 9) ∷ (announced d ∷ [])))).0.procs
          d
        ≡ some (managed (waiting 9) true 2 true 0))
    × ((run (holding asleep) (stop_called d (ok tt) ∷ (woke d (ok 9) ∷ (announced d ∷ [])))).1
        ≡ active_event d 9 2 ∷ [])
stop_asleep_example =
    stop_asleep (holding asleep) d 9 2 2 0 false false (ok tt) (holding_lem asleep)

-- The process of another domain starts while this one stops.
abbrev others : List Input
others = registered (codes "e") ∷ (timer_expired d ∷ [])

abbrev stopping : Supervisor
stopping = (run (holding running) (stop_called d (ok tt) ∷ others)).0

stop_is_final_example :
    IsEnding (stopping.procs d)
    × ((q : ManagedProcess) (pid : ℕ)
        → stopping.procs d ≡ some q
        → (q.phase ≡ waiting pid
            → (cause : Option Error)
            → step stopping (exited d cause) ≡ (put stopping d none, stopped_event d ∷ []))
          × (q.phase ≡ starting
              → step stopping (launched d (ok pid)) ≡ (put stopping d none, stopped_event d ∷ [])))
stop_is_final_example =
    stop_is_final (holding running) d running (ok tt) others (holding_lem running) tt
      (unfold text_eq in refl, (tt, tt))
