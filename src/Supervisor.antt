-- ===== src/Supervisor.antt =====
-- internal/pkg/process: the supervisor of the cloudflared processes. Its goroutines meet at the
-- sections under its locks, which are the functions here; what happens between them (a process
-- exits, a sleep ends, a timer expires, its function gets the lock) are inputs of the step function.
-- The deletion of an entry and the event of the end, which follows it, are one step.
pub mod Bounds
pub mod Lifecycle
pub mod Budget
pub mod Stopping
mod Tests
use tunnel_manager.Prelude.{
  ℕ, ◌+◌, ◌-◌, ◌*◌, ◌^◌, Bool, true, false, List, [], ◌∷◌, ◌++◌, Option, none, some, Result, ok,
  err, Error, external, wrap, sentinel, process_done, if◌then◌else◌, ltb,
}
use tunnel_manager.Prelude.Text.{Bytes, codes, text_eq}
use tunnel_manager.Model.{DomainStatus, active, error, stopped}

abbrev pub max_restart_attempts : ℕ
max_restart_attempts = 5

-- Where the goroutines of a process are: `Start` before `cmd.Start` has returned; `Start` or
-- `supervise` with the new process in `cmd`, before the event of the restart with this count (0 is
-- the start); `supervise` in `Wait` on a process; between its look at `stopRequested` and the count
-- of the exit with this error; or in the sleep before an attempt.
pub data Phase : Type 0 where
  starting : Phase
  started : ℕ → ℕ → Phase
  waiting : ℕ → Phase
  counting : Option Error → Phase
  sleeping : ℕ → Phase

-- `armed` is whether the stable timer is running, and `late` the number of timers that have expired
-- and whose functions have not had the lock yet; `Stop` of a timer does not wait for these.
pub record ManagedProcess : Type 0 where
  pub phase : Phase
  pub stop_requested : Bool
  pub restart_count : ℕ
  pub armed : Bool
  pub late : ℕ

pub record ProcessEvent : Type 0 where
  pub domain_id : Bytes
  pub pid : ℕ
  pub status : DomainStatus
  pub restart_count : ℕ
  pub cause : Option Error

-- The map of processes by its lookup.
pub record Supervisor : Type 0 where
  pub procs : Bytes → Option ManagedProcess

abbrev pub new_supervisor : Supervisor
new_supervisor = record { procs = λ id. none }

abbrev pub put : Supervisor → Bytes → Option ManagedProcess → Supervisor
put s id p = record { procs = λ j. if text_eq id j then p else s.procs j }

abbrev pub fresh : ManagedProcess
fresh = record {
  phase = starting;
  stop_requested = false;
  restart_count = 0;
  armed = false;
  late = 0;
}

abbrev pub stopped_event : Bytes → ProcessEvent
stopped_event id = record {
  domain_id = id;
  pid = 0;
  status = stopped;
  restart_count = 0;
  cause = none;
}

abbrev pub active_event : Bytes → ℕ → ℕ → ProcessEvent
active_event id pid count = record {
  domain_id = id;
  pid = pid;
  status = active;
  restart_count = count;
  cause = none;
}

abbrev pub error_event : Bytes → Option Error → ProcessEvent
error_event id cause = record {
  domain_id = id;
  pid = 0;
  status = error;
  restart_count = max_restart_attempts;
  cause = cause;
}

unfoldable pub is_running : Supervisor → Bytes → Bool
is_running s id = elim (s.procs id) [ none ↦ false | some p ↦ true ]

-- The first section of `Start`: the entry is made, or there is one.
unfoldable pub register : Supervisor → Bytes → Supervisor × Result (Unit {0})
register s id = elim (s.procs id) [
  | some p ↦ (s, err (external (codes "supervisor: process already running for " ++ id)))
  | none ↦ (put s id (some fresh), ok tt)
]

-- The next section of `Start`, once `cmd.Start` has returned an error or a process.
unfoldable pub launch :
    Supervisor
    → Bytes
    → ManagedProcess
    → Result ℕ
    → Supervisor × (Result (Unit {0}) × List ProcessEvent)
launch s id p (err e) = (put s id none, (err (wrap (codes "supervisor: start " ++ id) e), []))
launch s id p (ok pid) =
    if p.stop_requested
    then (put s id none, (ok tt, stopped_event id ∷ []))
    else (put s id (some (record p { phase = started pid 0 })), (ok tt, []))

-- `armStableTimer` and the event that the process is active, of `Start` and of `supervise`, which
-- comes to `Wait` then.
unfoldable pub announce :
    Supervisor → Bytes → ManagedProcess → ℕ → ℕ → Supervisor × List ProcessEvent
announce s id p pid count = (
  put s id (some (record p { phase = waiting pid; armed = true })),
  active_event id pid count ∷ [],
)

start_on : Supervisor → Bytes → Result ℕ → Supervisor × (Result (Unit {0}) × List ProcessEvent)
unfolding launch announce
start_on s id (err e) = launch s id fresh (err e)
start_on s id (ok pid) =
    let (s', (outcome, events)) = launch s id fresh (ok pid) in
    let (s'', later) = announce s' id (record fresh { phase = started pid 0 }) pid 0 in
    (s'', (outcome, events ++ later))

-- `Start` when nothing comes between its sections.
unfoldable pub start :
    Supervisor → Bytes → Result ℕ → Supervisor × (Result (Unit {0}) × List ProcessEvent)
unfolding register start_on
start s id outcome =
    let (s', registered) = register s id in
    elim registered [ err e ↦ (s', (err e, [])) | ok _ ↦ start_on s' id outcome ]

-- `proc.Signal(SIGTERM)`: a process that was waited for is done, and a running one gives `signal`.
signal_of : Phase → Result (Unit {0}) → Result (Unit {0})
signal_of starting signal = ok tt
signal_of (started pid count) signal = signal
signal_of (waiting pid) signal = signal
signal_of (counting cause) signal = err (sentinel process_done)
signal_of (sleeping attempt) signal = err (sentinel process_done)

unfoldable pub stop : Supervisor → Bytes → Result (Unit {0}) → Supervisor × Result (Unit {0})
unfolding signal_of
stop s id signal = elim (s.procs id) [
  | none ↦ (s, err (external (codes "supervisor: no running process for " ++ id)))
  | some p ↦ (put s id (some (record p { stop_requested = true })), signal_of p.phase signal)
]

-- `time.Duration(1<<(attempt-1)) * time.Second`, in seconds.
unfoldable pub backoff : ℕ → ℕ
backoff attempt = 2 ^ (attempt - 1)

-- The section of `supervise` after `Wait`: a process that was asked to stop ends.
unfoldable pub after_wait :
    Supervisor → Bytes → ManagedProcess → Option Error → Supervisor × List ProcessEvent
after_wait s id p cause =
    if p.stop_requested
    then (put s id none, stopped_event id ∷ [])
    else (put s id (some (record p { phase = counting cause; armed = false })), [])

-- From the count of the exit to the sleep or the return.
unfoldable pub count_restart :
    Supervisor → Bytes → ManagedProcess → Option Error → Supervisor × List ProcessEvent
count_restart s id p cause =
    let attempt = p.restart_count + 1 in
    if ltb max_restart_attempts attempt
    then (put s id none, error_event id cause ∷ [])
    else (put s id (some (record p { phase = sleeping attempt; restart_count = attempt })), [])

-- From the end of the sleep to `mp.cmd = cmd`. A failed start goes round again at once: `Wait`
-- was already called on the old command, and returns that as an error.
abbrev pub wait_again : Option Error
wait_again = some (external (codes "exec: Wait was already called"))

unfoldable pub resume :
    Supervisor → Bytes → ManagedProcess → ℕ → Result ℕ → Supervisor × List ProcessEvent
unfolding after_wait
resume s id p attempt (err e) = after_wait s id p wait_again
resume s id p attempt (ok pid) = (put s id (some (record p { phase = started pid attempt })), [])

-- The stable timer expires.
unfoldable pub expire : Supervisor → Bytes → ManagedProcess → Supervisor
expire s id p =
    if p.armed then put s id (some (record p { armed = false; late = p.late + 1 })) else s

-- The function of a timer that has expired.
unfoldable pub stable : Supervisor → Bytes → ManagedProcess → Supervisor
stable s id p =
    if ltb 0 p.late then put s id (some (record p { restart_count = 0; late = p.late - 1 })) else s

pub data Input : Type 0 where
  registered : Bytes → Input
  launched : Bytes → Result ℕ → Input
  announced : Bytes → Input
  stop_called : Bytes → Result (Unit {0}) → Input
  exited : Bytes → Option Error → Input
  counted : Bytes → Input
  woke : Bytes → Result ℕ → Input
  timer_expired : Bytes → Input
  timer_ran : Bytes → Input

-- An input that does not fit the phase of its process does not happen, and changes nothing.
on_launched :
    Supervisor → Bytes → ManagedProcess → Phase → Result ℕ → Supervisor × List ProcessEvent
unfolding launch
on_launched s id p starting outcome = let (s', r) = launch s id p outcome in (s', r.1)
on_launched s id p _ outcome = (s, [])

on_announced : Supervisor → Bytes → ManagedProcess → Phase → Supervisor × List ProcessEvent
unfolding announce
on_announced s id p (started pid count) = announce s id p pid count
on_announced s id p _ = (s, [])

on_exited :
    Supervisor → Bytes → ManagedProcess → Phase → Option Error → Supervisor × List ProcessEvent
unfolding after_wait
on_exited s id p (waiting pid) cause = after_wait s id p cause
on_exited s id p _ cause = (s, [])

on_counted : Supervisor → Bytes → ManagedProcess → Phase → Supervisor × List ProcessEvent
unfolding count_restart
on_counted s id p (counting cause) = count_restart s id p cause
on_counted s id p _ = (s, [])

on_woke : Supervisor → Bytes → ManagedProcess → Phase → Result ℕ → Supervisor × List ProcessEvent
unfolding resume
on_woke s id p (sleeping attempt) outcome = resume s id p attempt outcome
on_woke s id p _ outcome = (s, [])

-- The step of a process that is in the map.
unfoldable pub advance :
    Supervisor → Bytes → ManagedProcess → Input → Supervisor × List ProcessEvent
unfolding on_launched on_announced on_exited on_counted on_woke expire stable
advance s id p (launched _ outcome) = on_launched s id p p.phase outcome
advance s id p (announced _) = on_announced s id p p.phase
advance s id p (exited _ cause) = on_exited s id p p.phase cause
advance s id p (counted _) = on_counted s id p p.phase
advance s id p (woke _ outcome) = on_woke s id p p.phase outcome
advance s id p (timer_expired _) = (expire s id p, [])
advance s id p (timer_ran _) = (stable s id p, [])
advance s id p _ = (s, [])

-- The process that an input is about.
abbrev pub subject : Input → Bytes
subject (registered id) = id
subject (launched id outcome) = id
subject (announced id) = id
subject (stop_called id signal) = id
subject (exited id cause) = id
subject (counted id) = id
subject (woke id outcome) = id
subject (timer_expired id) = id
subject (timer_ran id) = id

abbrev pub managed_step :
    Supervisor → Input → Option ManagedProcess → Supervisor × List ProcessEvent
managed_step s i none = (s, [])
managed_step s i (some p) = advance s (subject i) p i

unfoldable pub step : Supervisor → Input → Supervisor × List ProcessEvent
unfolding register stop advance
step s (registered id) = ((register s id).0, [])
step s (stop_called id signal) = ((stop s id signal).0, [])
step s i = managed_step s i (s.procs (subject i))

unfoldable pub run : Supervisor → List Input → Supervisor × List ProcessEvent
unfolding step
run s [] = (s, [])
run s (i ∷ is) =
    let (s', events) = step s i in let (s'', later) = run s' is in (s'', events ++ later)
