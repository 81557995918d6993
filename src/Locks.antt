-- ===== src/Locks.antt =====
-- `lockDomain` of internal/services/domain/service.go: one lock for each domain, made when it is
-- first asked for and dropped by its last user. The sections under `mutationMu`, and the operations
-- of the lock itself, are the steps of a goroutine; the steps of several come in any order.
pub mod Family
pub mod Holds
pub mod Moves
pub mod Release
pub mod Request
pub mod Safety
mod Tests
use tunnel_manager.Prelude.{
  ℕ, ◌+◌, ◌-◌, ◌<◌, ◌≡◌, Bool, true, false, Option, none, some, ◌==◌, if◌then◌else◌,
}
use tunnel_manager.Prelude.Text.{Bytes, text_eq}
use tunnel_manager.Locks.Family.{set}

-- The map `mutationLocks`, and the lock objects by their address; `next` is the address of the next
-- object that is made.
pub record Memory : Type 0 where
  pub locks : Bytes → Option ℕ
  pub refs : ℕ → ℕ
  pub held : ℕ → Bool
  pub next : ℕ

abbrev pub assign : (Bytes → Option ℕ) → Bytes → Option ℕ → Bytes → Option ℕ
assign locks id a j = if text_eq id j then a else locks j

abbrev pub request_at : Memory → Bytes → Option ℕ → Memory × ℕ
request_at m id (some a) = (record m { refs = set m.refs a (m.refs a + 1) }, a)
request_at m id none = (
  record m {
    locks = assign m.locks id (some m.next);
    refs = set m.refs m.next 1;
    held = set m.held m.next false;
    next = m.next + 1;
  },
  m.next,
)

-- The section before `lock.mu.Lock()`: the lock that the goroutine will wait for.
abbrev pub request : Memory → Bytes → Memory × ℕ
request m id = request_at m id (m.locks id)

-- `lock.mu.Lock()` of a free lock, and `lock.mu.Unlock()`.
abbrev pub acquire : Memory → ℕ → Memory
acquire m a = record m { held = set m.held a true }

abbrev pub unlock : Memory → ℕ → Memory
unlock m a = record m { held = set m.held a false }

-- The section after it.
abbrev pub release : Memory → Bytes → ℕ → Memory
release m id a = record m {
  refs = set m.refs a (m.refs a - 1);
  locks = if m.refs a - 1 == 0 then assign m.locks id none else m.locks;
}

-- Where a goroutine is: outside, before `Lock` returns, in the body, and between the two parts of the
-- unlocking.
pub data Place : Type 0 where
  outside : Place
  waiting inside leaving : Bytes → ℕ → Place

pub data Move (m : Memory) : Place → Memory → Place → Type 0 where
  ask : (id : Bytes) → Move m outside (request m id).0 (waiting id (request m id).1)
  enter :
      {id : Bytes} {a : ℕ} → m.held a ≡ false → Move m (waiting id a) (acquire m a) (inside id a)
  leave : {id : Bytes} {a : ℕ} → Move m (inside id a) (unlock m a) (leaving id a)
  drop : {id : Bytes} {a : ℕ} → Move m (leaving id a) (release m id a) outside

-- `n` goroutines over one memory.
pub record System : Type 0 where
  pub memory : Memory
  pub place : ℕ → Place

pub data Step (n : ℕ) (s : System) : System → Type 0 where
  pick :
      (i : ℕ) {m : Memory} {p : Place}
      → i < n
      → Move s.memory (s.place i) m p
      → Step n s (record { memory = m; place = set s.place i p })

abbrev pub init : System
init = record {
  memory = record { locks = λ id. none; refs = λ a. 0; held = λ a. false; next = 0 };
  place = λ i. outside;
}

pub data Reach (n : ℕ) : System → Type 0 where
  start : Reach n init
  later : {s t : System} → Reach n s → Step n s t → Reach n t
