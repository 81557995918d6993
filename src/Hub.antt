-- ===== src/Hub.antt =====
-- The fan-out of wake-ups that internal/services/domain/notify.go and internal/pkg/logbuf/logbuf.go
-- both write out: a map of channels that hold at most one value each.
pub mod Wakeups
mod Tests
use tunnel_manager.Prelude.{
  ℕ, ◌+◌, Bool, true, false, List, [], ◌∷◌, Option, none, some, ◌==◌, if◌then◌else◌,
}

-- A channel is a number and whether its one place is taken. `next` is the number that `make` gives.
pub record Hub : Type 0 where
  pub next : ℕ
  pub subscribers : List (ℕ × Bool)

abbrev pub empty : Hub
empty = record { next = 0; subscribers = [] }

pub remove : ℕ → List (ℕ × Bool) → List (ℕ × Bool)
remove k [] = []
remove k ((j, full) ∷ l) = let rest = remove k l in if j == k then rest else (j, full) ∷ rest

pub fill : List (ℕ × Bool) → List (ℕ × Bool)
fill [] = []
fill ((j, full) ∷ l) = (j, true) ∷ fill l

pub drain : ℕ → List (ℕ × Bool) → List (ℕ × Bool)
drain k [] = []
drain k ((j, full) ∷ l) = (if j == k then (j, false) else (j, full)) ∷ drain k l

-- `updates := make(chan struct{}, 1); subscribers[updates] = struct{}{}`
unfoldable pub subscribe : Hub → Hub × ℕ
subscribe h = (record { next = h.next + 1; subscribers = (h.next, false) ∷ h.subscribers }, h.next)

-- `delete(subscribers, updates)`; the `sync.Once` makes a second call do nothing, as here.
unfoldable pub cancel : Hub → ℕ → Hub
unfolding remove
cancel h k = record h { subscribers = remove k h.subscribers }

-- A send to every channel that has room: a full one stays full.
unfoldable pub publish : Hub → Hub
unfolding fill
publish h = record h { subscribers = fill h.subscribers }

-- What a client does: it takes the value of its channel.
unfoldable pub receive : Hub → ℕ → Hub
unfolding drain
receive h k = record h { subscribers = drain k h.subscribers }

pub find : ℕ → List (ℕ × Bool) → Option Bool
find k [] = none
find k ((j, full) ∷ l) = if j == k then some full else find k l

-- Whether the client of channel `k` has a wake-up to take; `none` if it is not subscribed.
unfoldable pub pending : Hub → ℕ → Option Bool
unfolding find
pending h k = find k h.subscribers
