-- ===== src/Locks/Holds.antt =====
-- Who uses which lock.
use tunnel_manager.Prelude.{ℕ, ◌≤◌, ◌<◌, ◌≡◌, true, Option, none, some, ◌==◌, if◌then◌else◌}
use tunnel_manager.Prelude.Text.{Bytes}
use tunnel_manager.Locks.{Memory, Place, outside, waiting, inside, leaving}
use tunnel_manager.Locks.Family.{total}

-- The domain and the lock that a goroutine counts for.
abbrev pub claim : Place → Option (Bytes × ℕ)
claim outside = none
claim (waiting id a) = some (id, a)
claim (inside id a) = some (id, a)
claim (leaving id a) = some (id, a)

abbrev pub counts : ℕ → Option (Bytes × ℕ) → ℕ
counts a none = 0
counts a (some (id, b)) = if b == a then 1 else 0

abbrev pub uses : ℕ → Place → ℕ
uses a p = counts a (claim p)

pub record Inv (n : ℕ) (m : Memory) (place : ℕ → Place) : Type 0 where
  pub counted : (a : ℕ) → m.refs a ≡ total (uses a) n place
  pub mapped : (i : ℕ) (id : Bytes) (a : ℕ) → claim (place i) ≡ some (id, a) → m.locks id ≡ some a
  pub made : (id : Bytes) (a : ℕ) → m.locks id ≡ some a → a < m.next
  pub used : (id : Bytes) (a : ℕ) → m.locks id ≡ some a → 0 < m.refs a
  pub single : (id j : Bytes) (a : ℕ) → m.locks id ≡ some a → m.locks j ≡ some a → id ≡ j
  pub entered : (i : ℕ) (id : Bytes) (a : ℕ) → place i ≡ inside id a → m.held a ≡ true
  pub unique :
      (i j : ℕ) (id id' : Bytes) (a : ℕ) → place i ≡ inside id a → place j ≡ inside id' a → i ≡ j
  pub held_by :
      (a : ℕ) → m.held a ≡ true → (i : ℕ) × (id : Bytes) × (i < n) × (place i ≡ inside id a)
  pub quiet : (i : ℕ) → n ≤ i → place i ≡ outside
