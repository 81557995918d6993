-- ===== src/Locks/Moves.antt =====
-- The sections of locking and unlocking, one by one.
use tunnel_manager.Prelude.{
  ℕ, ◌≤◌, ◌<◌, ◌≡◌, refl, ap, ◌∙◌, inl, inr, true, false, ◌==◌, ==_iff, arith, Bool-cases,
}
use tunnel_manager.Prelude.Text.{Bytes}
use tunnel_manager.Locks.{Memory, acquire, unlock, Place, outside, waiting, inside, leaving}
use tunnel_manager.Locks.Family.{set, total-set}
use tunnel_manager.Locks.Holds.{uses, Inv}

module _ {n : ℕ} {m : Memory} {place : ℕ → Place} (inv : Inv n m place) (i : ℕ) (lt : i < n) where
  pub other_place : (p : Place) (j : ℕ) → (i == j) ≡ false → set place i p j ≡ place j
  other_place p j e = rw e

  pub own_place : (p : Place) → set place i p i ≡ p
  own_place p = rw ((==_iff i i).1 refl)

  pub quiet-set : (p : Place) (j : ℕ) → n ≤ j → set place i p j ≡ outside
  quiet-set p j h = other_place p j (ground (arith, ==_iff i j)) ∙ inv.quiet j h

  held_enter :
      (id : Bytes) (a b : ℕ)
      → place i ≡ waiting id a
      → set m.held a true b ≡ true
      → (x : ℕ) × (y : Bytes) × (x < n) × (set place i (inside id a) x ≡ inside y b)
  held_enter id a b here e = elim (Bool-cases (a == b)) [
    | inl same ↦ (i, id, lt, ground (arith, ==_iff i i, ==_iff a b))
    | inr other ↦
        let (x, y, below, at) = inv.held_by b (rw other at e) in
        (x, y, below, ground (arith, ==_iff i x))
  ]

  -- `lock.mu.Lock()`.
  pub enter-Inv :
      (id : Bytes) (a : ℕ)
      → place i ≡ waiting id a
      → m.held a ≡ false
      → Inv n (acquire m a) (set place i (inside id a))
  enter-Inv id a here free = record {
    counted = λ b.
        omega
          (arith, inv.counted b, total-set (uses b) n i place (inside id a) lt, ap (uses b) here);
    mapped = λ j k b e. ground (arith, inv.mapped j k b, inv.mapped i id a, ==_iff i j);
    made = inv.made;
    used = inv.used;
    single = inv.single;
    entered = λ j k b e. ground (arith, inv.entered j k b, ==_iff i j, ==_iff a b);
    unique = λ j k x y b e f. ground (
      arith,
      inv.unique j k x y b,
      inv.entered j x b,
      inv.entered k y b,
      ==_iff i j,
      ==_iff i k,
      ==_iff a b,
    );
    held_by = λ b e. held_enter id a b here e;
    quiet = quiet-set (inside id a);
  }

  held_leave :
      (id : Bytes) (a b : ℕ)
      → place i ≡ inside id a
      → set m.held a false b ≡ true
      → (x : ℕ) × (y : Bytes) × (x < n) × (set place i (leaving id a) x ≡ inside y b)
  held_leave id a b here e = elim (Bool-cases (a == b)) [
    | inl same ↦ cc (rw same at e)
    | inr other ↦
        let (x, y, below, at) = inv.held_by b (rw other at e) in
        (x, y, below, ground (arith, ==_iff i x, ==_iff a b))
  ]

  -- `lock.mu.Unlock()`.
  pub leave-Inv :
      (id : Bytes) (a : ℕ) → place i ≡ inside id a → Inv n (unlock m a) (set place i (leaving id a))
  leave-Inv id a here = record {
    counted = λ b.
        omega
          (arith, inv.counted b, total-set (uses b) n i place (leaving id a) lt, ap (uses b) here);
    mapped = λ j k b e. ground (arith, inv.mapped j k b, inv.mapped i id a, ==_iff i j);
    made = inv.made;
    used = inv.used;
    single = inv.single;
    entered =
        λ j k b e. ground (arith, inv.entered j k b, inv.unique i j id k a, ==_iff i j, ==_iff a b);
    unique = λ j k x y b e f. ground (arith, inv.unique j k x y b, ==_iff i j, ==_iff i k);
    held_by = λ b e. held_leave id a b here e;
    quiet = quiet-set (leaving id a);
  }
