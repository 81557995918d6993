-- ===== src/Locks/Request.antt =====
-- The first section of a locking.
use tunnel_manager.Prelude.{ℕ, ◌<◌, ◌≡◌, refl, ap, true, Option, none, some, ==_iff, arith}
use tunnel_manager.Prelude.Text.{Bytes, text_eq_iff, text_eq_refl}
use tunnel_manager.Locks.{Memory, request_at, Place, outside, waiting, inside}
use tunnel_manager.Locks.Family.{set, total, total-set, total_zero}
use tunnel_manager.Locks.Holds.{claim, counts, uses, Inv}
use tunnel_manager.Locks.Moves.{quiet-set}

module _ {n : ℕ} {m : Memory} {place : ℕ → Place} (inv : Inv n m place) (i : ℕ) (lt : i < n) where
  held_ask :
      (p : Place) (b : ℕ)
      → place i ≡ outside
      → m.held b ≡ true
      → (x : ℕ) × (y : Bytes) × (x < n) × (set place i p x ≡ inside y b)
  held_ask p b here e =
      let (x, y, below, at) = inv.held_by b e in (x, y, below, ground (arith, ==_iff i x))

  -- For a lock that is there.
  pub ask_old-Inv :
      (id : Bytes) (a : ℕ)
      → place i ≡ outside
      → m.locks id ≡ some a
      → Inv n (request_at m id (some a)).0 (set place i (waiting id a))
  ask_old-Inv id a here there = record {
    counted = λ b. ground (
      arith,
      inv.counted b,
      total-set (uses b) n i place (waiting id a) lt,
      ap (uses b) here,
      ==_iff a b,
    );
    mapped = λ j k b e. ground (arith, inv.mapped j k b, ==_iff i j);
    made = inv.made;
    used = λ k b e. ground (arith, inv.used k b e, ==_iff a b);
    single = inv.single;
    entered = λ j k b e. ground (arith, inv.entered j k b, ==_iff i j);
    unique = λ j k x y b e f. ground (arith, inv.unique j k x y b, ==_iff i j, ==_iff i k);
    held_by = λ b e. held_ask (waiting id a) b here e;
    quiet = quiet-set inv i lt (waiting id a);
  }

  none_at : (j : ℕ) (c : Option (Bytes × ℕ)) → claim (place j) ≡ c → counts m.next c ≡ 0
  none_at j none e = refl
  none_at j (some (k, b)) e = ground (arith, inv.made k b (inv.mapped j k b e), ==_iff b m.next)

  -- Nobody counts for the lock that will be made next.
  unclaimed : total (uses m.next) n place ≡ 0
  unclaimed = total_zero (uses m.next) n place (λ j below. none_at j (claim (place j)) refl)

  -- For a lock that is made.
  pub ask_new-Inv :
      (id : Bytes)
      → place i ≡ outside
      → m.locks id ≡ none
      → Inv n (request_at m id none).0 (set place i (waiting id m.next))
  ask_new-Inv id here absent = record {
    counted = λ b. ground (
      arith,
      inv.counted b,
      total-set (uses b) n i place (waiting id m.next) lt,
      ap (uses b) here,
      unclaimed,
      ==_iff m.next b,
    );
    mapped =
        λ j k b e. ground (arith, inv.mapped j k b, ==_iff i j, text_eq_iff id k, text_eq_refl id);
    made = λ k b e. ground (arith, inv.made k b);
    used = λ k b e. ground (arith, inv.used k b, inv.made k b, ==_iff m.next b);
    single = λ k j b e f.
        ground
          (arith, inv.single k j b, inv.made k b, inv.made j b, text_eq_iff id k, text_eq_iff id j);
    entered = λ j k b e.
        ground
          (arith, inv.entered j k b, inv.mapped j k b, inv.made k b, ==_iff i j, ==_iff m.next b);
    unique = λ j k x y b e f. ground (arith, inv.unique j k x y b, ==_iff i j, ==_iff i k);
    held_by = λ b e. held_ask (waiting id m.next) b here (ground (arith, ==_iff m.next b));
    quiet = quiet-set inv i lt (waiting id m.next);
  }
