-- ===== src/Locks/Release.antt =====
-- The last section of an unlocking.
use tunnel_manager.Prelude.{
  ℕ, ◌-◌, ◌<◌, ◌≡◌, sym, ap, ◌∙◌, inl, inr, true, false, some, ◌==◌, ==_iff, arith, Bool-cases,
  some_eq,
}
use tunnel_manager.Prelude.Text.{Bytes, text_eq, text_eq_iff}
use tunnel_manager.Locks.{Memory, release, Place, outside, inside, leaving}
use tunnel_manager.Locks.Family.{set, total, total-set, le_total}
use tunnel_manager.Locks.Holds.{claim, uses, Inv}
use tunnel_manager.Locks.Moves.{quiet-set}

module _ {n : ℕ} {m : Memory} {place : ℕ → Place} (inv : Inv n m place) (i : ℕ) (lt : i < n) where
  held_drop :
      (id : Bytes) (a b : ℕ)
      → place i ≡ leaving id a
      → m.held b ≡ true
      → (x : ℕ) × (y : Bytes) × (x < n) × (set place i outside x ≡ inside y b)
  held_drop id a b here e =
      let (x, y, below, at) = inv.held_by b e in (x, y, below, ground (arith, ==_iff i x))

  counted_drop :
      (id : Bytes) (a b : ℕ)
      → place i ≡ leaving id a
      → set m.refs a (m.refs a - 1) b ≡ total (uses b) n (set place i outside)
  counted_drop id a b here =
      ground (
        arith,
        inv.counted b,
        total-set (uses b) n i place outside lt,
        ap (uses b) here,
        ==_iff a b,
      )

  -- A goroutine that still counts for the lock keeps its count above zero.
  still_used :
      (id : Bytes) (a j : ℕ) (k : Bytes)
      → place i ≡ leaving id a
      → claim (set place i outside j) ≡ some (k, a)
      → 0 < m.refs a - 1
  still_used id a j k here e =
      let below : j < n = ground (arith, inv.quiet j, ==_iff i j) in
      let one : uses a (set place i outside j) ≡ 1 = rw e (ground (arith, ==_iff a a)) in
      ground (
        arith,
        counted_drop id a a here,
        le_total (uses a) n j (set place i outside) below,
        ==_iff a a,
      )

  -- The map after `release` is a part of the map before.
  kept :
      (id k : Bytes) (a b : ℕ)
      → (release m id a).locks k ≡ some b
      → (m.locks k ≡ some b) × ((m.refs a - 1 ≡ 0) → text_eq id k ≡ false)
  kept id k a b e = (ground arith, ground (arith, ==_iff (m.refs a - 1) 0))

  mapped_drop :
      (id : Bytes) (a j : ℕ) (k : Bytes) (b : ℕ)
      → place i ≡ leaving id a
      → claim (set place i outside j) ≡ some (k, b)
      → (release m id a).locks k ≡ some b
  mapped_drop id a j k b here e =
      let old : m.locks k ≡ some b = ground (arith, inv.mapped j k b, ==_iff i j) in
      let own : m.locks id ≡ some a = inv.mapped i id a (ap claim here) in
      elim (Bool-cases (m.refs a - 1 == 0)) [
        | inr more ↦ rw more old
        | inl last ↦ elim (Bool-cases (text_eq id k)) [
          | inr other ↦ rw (last, other) old
          | inl same ↦
              let same' = (text_eq_iff id k).0 same in
              let at : a ≡ b = some_eq (sym own ∙ ap m.locks same' ∙ old) in
              absurd
                (ground (arith, still_used id a j k here (rw (← at) at e), ==_iff (m.refs a - 1) 0))
        ]
      ]

  used_drop :
      (id : Bytes) (a : ℕ) (k : Bytes) (b : ℕ)
      → place i ≡ leaving id a
      → (release m id a).locks k ≡ some b
      → 0 < set m.refs a (m.refs a - 1) b
  used_drop id a k b here e =
      let (old, gone) = kept id k a b e in
      let own : m.locks id ≡ some a = inv.mapped i id a (ap claim here) in
      ground (arith, inv.used k b old, inv.single id k a own, gone, text_eq_iff id k, ==_iff a b)

  pub drop-Inv :
      (id : Bytes) (a : ℕ) → place i ≡ leaving id a → Inv n (release m id a) (set place i outside)
  drop-Inv id a here = record {
    counted = λ b. counted_drop id a b here;
    mapped = λ j k b e. mapped_drop id a j k b here e;
    made = λ k b e. inv.made k b (kept id k a b e).0;
    used = λ k b e. used_drop id a k b here e;
    single = λ k j b e f. inv.single k j b (kept id k a b e).0 (kept id j a b f).0;
    entered = λ j k b e. ground (arith, inv.entered j k b, ==_iff i j);
    unique = λ j k x y b e f. ground (arith, inv.unique j k x y b, ==_iff i j, ==_iff i k);
    held_by = λ b e. held_drop id a b here e;
    quiet = quiet-set inv i lt outside;
  }
