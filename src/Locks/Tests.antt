-- ===== src/Locks/Tests.antt =====
-- Two goroutines for one domain, and the theorems on a schedule of theirs.
use tunnel_manager.Prelude.{ℕ, ◌<◌, ◌≡◌, refl, ◌⊎◌, false, none, arith}
use tunnel_manager.Prelude.Text.{Bytes, codes, text_eq}
use tunnel_manager.Locks.{outside, waiting, inside, ask, enter, System, pick, Reach, start, later}
use tunnel_manager.Locks.Safety.{Reach-exclusive, Reach-live}

abbrev id : Bytes
id = codes "d"

-- The first goroutine has entered, and the second has asked.
one_inside : (s : System) × Reach 2 s × (s.place 0 ≡ inside id 0) × (s.place 1 ≡ waiting id 0)
unfolding text_eq
one_inside = (
  _,
  later (later (later start (pick 0 (omega arith) (ask id))) (pick 0 (omega arith) (enter refl)))
      (pick 1 (omega arith) (ask id)),
  refl,
  refl,
)

Reach-exclusive_example : ◌≡◌ {A = ℕ} 0 0
Reach-exclusive_example = Reach-exclusive 0 0 id 0 0 one_inside.1 one_inside.2 one_inside.2

Reach-live_example :
    ((i : ℕ) (k : Bytes) (a : ℕ)
      → one_inside.0.place i ≡ waiting k a
      → (one_inside.0.memory.held a ≡ false)
        ⊎ ((j : ℕ) × (j < 2) × (one_inside.0.place j ≡ inside k a)))
    × (((i : ℕ) → one_inside.0.place i ≡ outside)
        → (k : Bytes) → one_inside.0.memory.locks k ≡ none)
Reach-live_example = Reach-live one_inside.1
