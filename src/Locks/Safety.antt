-- ===== src/Locks/Safety.antt =====
-- The locks of domains under any schedule of the goroutines.
use tunnel_manager.Prelude.{
  ℕ, ◌<◌, ◌≡◌, refl, sym, ap, ◌∙◌, ◌⊎◌, inl, inr, Bool, false, Option, none, some, arith,
  Bool-cases, Option-cases, some_eq,
}
use tunnel_manager.Prelude.Text.{Bytes}
use tunnel_manager.Locks.{
  Memory, request_at, Place, outside, waiting, inside, Move, ask, enter, leave, drop, System, pick,
  init, Reach, start, later,
}
use tunnel_manager.Locks.Family.{set, total_zero}
use tunnel_manager.Locks.Holds.{claim, uses, Inv}
use tunnel_manager.Locks.Moves.{enter-Inv, leave-Inv}
use tunnel_manager.Locks.Release.{drop-Inv}
use tunnel_manager.Locks.Request.{ask_old-Inv, ask_new-Inv}

ask-Inv :
    {n : ℕ} {m : Memory} {place : ℕ → Place} (inv : Inv n m place) (i : ℕ)
    → i < n
    → (id : Bytes) → place i ≡ outside
    → (o : Option ℕ) → m.locks id ≡ o
    → Inv n (request_at m id o).0 (set place i (waiting id (request_at m id o).1))
ask-Inv inv i lt id here none e = ask_new-Inv inv i lt id here e
ask-Inv inv i lt id here (some a) e = ask_old-Inv inv i lt id a here e

Move-Inv :
    {n : ℕ} {m m' : Memory} {place : ℕ → Place} {p p' : Place} (inv : Inv n m place) (i : ℕ)
    → i < n
    → place i ≡ p
    → Move m p m' p'
    → Inv n m' (set place i p')
Move-Inv {m} inv i lt here (ask id) = ask-Inv inv i lt id here (m.locks id) refl
Move-Inv inv i lt here (enter {id} {a} free) = enter-Inv inv i lt id a here free
Move-Inv inv i lt here (leave {id} {a}) = leave-Inv inv i lt id a here
Move-Inv inv i lt here (drop {id} {a}) = drop-Inv inv i lt id a here

Inv-init : (n : ℕ) → Inv n init.memory init.place
Inv-init n = record {
  counted = λ a. sym (total_zero (uses a) n init.place (λ i below. refl));
  mapped = λ i id a e. cc;
  made = λ id a e. cc;
  used = λ id a e. cc;
  single = λ id j a e f. cc;
  entered = λ i id a e. cc;
  unique = λ i j id id' a e f. cc;
  held_by = λ a e. cc;
  quiet = λ i h. refl;
}

Reach-Inv : {n : ℕ} {s : System} → Reach n s → Inv n s.memory s.place
Reach-Inv {n} start = Inv-init n
Reach-Inv (later r (pick i lt move)) = Move-Inv (Reach-Inv r) i lt refl move

-- However any number of goroutines are scheduled, no two are in the body for one domain at once.
pub Reach-exclusive :
    {n : ℕ} {s : System} (i j : ℕ) (id : Bytes) (a b : ℕ)
    → Reach n s
    → s.place i ≡ inside id a
    → s.place j ≡ inside id b
    → i ≡ j
Reach-exclusive i j id a b r e f =
    let inv = Reach-Inv r in
    let same : a ≡ b =
      some_eq (sym (inv.mapped i id a (ap claim e)) ∙ inv.mapped j id b (ap claim f)) in
    inv.unique i j id id b (e ∙ ap (inside id) same) f

held_cases :
    {n : ℕ} {m : Memory} {place : ℕ → Place} (inv : Inv n m place) (id : Bytes) (a : ℕ)
    → m.locks id ≡ some a
    → (m.held a ≡ false) ⊎ ((j : ℕ) × (j < n) × (place j ≡ inside id a))
held_cases inv id a there = elim (Bool-cases (inv_held inv a)) [
  | inr free ↦ inl free
  | inl busy ↦
      let (j, k, below, at) = inv.held_by a busy in
      let same : k ≡ id = inv.single k id a (inv.mapped j k a (ap claim at)) there in
      inr (j, below, at ∙ ap (λ x. inside x a) same)
]
  where
    inv_held : {n : ℕ} {m : Memory} {place : ℕ → Place} → Inv n m place → ℕ → Bool
    inv_held {m} v b = m.held b

-- However the goroutines are scheduled, one that waits for a domain's lock either finds it free or
-- waits for a goroutine in the body for the same domain; and when all are outside again, the map
-- of locks is empty.
pub Reach-live :
    {n : ℕ} {s : System}
    → Reach n s
    → ((i : ℕ) (id : Bytes) (a : ℕ)
        → s.place i ≡ waiting id a
        → (s.memory.held a ≡ false) ⊎ ((j : ℕ) × (j < n) × (s.place j ≡ inside id a)))
      × (((i : ℕ) → s.place i ≡ outside) → (id : Bytes) → s.memory.locks id ≡ none)
Reach-live {n} {s} r =
    let inv = Reach-Inv r in
    (
      λ i id a e. held_cases inv id a (inv.mapped i id a (ap claim e)),
      λ all id. elim (Option-cases (s.memory.locks id)) [
        | inl empty ↦ empty
        | inr (a, there) ↦ absurd (
            omega (
              arith,
              inv.used id a there,
              inv.counted a,
              total_zero (uses a) n s.place (λ i below. ap (uses a) (all i)),
            ))
      ],
    )
