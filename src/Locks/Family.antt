-- ===== src/Locks/Family.antt =====
-- Functions from numbers that are changed at a place, and sums over them.
use tunnel_manager.Prelude.{
  ℕ, zero, suc, ◌+◌, ◌≤◌, ◌<◌, ◌≡◌, refl, inl, inr, ◌==◌, ==_iff, if◌then◌else◌, arith, Bool-cases,
}

abbrev pub set {ℓ} : {A : Type ℓ} → (ℕ → A) → ℕ → A → ℕ → A
set f i x j = if i == j then x else f j

-- The sum of `w` over the first `n` values.
pub total {ℓ} : {A : Type ℓ} → (A → ℕ) → ℕ → (ℕ → A) → ℕ
total w zero f = 0
total w (suc n) f = total w n f + w (f n)

module _ {ℓ} {A : Type ℓ} (w : A → ℕ) where
  total_beyond : (n i : ℕ) (f : ℕ → A) (x : A) → n ≤ i → total w n (set f i x) ≡ total w n f
  unfolding total
  total_beyond zero i f x h = refl
  total_beyond (suc n) i f x h = ground (arith, total_beyond n i f x, ==_iff i n)

  -- A change at `i` is a change of one summand.
  pub total-set :
      (n i : ℕ) (f : ℕ → A) (x : A) → i < n → total w n (set f i x) + w (f i) ≡ total w n f + w x
  unfolding total
  total-set zero i f x h = absurd (omega arith)
  total-set (suc n) i f x h = ground (arith, total_beyond n i f x, total-set n i f x, ==_iff i n)

  pub le_total : (n i : ℕ) (f : ℕ → A) → i < n → w (f i) ≤ total w n f
  unfolding total
  le_total zero i f h = absurd (omega arith)
  le_total (suc n) i f h = elim (Bool-cases (i == n)) [
    | inl e ↦ rw ((==_iff i n).0 e) (omega arith)
    | inr e ↦ omega (arith, le_total n i f (ground (arith, ==_iff i n)))
  ]

  pub total_zero : (n : ℕ) (f : ℕ → A) → ((i : ℕ) → i < n → w (f i) ≡ 0) → total w n f ≡ 0
  unfolding total
  total_zero zero f h = refl
  total_zero (suc n) f h =
      omega (arith, h n (omega arith), total_zero n f (λ i l. h i (omega arith)))
