-- ===== src/Prelude/Strict.antt =====
-- Lists in strict order: the sorting of a list none of whose elements are equal in the order.
use mathlib.Core.Path.{◌≡◌}
use mathlib.Core.Logic.{inl, inr}
use mathlib.Core.Bool.{Bool, true, false}
use mathlib.Core.List.{List, [], ◌∷◌}
use tunnel_manager.Prelude.Tests.{Bool-cases}
use tunnel_manager.Prelude.Lists.{All}
use tunnel_manager.Prelude.Text.Order.{insert, sort, All-sort, Ordered}

-- Each element comes before all later ones.
abbrev pub Strict {ℓ} : {A : Type ℓ} → (A → A → Bool) → List A → Type 0
Strict before [] = Unit
Strict before (x ∷ xs) = All (λ y. before x y ≡ true) xs × Strict before xs

-- No two elements are alike.
abbrev pub Distinct {ℓ} : {A : Type ℓ} → (A → A → Type 0) → List A → Type 0
Distinct Apart [] = Unit
Distinct Apart (x ∷ xs) = All (Apart x) xs × Distinct Apart xs

module _ {ℓ} {A : Type ℓ} (before : A → A → Bool) (Apart : A → A → Type 0) where
  module _ (mirror : (a b : A) → Apart a b → Apart b a) where
    Distinct-insert :
        (a : A) (xs : List A)
        → All (Apart a) xs
        → Distinct Apart xs
        → Distinct Apart (insert before a xs)
    unfolding insert
    Distinct-insert a [] h k = (tt, tt)
    Distinct-insert a (x ∷ xs) (h, hs) (k, ks) = elim (Bool-cases (before x a)) [
      | inl e ↦ rw e (apart_insert xs (mirror a x h) k, Distinct-insert a xs hs ks)
      | inr e ↦ rw e ((h, hs), (k, ks))
    ]
      where
        apart_insert :
            (ys : List A) → Apart x a → All (Apart x) ys → All (Apart x) (insert before a ys)
        apart_insert [] p b = (p, tt)
        apart_insert (y ∷ ys) p (b, bs) = elim (Bool-cases (before y a)) [
          | inl e ↦ rw e (b, apart_insert ys p bs)
          | inr e ↦ rw e (p, (b, bs))
        ]

    pub Distinct-sort : (xs : List A) → Distinct Apart xs → Distinct Apart (sort before xs)
    unfolding sort
    Distinct-sort [] h = tt
    Distinct-sort (x ∷ xs) (h, hs) =
        Distinct-insert x (sort before xs) (All-sort before (Apart x) xs h) (Distinct-sort xs hs)

  module _ (total : (a b : A) → before a b ≡ false → before b a ≡ false → ¬ (Apart b a)) where
    pub Strict-of : (xs : List A) → Ordered before xs → Distinct Apart xs → Strict before xs
    Strict-of [] h k = tt
    Strict-of (x ∷ xs) (h, hs) (k, ks) = (ahead xs h k, Strict-of xs hs ks)
      where
        ahead :
            (ys : List A)
            → All (λ y. before y x ≡ false) ys
            → All (Apart x) ys
            → All (λ y. before x y ≡ true) ys
        ahead [] a b = tt
        ahead (y ∷ ys) (a, as') (b, bs) = (
          elim (Bool-cases (before x y)) [ inl e ↦ e | inr e ↦ absurd (total y x a e b) ],
          ahead ys as' bs,
        )
