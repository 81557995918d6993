-- ===== src/Prelude/Text/Order.antt =====
-- The order of strings by bytes, and an insertion sort that stands for `sort.Slice`.
use Prim.Native.Nat.{suc, ◌≤◌}
use mathlib.Core.Path.{◌≡◌, refl, ap, ◌∙◌}
use mathlib.Core.Logic.{◌⊎◌, inl, inr}
use mathlib.Core.Bool.{Bool, true, false, ◌&&◌, ◌||◌}
use mathlib.Core.List.Perm
use mathlib.Core.List.{List, [], ◌∷◌, map, Perm}
use native.Mathlib.Omega.{arith}
use tunnel_manager.Prelude.Tests.{ltb, ◌==◌, if◌then◌else◌, Bool-cases}
use tunnel_manager.Prelude.Lists.{length, All, Some}
use tunnel_manager.Prelude.Text.{Bytes}

-- `a < b` on strings.
unfoldable pub text_lt : Bytes → Bytes → Bool
text_lt [] [] = false
text_lt [] (b ∷ bs) = true
text_lt (a ∷ as') [] = false
text_lt (a ∷ as') (b ∷ bs) = ltb a b || (a == b && text_lt as' bs)

-- The comparison of both `sort.Slice` calls on paths: the longer first, then by bytes.
unfoldable pub path_before : Bytes → Bytes → Bool
unfolding text_lt
path_before a b = if length a == length b then text_lt a b else ltb (length b) (length a)

pub text_lt_trans :
    (a b c : Bytes) → text_lt b a ≡ false → text_lt c b ≡ false → text_lt c a ≡ false
unfolding text_lt
text_lt_trans [] [] [] h k = refl
text_lt_trans [] b (x ∷ c) h k = refl
text_lt_trans [] (y ∷ b) [] h k = cc
text_lt_trans (x ∷ a) [] c h k = cc
text_lt_trans (x ∷ a) (y ∷ b) [] h k = cc
text_lt_trans (x ∷ a) (y ∷ b) (z ∷ c) h k = ground (arith, text_lt_trans a b c)

pub text_lt_asym : (a b : Bytes) → text_lt a b ≡ true → text_lt b a ≡ false
unfolding text_lt
text_lt_asym [] [] h = refl
text_lt_asym [] (b ∷ bs) h = refl
text_lt_asym (a ∷ as') [] h = cc
text_lt_asym (a ∷ as') (b ∷ bs) h = ground (arith, text_lt_asym as' bs)

pub text_lt_total : (a b : Bytes) → text_lt a b ≡ false → text_lt b a ≡ false → a ≡ b
unfolding text_lt
text_lt_total [] [] h k = refl
text_lt_total [] (b ∷ bs) h k = cc
text_lt_total (a ∷ as') [] h k = cc
text_lt_total (a ∷ as') (b ∷ bs) h k = ground (arith, text_lt_total as' bs)

pub path_before_trans :
    (a b c : Bytes) → path_before b a ≡ false → path_before c b ≡ false → path_before c a ≡ false
unfolding path_before
path_before_trans a b c h k = ground (arith, text_lt_trans a b c)

pub path_before_asym : (a b : Bytes) → path_before a b ≡ true → path_before b a ≡ false
unfolding path_before
path_before_asym a b h = ground (arith, text_lt_asym a b)

pub path_before_total : (a b : Bytes) → path_before a b ≡ false → path_before b a ≡ false → a ≡ b
unfolding path_before
path_before_total a b h k = ground (arith, text_lt_total a b)

pub length_of_path_before : (a b : Bytes) → path_before b a ≡ false → length b ≤ length a
unfolding path_before
length_of_path_before a b h = ground arith

-- `sort.Slice(xs, func(i, j) { return before xs[i] xs[j] })`, as an insertion sort. Where no two
-- elements are equal in the order, every sorting algorithm has this result.
module _ {ℓ} {A : Type ℓ} (before : A → A → Bool) where
  unfoldable pub insert : A → List A → List A
  insert a [] = a ∷ []
  insert a (x ∷ xs) = if before x a then x ∷ insert a xs else a ∷ (x ∷ xs)

  unfoldable pub sort : List A → List A
  unfolding insert
  sort [] = []
  sort (x ∷ xs) = insert x (sort xs)

-- Nothing stands behind a later element.
abbrev pub Ordered {ℓ} : {A : Type ℓ} → (A → A → Bool) → List A → Type 0
Ordered before [] = Unit
Ordered before (x ∷ xs) = All (λ y. before y x ≡ false) xs × Ordered before xs

module _ {ℓ} {A : Type ℓ} (before : A → A → Bool) (P : A → Type 0) where
  All-insert : (a : A) (xs : List A) → P a → All P xs → All P (insert before a xs)
  unfolding insert
  All-insert a [] p h = (p, tt)
  All-insert a (x ∷ xs) p h = elim (Bool-cases (before x a)) [
    | inl e ↦ rw e (h.0, All-insert a xs p h.1)
    | inr e ↦ rw e (p, h)
  ]

  pub All-sort : (xs : List A) → All P xs → All P (sort before xs)
  unfolding sort
  All-sort [] h = tt
  All-sort (x ∷ xs) h = All-insert x (sort before xs) h.0 (All-sort xs h.1)

  Some-insert : (a : A) (xs : List A) → P a ⊎ Some P xs → Some P (insert before a xs)
  unfolding insert
  Some-insert a [] h = h
  Some-insert a (x ∷ xs) h = elim (Bool-cases (before x a)) [
    | inl e ↦ rw e (elim h [
      | inl p ↦ inr (Some-insert a xs (inl p))
      | inr (inl p) ↦ inl p
      | inr (inr p) ↦ inr (Some-insert a xs (inr p))
    ])
    | inr e ↦ rw e h
  ]

  pub Some-sort : (xs : List A) → Some P xs → Some P (sort before xs)
  unfolding sort
  Some-sort [] h = h
  Some-sort (x ∷ xs) (inl p) = Some-insert x (sort before xs) (inl p)
  Some-sort (x ∷ xs) (inr p) = Some-insert x (sort before xs) (inr (Some-sort xs p))

module _ {ℓ} {A : Type ℓ} (before : A → A → Bool) where
  length-insert : (a : A) (xs : List A) → length (insert before a xs) ≡ suc (length xs)
  unfolding insert
  length-insert a [] = refl
  length-insert a (x ∷ xs) = elim (Bool-cases (before x a)) [
    | inl e ↦ rw e (ap suc (length-insert a xs))
    | inr e ↦ rw e
  ]

  pub length-sort : (xs : List A) → length (sort before xs) ≡ length xs
  unfolding sort
  length-sort [] = refl
  length-sort (x ∷ xs) = length-insert x (sort before xs) ∙ ap suc (length-sort xs)

  insert-perm : (a : A) (xs : List A) → Perm (insert before a xs) (a ∷ xs)
  unfolding insert
  insert-perm a [] = Perm.refl (a ∷ [])
  insert-perm a (x ∷ xs) = elim (Bool-cases (before x a)) [
    | inl e ↦ rw e (Perm.trans (Perm.cons x (insert-perm a xs)) (Perm.swap a x xs))
    | inr e ↦ rw e (Perm.refl (a ∷ (x ∷ xs)))
  ]

  pub sort-perm : (xs : List A) → Perm (sort before xs) xs
  unfolding sort
  sort-perm [] = Perm.refl []
  sort-perm (x ∷ xs) = Perm.trans (insert-perm x (sort before xs)) (Perm.cons x (sort-perm xs))

  -- A list in order is its own sorting.
  pub sort-Ordered_self : (xs : List A) → Ordered before xs → sort before xs ≡ xs
  unfolding sort insert
  sort-Ordered_self [] h = refl
  sort-Ordered_self (x ∷ xs) (first, h) = rw (sort-Ordered_self xs h) (go xs first)
    where
      go : (ys : List A) → All (λ y. before y x ≡ false) ys → insert before x ys ≡ x ∷ ys
      go [] a = refl
      go (y ∷ ys) (e, a) = rw e

  module _ (trans : (a b c : A) → before b a ≡ false → before c b ≡ false → before c a ≡ false)
      (asym : (a b : A) → before a b ≡ true → before b a ≡ false) where
    after_all :
        (a b : A) (xs : List A)
        → before b a ≡ false
        → All (λ y. before y b ≡ false) xs
        → All (λ y. before y a ≡ false) xs
    after_all a b [] h k = tt
    after_all a b (x ∷ xs) h (k, ks) = (trans a b x h k, after_all a b xs h ks)

    insert-Ordered : (a : A) (xs : List A) → Ordered before xs → Ordered before (insert before a xs)
    unfolding insert
    insert-Ordered a [] h = (tt, tt)
    insert-Ordered a (x ∷ xs) (first, h) = elim (Bool-cases (before x a)) [
      | inl e ↦ rw e (
        All-insert before (λ y. before y x ≡ false) a xs (asym x a e) first,
        insert-Ordered a xs h,
      )
      | inr e ↦ rw e ((e, after_all a x xs e first), (first, h))
    ]

    pub sort-Ordered : (xs : List A) → Ordered before (sort before xs)
    unfolding sort
    sort-Ordered [] = tt
    sort-Ordered (x ∷ xs) = insert-Ordered x (sort before xs) (sort-Ordered xs)

-- A map that the order does not see may come before the sorting or after it.
module _ {ℓ} {A : Type ℓ} (before : A → A → Bool) (f : A → A)
    (blind : (a b : A) → before (f a) (f b) ≡ before a b) where
  insert-map : (a : A) (xs : List A) → map f (insert before a xs) ≡ insert before (f a) (map f xs)
  unfolding insert
  insert-map a [] = refl
  insert-map a (x ∷ xs) = elim (Bool-cases (before x a)) [
    | inl e ↦ rw (e, blind x a ∙ e) (ap (λ l. f x ∷ l) (insert-map a xs))
    | inr e ↦ rw (e, blind x a ∙ e)
  ]

  pub sort-map : (xs : List A) → map f (sort before xs) ≡ sort before (map f xs)
  unfolding sort
  sort-map [] = refl
  sort-map (x ∷ xs) = insert-map x (sort before xs) ∙ ap (insert before (f x)) (sort-map xs)
