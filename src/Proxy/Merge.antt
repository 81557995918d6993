-- ===== src/Proxy/Merge.antt =====
-- The table of the proxy while the routes of a domain are replaced.
use tunnel_manager.Prelude.{
  ◌≡◌, refl, ◌⊎◌, inl, inr, Bool, true, false, not, ◌&&◌, List, [], ◌∷◌, ◌++◌, All, Some,
  Some-append_left, Some-append_right, arith, Bool-cases, if◌then◌else◌,
}
use mathlib.Core.Path.{subst}
use tunnel_manager.Prelude.Text.{Bytes, text_eq, text_eq_iff}
use tunnel_manager.Model.{DomainRoute}
use tunnel_manager.Proxy.{strips, has_path, strips_unless, merged}

module _ (P : DomainRoute → Type 0) where
  keep_if :
      (b : Bool) (r : DomainRoute) (l : List DomainRoute)
      → Some P l
      → Some P (if b then r ∷ l else l)
  keep_if true r l h = inr h
  keep_if false r l h = h

  head_if :
      (b : Bool) (r : DomainRoute) (l : List DomainRoute)
      → b ≡ true
      → P r
      → Some P (if b then r ∷ l else l)
  head_if true r l e h = inl h
  head_if false r l e h = cc

  All-if :
      (b : Bool) (r : DomainRoute) (l : List DomainRoute)
      → (b ≡ true → P r)
      → All P l
      → All P (if b then r ∷ l else l)
  All-if true r l f h = (f refl, h)
  All-if false r l f h = h

  strips-listed :
      (rs : List DomainRoute) → Some (λ r. P r × (r.strip_prefix ≡ true)) rs → Some P (strips rs)
  unfolding strips
  strips-listed [] h = absurd h
  strips-listed (r ∷ rs) (inl (p, taken)) = head_if r.strip_prefix r (strips rs) taken p
  strips-listed (r ∷ rs) (inr h) = keep_if r.strip_prefix r (strips rs) (strips-listed rs h)

strips-all : (rs : List DomainRoute) → All (λ r. r.strip_prefix ≡ true) (strips rs)
unfolding strips
strips-all [] = tt
strips-all (r ∷ rs) =
    All-if (λ x. x.strip_prefix ≡ true) r.strip_prefix r (strips rs) (λ e. e) (strips-all rs)

has_path-Some :
    (p : Bytes) (rs : List DomainRoute) → has_path p rs ≡ true → Some (λ x. x.path ≡ p) rs
unfolding has_path
has_path-Some p [] h = cc
has_path-Some p (r ∷ rs) h = elim (Bool-cases (text_eq r.path p)) [
  | inl same ↦ inl ((text_eq_iff r.path p).0 same)
  | inr other ↦ inr (has_path-Some p rs (simp other at h))
]

-- The two tests of the second loop as one.
strips_unless-cons :
    (new : List DomainRoute) (r : DomainRoute) (rs : List DomainRoute)
    → strips_unless new (r ∷ rs) ≡ (
        if r.strip_prefix && not (has_path r.path new)
        then r ∷ strips_unless new rs
        else strips_unless new rs)
unfolding strips_unless
strips_unless-cons new r rs = ground arith

-- A route is new to the table, and strips its prefix.
abbrev pub IsKept : List DomainRoute → DomainRoute → Type 0
IsKept new r = (r.strip_prefix ≡ true) × (has_path r.path new ≡ false)

strips_unless-all : (new rs : List DomainRoute) → All (IsKept new) (strips_unless new rs)
unfolding strips_unless
strips_unless-all new [] = tt
strips_unless-all new (r ∷ rs) = rw (strips_unless-cons new r rs) (
    All-if (IsKept new) (r.strip_prefix && not (has_path r.path new)) r (strips_unless new rs)
      (λ e. (ground arith, ground arith)) (strips_unless-all new rs))

old_covered :
    (p : Bytes) (new rs : List DomainRoute)
    → Some (λ r. (r.path ≡ p) × (r.strip_prefix ≡ true)) rs
    → Some (λ x. x.path ≡ p) new ⊎ Some (λ x. x.path ≡ p) (strips_unless new rs)
old_covered p new [] h = absurd h
old_covered p new (r ∷ rs) (inl (same, taken)) = elim (Bool-cases (has_path r.path new)) [
  | inl there ↦ inl (subst (λ q. Some (λ x. x.path ≡ q) new) same (has_path-Some r.path new there))
  | inr absent ↦ inr (
      rw (strips_unless-cons new r rs) (
        head_if (λ x. x.path ≡ p) (r.strip_prefix && not (has_path r.path new)) r
          (strips_unless new rs) (ground arith) same))
]
old_covered p new (r ∷ rs) (inr h) = elim (old_covered p new rs h) [
  | inl there ↦ inl there
  | inr later ↦ inr (
      rw (strips_unless-cons new r rs) (
        keep_if (λ x. x.path ≡ p) (r.strip_prefix && not (has_path r.path new)) r
          (strips_unless new rs) later))
]

-- The merged table holds each new route that strips its prefix, a route for each old path that was
-- stripped, nothing that does not strip, and an old route only where no new one has its path.
pub merged_covers :
    (old new : List DomainRoute)
    → ((P : DomainRoute → Type 0)
        → Some (λ r. P r × (r.strip_prefix ≡ true)) new
        → Some P (merged old new))
      × ((p : Bytes)
          → Some (λ r. (r.path ≡ p) × (r.strip_prefix ≡ true)) old
          → Some (λ r. r.path ≡ p) (merged old new))
      × ((rest : List DomainRoute) × (merged old new ≡ strips new ++ rest)
          × All (IsKept (strips new)) rest)
      × All (λ r. r.strip_prefix ≡ true) (strips new)
unfolding merged
merged_covers old new = (
  λ P h. Some-append_left P (strips new) (strips_unless (strips new) old) (strips-listed P new h),
  λ p h. elim (old_covered p (strips new) old h) [
    | inl there ↦ Some-append_left _ (strips new) _ there
    | inr later ↦ Some-append_right _ (strips new) _ later
  ],
  (strips_unless (strips new) old, refl, strips_unless-all (strips new) old),
  strips-all new,
)
