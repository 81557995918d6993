-- ===== src/Routes/Path.antt =====
-- What a normalised route path looks like, and which of them are normalised again to themselves.
use tunnel_manager.Prelude.{
  ℕ, zero, suc, ◌+◌, ◌≤◌, ◌≡◌, refl, sym, ap, ◌∙◌, ◌≢◌, ◌⊎◌, inl, inr, ◌↔◌, true, false, [], ◌∷◌,
  ◌++◌, ok, ◌==◌, ==_iff, length, length-append, Bool-cases, arith, if◌then◌else◌,
}
use mathlib.Core.List.{append_assoc, append-nil}
use mathlib.Core.Path.{subst, ap₂}
use tunnel_manager.Prelude.Text.{
  Bytes, slash, text_eq, text_eq_iff, has_prefix, contains_byte, trim_right_slash,
  keep_unless_slash,
}
use tunnel_manager.Prelude.Text.Space.{trim_space, trim_space-slashes, length-trim_space}
use tunnel_manager.Prelude.Text.Utf8.{valid_utf8, valid_utf8-slash, has_control, has_control-slash}
use tunnel_manager.Routes.{root, max_route_path_len, normalize_route_path}

abbrev pub slashes : ℕ → Bytes
slashes zero = []
slashes (suc k) = slash ∷ slashes k

cut_slash :
    (c : ℕ) (t s : Bytes) (k : ℕ)
    → s ≡ t ++ slashes k
    → (j : ℕ) × (c ∷ s ≡ keep_unless_slash c t ++ slashes j)
unfolding keep_unless_slash
cut_slash c [] s k e = elim (Bool-cases (c == slash)) [
  | inl same ↦
      let c_slash : c ≡ slash = (==_iff c slash).0 same in (suc k, rw same (ap₂ ◌∷◌ c_slash e))
  | inr other ↦ (k, rw other (ap (λ x. c ∷ x) e))
]
cut_slash c (d ∷ t) s k e = (k, ap (λ x. c ∷ x) e)

-- Trimming takes off slashes at the end and nothing else.
pub trim_right_slash-split : (p : Bytes) → (k : ℕ) × (p ≡ trim_right_slash p ++ slashes k)
unfolding trim_right_slash
trim_right_slash-split [] = (0, refl)
trim_right_slash-split (c ∷ s) =
    let (k, e) = trim_right_slash-split s in cut_slash c (trim_right_slash s) s k e

module _ (P : Bytes → Type 0) (shrink : (s : Bytes) → P (s ++ slash ∷ []) → P s) where
  shrink_all : (s : Bytes) (k : ℕ) → P (s ++ slashes k) → P s
  shrink_all s zero h = rw append-nil at h
  shrink_all s (suc k) h =
      shrink s
        (shrink_all (s ++ slash ∷ []) k (subst P (sym (append_assoc s (slash ∷ []) (slashes k))) h))

  trim_keeps : (p : Bytes) → P p → P (trim_right_slash p)
  trim_keeps p h =
      let (k, e) = trim_right_slash-split p in shrink_all (trim_right_slash p) k (subst P e h)

-- The invariant of a normalised path. It can be empty: see `normalize_route_path-slashes`.
pub record IsAcceptedPath (p : Bytes) : Type 0 where
  pub absolute : (p ≡ []) ⊎ (has_prefix p root ≡ true)
  pub no_query : contains_byte b'?' p ≡ false
  pub no_fragment : contains_byte b'#' p ≡ false
  pub no_control : has_control p ≡ false
  pub is_utf8 : valid_utf8 p ≡ true
  pub short : length p ≤ max_route_path_len

contains_byte-slash :
    (b : ℕ) (s : Bytes) → contains_byte b (s ++ slash ∷ []) ≡ false → contains_byte b s ≡ false
unfolding contains_byte
contains_byte-slash b [] h = refl
contains_byte-slash b (c ∷ s) h = ground (arith, contains_byte-slash b s)

absolute-slash :
    (s : Bytes)
    → (s ++ slash ∷ [] ≡ []) ⊎ (has_prefix (s ++ slash ∷ []) root ≡ true)
    → (s ≡ []) ⊎ (has_prefix s root ≡ true)
unfolding has_prefix
absolute-slash [] h = inl refl
absolute-slash (c ∷ []) h = ground arith
absolute-slash (c ∷ (d ∷ s)) h = ground arith

IsAcceptedPath-slash : (s : Bytes) → IsAcceptedPath (s ++ slash ∷ []) → IsAcceptedPath s
IsAcceptedPath-slash s h = record {
  absolute = absolute-slash s h.absolute;
  no_query = contains_byte-slash b'?' s h.no_query;
  no_fragment = contains_byte-slash b'#' s h.no_fragment;
  no_control = has_control-slash s h.no_control;
  is_utf8 = valid_utf8-slash s h.is_utf8;
  short = omega (arith, h.short, length-append s (slash ∷ []));
}

-- The tests that a trimmed path has passed.
checked :
    (raw q : Bytes)
    → normalize_route_path raw ≡ ok q
    → IsAcceptedPath (trim_space raw)
      × (text_eq (trim_space raw) [] ≡ false)
      × (q ≡ (
          if text_eq (trim_space raw) root
          then trim_space raw
          else trim_right_slash (trim_space raw)))
unfolding normalize_route_path
checked raw q h = ground arith

keep_unless_slash_idem :
    (c : ℕ) (t : Bytes)
    → trim_right_slash t ≡ t
    → trim_right_slash (keep_unless_slash c t) ≡ keep_unless_slash c t
unfolding trim_right_slash
keep_unless_slash_idem c [] h = ground arith
keep_unless_slash_idem c (d ∷ t) h = rw (h, keep_unless_slash)

trim_right_slash_idem : (p : Bytes) → trim_right_slash (trim_right_slash p) ≡ trim_right_slash p
unfolding trim_right_slash
trim_right_slash_idem [] = refl
trim_right_slash_idem (c ∷ s) =
    keep_unless_slash_idem c (trim_right_slash s) (trim_right_slash_idem s)

-- An accepted path is in normal form: it is empty or absolute, it has no query, fragment or control
-- character, it is UTF-8 of at most 256 bytes, and only the root ends in a slash.
pub normalize_route_path-IsAcceptedPath :
    (raw q : Bytes)
    → normalize_route_path raw ≡ ok q
    → IsAcceptedPath q × ((q ≡ root) ⊎ (trim_right_slash q ≡ q))
normalize_route_path-IsAcceptedPath raw q h =
    let (path, _, e) = checked raw q h in
    elim (Bool-cases (text_eq (trim_space raw) root)) [
      | inl same ↦
          let whole : q ≡ trim_space raw = rw same at e in
          (rw whole path, inl (whole ∙ (text_eq_iff (trim_space raw) root).0 same))
      | inr other ↦
          let cut : q ≡ trim_right_slash (trim_space raw) = rw other at e in
          (
            rw cut (trim_keeps IsAcceptedPath IsAcceptedPath-slash (trim_space raw) path),
            inr (rw cut (trim_right_slash_idem (trim_space raw))),
          )
    ]

root_again : normalize_route_path root ≡ ok root
unfolding normalize_route_path trim_space text_eq has_prefix contains_byte has_control valid_utf8
root_again = refl

-- A path that is its own trimming and has the normal form is accepted as it is.
accepted_self :
    (q : Bytes)
    → IsAcceptedPath q
    → q ≢ []
    → trim_space q ≡ q
    → trim_right_slash q ≡ q
    → normalize_route_path q ≡ ok q
unfolding normalize_route_path
accepted_self q h nonempty plain cut = rw plain (ground (arith, text_eq_iff q []))

normalize_route_path-nil : (q : Bytes) → normalize_route_path [] ≢ ok q
unfolding normalize_route_path trim_space text_eq
normalize_route_path-nil q h = cc

no_slashes_left : (q t : Bytes) (k : ℕ) → t ≡ q ++ slashes k → length t ≤ length q → t ≡ q
no_slashes_left q t zero e h = e ∙ append-nil q
no_slashes_left q t (suc k) e h =
    absurd (omega (arith, ap length e, length-append q (slashes (suc k))))

accepted_self_inv : (q : Bytes) → normalize_route_path q ≡ ok q → (q ≢ []) × (trim_space q ≡ q)
accepted_self_inv q h =
    let (_, _, e) = checked q q h in
    let (k, split) = trim_right_slash-split (trim_space q) in
    (
      λ empty. normalize_route_path-nil q (subst (λ t. normalize_route_path t ≡ ok q) empty h),
      elim (Bool-cases (text_eq (trim_space q) root)) [
        | inl same ↦ sym (rw same at e)
        | inr other ↦
            let cut : q ≡ trim_right_slash (trim_space q) = rw other at e in
            no_slashes_left q (trim_space q) k (split ∙ ap (λ t. t ++ slashes k) (sym cut))
              (length-trim_space q)
      ],
    )

-- An accepted path, validated again as `Reconcile` does after a restart, is accepted as it is
-- exactly when it is not empty and has no white space at its end or its beginning.
pub normalize_route_path-again_iff :
    (raw q : Bytes)
    → normalize_route_path raw ≡ ok q
    → (normalize_route_path q ≡ ok q) ↔ ((q ≢ []) × (trim_space q ≡ q))
normalize_route_path-again_iff raw q h =
    let (path, ends) = normalize_route_path-IsAcceptedPath raw q h in
    (
      accepted_self_inv q,
      λ (nonempty, plain). elim ends [
        | inl is_root ↦ rw is_root root_again
        | inr cut ↦ accepted_self q path nonempty plain cut
      ],
    )

slashes-clean :
    (k : ℕ)
    → (contains_byte b'?' (slashes k) ≡ false)
      × (contains_byte b'#' (slashes k) ≡ false)
      × (valid_utf8 (slashes k) ≡ true)
      × (trim_right_slash (slashes k) ≡ [])
      × (length (slashes k) ≡ k)
unfolding contains_byte valid_utf8 trim_right_slash
slashes-clean zero = (refl, refl, refl, refl, refl)
slashes-clean (suc k) = let (a, b, c, d, e) = slashes-clean k in (a, b, c, rw d, ap suc e)

slashes-no_control : (k : ℕ) → has_control (slashes k) ≡ false
unfolding has_control
slashes-no_control zero = refl
slashes-no_control (suc zero) = refl
slashes-no_control (suc (suc k)) = slashes-no_control (suc k)

slashes-snoc : (k : ℕ) → slashes k ++ slash ∷ [] ≡ slashes (suc k)
slashes-snoc zero = refl
slashes-snoc (suc k) = ap (λ s. slash ∷ s) (slashes-snoc k)

trim_space-slashes_only : (k : ℕ) → trim_space (slashes (suc (suc k))) ≡ slashes (suc (suc k))
trim_space-slashes_only k =
    subst (λ s. trim_space (slash ∷ s) ≡ slash ∷ s) (slashes-snoc k)
      (trim_space-slashes (slashes k))

-- A raw path of two or more slashes is accepted and becomes the empty path, which is not a valid
-- path: validated again, it is refused.
pub normalize_route_path-slashes :
    (k : ℕ)
    → k + 2 ≤ max_route_path_len
    → (normalize_route_path (slashes (suc (suc k))) ≡ ok [])
      × ((q : Bytes) → normalize_route_path [] ≢ ok q)
unfolding normalize_route_path text_eq has_prefix
normalize_route_path-slashes k h =
    let (a, b, c, d, e) = slashes-clean (suc (suc k)) in
    (
      rw (trim_space-slashes_only k) (ground (arith, slashes-no_control (suc (suc k)))),
      normalize_route_path-nil,
    )
