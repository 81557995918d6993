-- ===== src/Prelude/Text/Space.antt =====
-- `strings.TrimSpace` and `strings.ToLower` on bytes.
use mathlib.Core.List.{reverse-cons, reverse-append, reverse-reverse}
use Prim.Native.Nat.{ℕ, zero, suc, ◌+◌, ◌≤◌}
use native.Mathlib.Omega.{arith}
use mathlib.Core.Path.{◌≡◌, refl, sym, ap, ◌∙◌}
use mathlib.Core.Bool.{Bool, true, ◌&&◌, ◌||◌}
use mathlib.Core.List.{[], ◌∷◌, ◌++◌, map, reverse}
use tunnel_manager.Prelude.Tests.{leb, ltb, ◌==◌, if◌then◌else◌}
use tunnel_manager.Prelude.Lists.{length, length-append}
use tunnel_manager.Prelude.Text.{Bytes, slash}

is_ascii_space : ℕ → Bool
is_ascii_space c = (leb 9 c && leb c 13) || c == 32

-- U+0085 and U+00A0 in UTF-8.
is_wide_space₂ : ℕ → ℕ → Bool
is_wide_space₂ a b = a == 0xC2 && (b == 0x85 || b == 0xA0)

-- U+1680, U+2000 to U+200A, U+2028, U+2029, U+202F, U+205F and U+3000 in UTF-8.
is_wide_space₃ : ℕ → ℕ → ℕ → Bool
is_wide_space₃ a b c =
    (a == 0xE1 && b == 0x9A && c == 0x80)
    || (a == 0xE2
        && b == 0x80
        && ((leb 0x80 c && leb c 0x8A) || c == 0xA8 || c == 0xA9 || c == 0xAF))
    || (a == 0xE2 && b == 0x81 && c == 0x9F)
    || (a == 0xE3 && b == 0x80 && c == 0x80)

-- How many bytes the white space at the front of a text takes; 0 if none stands there.
front : Bytes → ℕ
unfolding is_ascii_space is_wide_space₂ is_wide_space₃
front [] = 0
front (a ∷ []) = if is_ascii_space a then 1 else 0
front (a ∷ (b ∷ [])) = if is_ascii_space a then 1 else if is_wide_space₂ a b then 2 else 0
front (a ∷ (b ∷ (c ∷ s))) =
    if is_ascii_space a
    then 1
    else if is_wide_space₂ a b
    then 2
    else if is_wide_space₃ a b c
    then 3
    else 0

-- The same at the end, for the reversed text.
back : Bytes → ℕ
unfolding is_ascii_space is_wide_space₂ is_wide_space₃
back [] = 0
back (a ∷ []) = if is_ascii_space a then 1 else 0
back (b ∷ (a ∷ [])) = if is_ascii_space b then 1 else if is_wide_space₂ a b then 2 else 0
back (c ∷ (b ∷ (a ∷ s))) =
    if is_ascii_space c
    then 1
    else if is_wide_space₂ b c
    then 2
    else if is_wide_space₃ a b c
    then 3
    else 0

-- Takes off white space; the number is how many bytes of it are still to go.
strip : (Bytes → ℕ) → ℕ → Bytes → Bytes
strip width k [] = []
strip width (suc k) (c ∷ s) = strip width k s
strip width zero (c ∷ s) = elim (width (c ∷ s)) [ zero ↦ c ∷ s | suc k ↦ strip width k s ]

unfoldable pub trim_space : Bytes → Bytes
unfolding strip front back
trim_space s = reverse (strip back 0 (reverse (strip front 0 s)))

front-slash : (s : Bytes) → front (slash ∷ s) ≡ 0
unfolding front
front-slash [] = refl
front-slash (b ∷ []) = refl
front-slash (b ∷ (c ∷ s)) = refl

back-slash : (s : Bytes) → back (slash ∷ s) ≡ 0
unfolding back
back-slash [] = refl
back-slash (b ∷ []) = ground arith
back-slash (b ∷ (c ∷ s)) = ground arith

strip-slash :
    (width : Bytes → ℕ) (s : Bytes) → width (slash ∷ s) ≡ 0 → strip width 0 (slash ∷ s) ≡ slash ∷ s
unfolding strip
strip-slash width s e = rw (e, strip)

-- A text between two slashes has nothing to trim.
pub trim_space-slashes :
    (s : Bytes) → trim_space (slash ∷ (s ++ slash ∷ [])) ≡ slash ∷ (s ++ slash ∷ [])
unfolding trim_space
trim_space-slashes s =
    ap (λ t. reverse (strip back 0 (reverse t)))
      (strip-slash front (s ++ slash ∷ []) (front-slash _))
    ∙ (ap (λ t. reverse (strip back 0 t)) (reverse-append (slash ∷ s) (slash ∷ []))
        ∙ (ap reverse (strip-slash back (reverse (slash ∷ s)) (back-slash (reverse (slash ∷ s))))
            ∙ (ap reverse (sym (reverse-append (slash ∷ s) (slash ∷ [])))
                ∙ reverse-reverse (slash ∷ (s ++ slash ∷ [])))))

length-strip : (width : Bytes → ℕ) (k : ℕ) (s : Bytes) → length (strip width k s) ≤ length s
unfolding strip
length-strip width k [] = omega arith
length-strip width (suc k) (c ∷ s) = omega (arith, length-strip width k s)
length-strip width zero (c ∷ s) = go (width (c ∷ s)) (λ k. length-strip width k s)
  where
    go :
        (w : ℕ)
        → ((k : ℕ) → length (strip width k s) ≤ length s)
        → length (elim w [ zero ↦ c ∷ s | suc k ↦ strip width k s ]) ≤ suc (length s)
    go zero ih = omega arith
    go (suc k) ih = omega (arith, ih k)

length-reverse : (s : Bytes) → length (reverse s) ≡ length s
length-reverse [] = refl
length-reverse (c ∷ s) =
    rw (reverse-cons c s) (omega (arith, length-append (reverse s) (c ∷ []), length-reverse s))

pub length-trim_space : (s : Bytes) → length (trim_space s) ≤ length s
unfolding trim_space
length-trim_space s = omega (
  arith,
  length-reverse (strip back 0 (reverse (strip front 0 s))),
  length-strip back 0 (reverse (strip front 0 s)),
  length-reverse (strip front 0 s),
  length-strip front 0 s,
)

is_ascii : Bytes → Bool
is_ascii [] = true
is_ascii (c ∷ s) = ltb c 128 && is_ascii s

lower : ℕ → ℕ
lower c = if leb b'A' c && leb c b'Z' then c + 32 else c

-- `strings.ToLower`: ASCII texts byte by byte, the others by the tables of `unicode.ToLower`, which
-- are the argument.
unfoldable pub to_lower : (Bytes → Bytes) → Bytes → Bytes
unfolding is_ascii lower
to_lower unicode s = if is_ascii s then map lower s else unicode s
