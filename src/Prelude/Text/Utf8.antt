-- ===== src/Prelude/Text/Utf8.antt =====
-- `utf8.ValidString`, and the search for a control character, on bytes.
use Prim.Native.Nat.{ℕ}
use mathlib.Core.Path.{◌≡◌, refl}
use mathlib.Core.Bool.{Bool, true, false, ◌&&◌, ◌||◌}
use mathlib.Core.List.{[], ◌∷◌, ◌++◌}
use native.Mathlib.Omega.{arith}
use tunnel_manager.Prelude.Tests.{leb, ltb, ◌==◌, if◌then◌else◌}
use tunnel_manager.Prelude.Text.{Bytes, slash}

-- What the next byte may be: the start of a character, one of the last continuation bytes, or the
-- second byte after E0, ED, F0 or F4, where the range is smaller.
pub data Expect : Type 0 where
  start one two three after_e0 after_ed after_f0 after_f4 bad : Expect

first : ℕ → Expect
first c =
    if ltb c 0x80
    then start
    else if ltb c 0xC2
    then bad
    else if ltb c 0xE0
    then one
    else if c == 0xE0
    then after_e0
    else if c == 0xED
    then after_ed
    else if ltb c 0xF0
    then two
    else if c == 0xF0
    then after_f0
    else if ltb c 0xF4
    then three
    else if c == 0xF4
    then after_f4
    else bad

within : ℕ → ℕ → ℕ → Expect → Expect
within lo hi c e = if leb lo c && leb c hi then e else bad

next : Expect → ℕ → Expect
unfolding first within
next start c = first c
next one c = within 0x80 0xBF c start
next two c = within 0x80 0xBF c one
next three c = within 0x80 0xBF c two
next after_e0 c = within 0xA0 0xBF c one
next after_ed c = within 0x80 0x9F c one
next after_f0 c = within 0x90 0xBF c two
next after_f4 c = within 0x80 0x8F c two
next bad c = bad

complete : Expect → Bool
complete start = true
complete _ = false

valid_from : Expect → Bytes → Bool
unfolding next complete
valid_from e [] = complete e
valid_from e (c ∷ s) = valid_from (next e c) s

unfoldable pub valid_utf8 : Bytes → Bool
unfolding valid_from
valid_utf8 s = valid_from start s

-- `unicode.IsControl` of some character: an ASCII one, or U+0080 to U+009F, which no other
-- characters' bytes spell. Bytes that are not UTF-8 count as U+FFFD, which is no control character.
unfoldable pub has_control : Bytes → Bool
has_control [] = false
has_control (c ∷ []) = ltb c 0x20 || c == 0x7F
has_control (c ∷ (d ∷ s)) =
    ltb c 0x20 || c == 0x7F || (c == 0xC2 && leb 0x80 d && leb d 0x9F) || has_control (d ∷ s)

valid_from-slash :
    (e : Expect) (s : Bytes) → valid_from e (s ++ slash ∷ []) ≡ true → valid_from e s ≡ true
unfolding valid_from
valid_from-slash start [] h = refl
valid_from-slash one [] h = h
valid_from-slash two [] h = h
valid_from-slash three [] h = h
valid_from-slash after_e0 [] h = h
valid_from-slash after_ed [] h = h
valid_from-slash after_f0 [] h = h
valid_from-slash after_f4 [] h = h
valid_from-slash bad [] h = h
valid_from-slash e (c ∷ s) h = valid_from-slash (next e c) s h

pub valid_utf8-slash : (s : Bytes) → valid_utf8 (s ++ slash ∷ []) ≡ true → valid_utf8 s ≡ true
unfolding valid_utf8
valid_utf8-slash s h = valid_from-slash start s h

pub has_control-slash : (s : Bytes) → has_control (s ++ slash ∷ []) ≡ false → has_control s ≡ false
unfolding has_control
has_control-slash [] h = refl
has_control-slash (c ∷ []) h = ground arith
has_control-slash (c ∷ (d ∷ s)) h = ground (arith, has_control-slash (d ∷ s))
