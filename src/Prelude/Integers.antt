-- ===== src/Prelude/Integers.antt =====
-- Go's `int`, which may be negative, and its product on 64 bits.
use Prim.Native.Nat.{ℕ, ◌-◌, ◌^◌}
use Prim.Native.Nat.{◌%◌}
use mathlib.Core.Bool.{Bool, true, false}
use tunnel_manager.Prelude.Tests.{ltb, if◌then◌else◌}

pub data ℤ : Type 0 where
  pos : ℕ → ℤ
  negsuc : ℕ → ℤ

abbrev pub ltz : ℤ → ℤ → Bool
ltz (pos m) (pos n) = ltb m n
ltz (pos m) (negsuc n) = false
ltz (negsuc m) (pos n) = true
ltz (negsuc m) (negsuc n) = ltb n m

-- The number that 64 bits in two's complement spell.
unfoldable pub signed64 : ℕ → ℤ
signed64 n = let m = n % 2 ^ 64 in if ltb m (2 ^ 63) then pos m else negsuc (2 ^ 64 - 1 - m)
