-- ===== src/PortAlloc.antt =====
-- internal/pkg/portalloc/portalloc.go: the allocator of metrics ports.
pub mod Least
mod Tests
use tunnel_manager.Prelude.{
  ℕ, zero, suc, ◌+◌, ◌-◌, Bool, Result, ok, err, Error, external, if◌then◌else◌,
}
use tunnel_manager.Prelude.Text.{codes}

pub record Allocator : Type 0 where
  pub start : ℕ
  pub end : ℕ

-- The message without the numbers of the range.
abbrev pub no_free_port : Error
no_free_port = external (codes "portalloc: no free port in range")

-- `for port := a.start; port <= a.end; port++`, with the rounds that are left.
scan : (ℕ → Bool) → ℕ → ℕ → Result ℕ
scan taken zero port = err no_free_port
scan taken (suc rounds) port =
    let rest = scan taken rounds (port + 1) in if taken port then rest else ok port

-- The map of taken ports is its test `taken[port]`, false on a port that is not in it.
unfoldable pub allocate : Allocator → (ℕ → Bool) → Result ℕ
unfolding scan
allocate a taken = scan taken (a.end + 1 - a.start) a.start
