-- ===== src/PortAlloc/Tests.antt =====
-- Runs of the allocator, and its theorems at concrete inputs.
use tunnel_manager.Prelude.{ℕ, ◌≡◌, ◌↔◌, Bool, ok, refl, ◌==◌, ◌||◌}
use tunnel_manager.PortAlloc.{Allocator, allocate}
use tunnel_manager.PortAlloc.Least.{IsLeastFree, allocate-IsLeastFree}

abbrev range : Allocator
range = record { start = 20500; end = 20503 }

abbrev busy : ℕ → Bool
busy p = p == 20500 || p == 20501

allocate-busy : allocate range busy ≡ ok 20502
unfolding allocate
allocate-busy = refl

allocate-IsLeastFree_example : (allocate range busy ≡ ok 20502) ↔ IsLeastFree busy 20500 20504 20502
allocate-IsLeastFree_example = allocate-IsLeastFree range busy 20502
