-- ===== src/Base/Table.antt =====
-- A statement about all numbers below a bound, by evaluation of each.
use Prim.Native.Nat.{ℕ, zero, suc, ◌<◌}
use mathlib.Core.Path.{◌≡◌}
use mathlib.Core.Bool.{Bool, true, ◌&&◌}
use native.Mathlib.Omega.{arith}

-- Whether a test passes for every number below the bound, the largest one tried last.
unfoldable pub every_below : (bound : ℕ) (test : ℕ → Bool) → Bool
every_below zero test = true
every_below (suc bound) test = every_below bound test && test bound

pub every_below-holds :
    (bound : ℕ) (test : ℕ → Bool) (i : ℕ)
    → every_below bound test ≡ true
    → i < bound
    → test i ≡ true
unfolding every_below
every_below-holds zero test i passed small = absurd (omega arith)
every_below-holds (suc bound) test i passed small = ground (arith, every_below-holds bound test i)
