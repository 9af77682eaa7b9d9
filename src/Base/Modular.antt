-- ===== src/Base/Modular.antt =====
-- Indices that go round at a capacity.
use Prim.Native.Nat.{ℕ, ◌+◌, ◌-◌, ◌%◌, ◌<◌}
use mathlib.Core.Path.{◌≡◌}
use native.Mathlib.Nat.{mod-eq_of_lt, mod-eq-sub-mod}
use native.Mathlib.Decide.{dec_lt}
use native.Mathlib.Omega.{arith}
use munt3os.Base.Tests.{ltb, if◌then◌else◌}

-- A sum of two indices goes round once at most.
pub mod-wrap : (a n : ℕ) → a < n + n → a % n ≡ (if ltb a n then a else a - n)
mod-wrap a n h = elim (dec_lt a n) [
  | yes p ↦ ground (arith, mod-eq_of_lt p)
  | no p ↦ ground (
    arith,
    mod-eq-sub-mod {n = a} {m = n} (omega arith),
    mod-eq_of_lt {n = a - n} {m = n} (omega arith),
  )
]
