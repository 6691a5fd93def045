-- ===== src/Base/Rounding.antt =====
-- `Decimal.quantize` of a quotient `n / d` to whole units.
use Prim.Native.Nat.{ℕ, ◌+◌, ◌*◌, ◌/◌, ◌%◌}
use cadencia_platform.Base.Tests.{ltb, if◌then◌else◌}

-- ROUND_HALF_EVEN, the default: to the nearest unit, and a tie to the even one.
unfoldable pub half_even : (n d : ℕ) → ℕ
half_even n d =
    let q = n / d in
    let r = 2 * (n % d) in if ltb r d then q else if ltb d r then q + 1 else q + q % 2

-- ROUND_HALF_UP: a tie goes up.
unfoldable pub half_up : (n d : ℕ) → ℕ
half_up n d = if ltb (2 * (n % d)) d then n / d else n / d + 1
