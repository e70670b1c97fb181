-- ===== src/Common/Tables.antt =====
-- Laws over a small range, checked at every value.
use Prim.Native.Nat.{ℕ, zero, suc, ◌<◌}
use mathlib.Core.Bool.{Bool, true, false}
use mathlib.Core.Path.{◌≡◌}
use native.Mathlib.Omega.{arith}
use g7ctrl.Common.Tests.{if◌then◌else◌}

unfoldable pub table_holds : ℕ → (ℕ → Bool) → Bool
table_holds zero test = true
table_holds (suc bound) test = if test bound then table_holds bound test else false

-- What a table says of each of its rows.
pub table_holds_lem :
    (bound : ℕ) (test : ℕ → Bool) (row : ℕ)
    → table_holds bound test ≡ true
    → row < bound
    → test row ≡ true
unfolding table_holds
table_holds_lem zero test row checked inside = absurd (omega arith)
table_holds_lem (suc bound) test row checked inside = ground (arith, table_holds_lem bound test row)
