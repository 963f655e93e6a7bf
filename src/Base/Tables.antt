-- ===== src/Base/Tables.antt =====
-- Facts about a small range of numbers, checked at every value by evaluation.
use Prim.Native.Nat.{ℕ, zero, suc, ◌<◌}
use mathlib.Core.Path.{◌≡◌}
use mathlib.Core.Bool.{Bool, true, ◌&&◌}
use native.Mathlib.Omega.{arith}

module _ (test : ℕ → Bool) where
  unfoldable pub table : ℕ → Bool
  table zero = true
  table (suc last) = table last && test last

  pub from_table : (x size : ℕ) → x < size → table size ≡ true → test x ≡ true
  unfolding table
  from_table x zero small h = absurd (omega arith)
  from_table x (suc last) small h = ground (arith, from_table x last)
