-- ===== src/Base/Bounds.antt =====
-- The test of a coordinate against the number of tiles on its axis, as the C code writes it.
use Prim.Native.Nat.{ℕ, ◌+◌, ◌≤◌, ◌<◌}
use mathlib.Core.Path.{◌≡◌}
use mathlib.Core.Logic.{◌↔◌}
use mathlib.Core.Bool.{Bool, true, not, ◌||◌}
use native.Mathlib.Omega.{arith}
use mod_tile.Base.Int.{ℤ, pos, negsuc, pos_part, neg_part, ltb_ℤ, ◌-ℤ◌}

abbrev pub Within : ℤ → ℕ → Type 0
Within (pos n) limit = n < limit
Within (negsuc n) limit = ⊥

abbrev pub NotAbove : ℤ → ℤ → Type 0
NotAbove a b = pos_part a + neg_part b ≤ pos_part b + neg_part a

abbrev pub axis : ℤ → ℕ → Bool
axis x limit = not (ltb_ℤ x (pos 0) || ltb_ℤ (pos limit -ℤ pos 1) x)

pub axis_lem : (x : ℤ) (limit : ℕ) → (axis x limit ≡ true) ↔ Within x limit
axis_lem (pos n) limit = ground arith
axis_lem (negsuc n) limit = ground arith
