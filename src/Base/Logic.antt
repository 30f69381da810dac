-- ===== src/Base/Logic.antt =====
-- Conjunctions of tests and case splits that keep their equation.
use mathlib.Core.Path.{◌≡◌}
use mathlib.Core.Bool.{Bool, true, false, ◌&&◌}
use mod_tile.Base.Tests.{if◌then◌else◌}
use native.Mathlib.Omega.{arith}

pub &&-parts : (a b : Bool) → (a && b) ≡ true → (a ≡ true) × (b ≡ true)
&&-parts a b h = ground arith

pub &&-true : {a b : Bool} → a ≡ true → b ≡ true → (a && b) ≡ true
&&-true h k = ground arith

-- What holds of both branches holds of the conditional.
pub if_both {ℓ m} :
    {A : Type ℓ} (P : A → Type m) (b : Bool) {x y : A} → P x → P y → P (if b then x else y)
if_both P true p q = p
if_both P false p q = q
