-- ===== src/TilePath/Hash.antt =====
-- src/store_file_utils.c: the directory hash interleaves the low twenty bits of both coordinates.
use mod_tile.Base.{
  ℕ, zero, suc, ◌+◌, ◌*◌, ◌^◌, ◌<◌, ◌≡◌, ◌∙◌, ℤ, pos, false, List, [], ◌∷◌, some, arith, ltb,
}
use mathlib.Core.Path.{ap₂}
use mod_tile.TilePath.{hash_at, shr4, unhash}

-- The components in the order of the path.
abbrev pub hashes : ℕ → ℕ → List ℤ
hashes x y = h 4 ∷ h 3 ∷ h 2 ∷ h 1 ∷ h 0 ∷ []
  where
    h : ℕ → ℤ
    h i = pos (hash_at i (pos x) (pos y))

-- Every component fits one byte, whatever the coordinates.
pub hash_at-lt : (i : ℕ) (x y : ℤ) → hash_at i x y < 256
unfolding hash_at
hash_at-lt zero x y = ground arith
hash_at-lt (suc i) x y = hash_at-lt i (shr4 x) (shr4 y)

unhash_pair :
    (x y a b : ℕ) (hs : List ℤ)
    → a < 16
    → b < 16
    → unhash x y (pos (a * 16 + b) ∷ hs) ≡ unhash (x * 16 + a) (y * 16 + b) hs
unfolding unhash
unhash_pair x y a b hs ha hb = rw in_range (ap₂ (λ s t. unhash s t hs) (omega arith) (omega arith))
  where
    in_range : ltb 255 (a * 16 + b) ≡ false
    in_range = ground arith

unhash_done : (x y a b : ℕ) → x ≡ a → y ≡ b → unhash x y [] ≡ some (a, b)
unfolding unhash
unhash_done x y a b e f = ground arith

-- Both coordinates come back from the components.
pub unhash-hashes : (x y : ℕ) → x < 2 ^ 20 → y < 2 ^ 20 → unhash 0 0 (hashes x y) ≡ some (x, y)
unfolding hash_at shr4
unhash-hashes x y hx hy =
    unhash_pair 0 0 _ _ _ (omega arith) (omega arith)
    ∙ unhash_pair _ _ _ _ _ (omega arith) (omega arith)
    ∙ unhash_pair _ _ _ _ _ (omega arith) (omega arith)
    ∙ unhash_pair _ _ _ _ _ (omega arith) (omega arith)
    ∙ unhash_pair _ _ _ _ _ (omega arith) (omega arith)
    ∙ unhash_done _ _ x y (omega arith) (omega arith)
