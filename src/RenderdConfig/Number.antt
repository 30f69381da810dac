-- ===== src/RenderdConfig/Number.antt =====
-- `strtol` of the C library in base 10, and its result in an `int`.
use mod_tile.Base.{ℕ, ◌-◌, ◌^◌, ℤ, pos, negsuc, List, Option, none, some, ltb, if◌then◌else◌}
use mod_tile.TilePath.Scan.{scan_int}
use mod_tile.TileTranslate.{to_int}

-- The number at the start of a text is cut off at the greatest and least `long`, and then to 32 bits.
unfoldable pub strtol : List ℕ → Option ℤ
unfolding to_int
strtol s = elim (scan_int s) [
  | none ↦ none
  | some (pos n, rest) ↦ some (to_int (pos (if ltb n (2 ^ 63) then n else 2 ^ 63 - 1)))
  | some (negsuc n, rest) ↦ some (to_int (negsuc (if ltb n (2 ^ 63) then n else 2 ^ 63 - 1)))
]
