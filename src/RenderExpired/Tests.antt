-- ===== src/RenderExpired/Tests.antt =====
-- A run of the expiry over a short list of tiles.
use mod_tile.Base.{◌*◌, ◌≡◌, refl, pos, negsuc, true, List, [], ◌∷◌, none, some, arith}
use mod_tile.RenderExpired.{
  ExpireConf, TileStat, Line, tile, invalid, read_lines, at_max_zoom, tile_key, no_tiles,
  metatile_delete, enqueue, raised_min_zoom,
}
use mod_tile.RenderExpired.Requested.{all_lines, AllSmall, read_lines-all_lines}

-- Zooms 4 to 6; what is at zoom 6 or more is deleted.
abbrev conf : ExpireConf
conf = record { min_zoom = 4; max_zoom = 6; delete_from = some 6; touch_from = none }

abbrev all_there : TileStat
all_there = λ done z x y. true

-- The second tile lies in the metatile of the first one, and the third one in that above.
abbrev input : List Line
input =
    tile (pos 6) (pos 40) (pos 33)
    ∷ invalid
    ∷ tile (pos 7) (pos 82) (pos 66)
    ∷ tile (pos 5) (pos 16) (pos 17)
    ∷ []

run :
    (read_lines conf all_there input no_tiles).actions
    ≡ metatile_delete 6 (pos 32) (pos 34)
      ∷ enqueue 4 (pos 10) (pos 8)
      ∷ enqueue 5 (pos 20) (pos 16)
      ∷ metatile_delete 6 (pos 40) (pos 33)
      ∷ []
unfolding read_lines
run = refl

-- -9 >> 3 is -2, whose low 24 bits are 2^24 - 2.
key_of_negative : tile_key 0 (negsuc 1) (pos 0) ≡ 16777214 * 16777216
unfolding tile_key
key_of_negative = refl

raised : raised_min_zoom 0 ≡ 3
unfolding raised_min_zoom
raised = refl

input_small : AllSmall conf input
unfolding at_max_zoom
input_small = omega arith

read_lines-all_lines_example :
    read_lines conf all_there input no_tiles ≡ all_lines conf all_there input no_tiles
read_lines-all_lines_example = read_lines-all_lines conf all_there input (omega arith) input_small
