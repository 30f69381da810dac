-- ===== src/TilePath/Tests.antt =====
-- The paths of some tiles, and the theorems at concrete tiles.
use mod_tile.Base.{ℕ, ◌≡◌, refl, pos, negsuc, List, [], ◌∷◌, ◌++◌, none, some, arith, true, false}
use mod_tile.TilePath.{decimal, xyzo_to_meta, path_to_xyz, meta_path, check_xyz}
use mod_tile.TilePath.RoundTrip.{IsStorable, path_to_xyz-xyzo_to_meta}

abbrev osm : List ℕ
osm = b'o' ∷ b's' ∷ b'm' ∷ []

abbrev tile_dir : List ℕ
tile_dir = b'/' ∷ b't' ∷ []

-- Tile 12/2052/1361: /t/osm/12/0/0/133/5/0.meta, offset 33
abbrev path_12 : List ℕ
path_12 =
    tile_dir
    ++ b'/' ∷ osm
    ++ b'/' ∷ b'1' ∷ b'2' ∷ b'/' ∷ b'0' ∷ b'/' ∷ b'0' ∷ b'/' ∷ b'1' ∷ b'3' ∷ b'3' ∷ b'/' ∷ b'5'
      ∷ b'/' ∷ b'0' ∷ b'.' ∷ b'm' ∷ b'e' ∷ b't' ∷ b'a' ∷ []

path_of_12 : xyzo_to_meta 4096 tile_dir osm [] (pos 2052) (pos 1361) (pos 12) ≡ (33, path_12)
unfolding xyzo_to_meta decimal
path_of_12 = refl

-- A component of the hash that is out of range, and a prefix that does not match
refused :
    (path_to_xyz tile_dir (b'/' ∷ b'u' ∷ []) ≡ (1, none))
    × (check_xyz (pos 4) (pos 0) (pos 2) ≡ true)
    × (check_xyz (negsuc 0) (pos 0) (pos 2) ≡ true)
    × (check_xyz (pos 3) (pos 0) (pos 2) ≡ false)
unfolding path_to_xyz check_xyz
refused = (refl, refl, refl, refl)

storable : IsStorable 4096 tile_dir osm [] 2052 1361 12
unfolding meta_path decimal
storable = record {
  named = refl;
  some_name = omega arith;
  short = omega arith;
  zoom = omega arith;
  column = omega arith;
  row = omega arith;
  fits = omega arith;
}

path_to_xyz-xyzo_to_meta_example :
    path_to_xyz tile_dir (xyzo_to_meta 4096 tile_dir osm [] (pos 2052) (pos 1361) (pos 12)).1
    ≡ (0, some (record { xmlconfig = osm; x = pos 2048; y = pos 1360; z = pos 12 }))
path_to_xyz-xyzo_to_meta_example =
    path_to_xyz-xyzo_to_meta 4096 tile_dir osm [] 2052 1361 12 storable
