-- ===== src/TilePath.antt =====
-- src/store_file_utils.c: the names of the metatile files, on which mod_tile and renderd must agree.
-- Text is the list of its bytes. The build defines DIRECTORY_HASH (includes/render_config.h), so the
-- other branch of each function is not in the program.
pub mod Scan
pub mod Decimal
pub mod Hash
pub mod RoundTrip
mod Tests
use mod_tile.Base.{
  ℕ, suc, zero, ◌+◌, ◌-◌, ◌*◌, ◌/◌, ◌%◌, ◌^◌, ℤ, pos, negsuc, residue, ltb_ℤ, Bool, true, false,
  ◌||◌, List, [], ◌∷◌, ◌++◌, Option, none, some, ltb, ◌==◌, if◌then◌else◌, take,
}
use Scan.{Scanned, strip_prefix, scan_path}

abbrev pub metatile : ℕ
metatile = 8

abbrev pub max_zoom : ℕ
max_zoom = 20

-- `%u` of `printf`. The number itself is fuel enough, since a tenth of it is smaller.
digits_fuel : ℕ → ℕ → List ℕ
digits_fuel zero n = (48 + n % 10) ∷ []
digits_fuel (suc f) n =
    let more = digits_fuel f (n / 10) ++ (48 + n % 10) ∷ [] in
    if ltb n 10 then (48 + n) ∷ [] else more

unfoldable pub decimal : ℕ → List ℕ
unfolding digits_fuel
decimal n = digits_fuel n n

-- `%d` of `printf`
unfoldable pub decimal_ℤ : ℤ → List ℕ
decimal_ℤ (pos n) = decimal n
decimal_ℤ (negsuc n) = b'-' ∷ decimal (suc n)

-- `check_xyz`: whether a tile is out of bounds
unfoldable pub check_xyz : ℤ → ℤ → ℤ → Bool
check_xyz x y (negsuc z) = true
check_xyz x y (pos z) =
    if ltb max_zoom z
    then true
    else ltb_ℤ x (pos 0) || ltb_ℤ limit x || ltb_ℤ y (pos 0) || ltb_ℤ limit y
  where
    limit : ℤ
    limit = pos (2 ^ z - 1)

-- `x &= ~mask` and `x >>= 4` on an `int`
unfoldable pub clear_low : ℤ → ℤ
clear_low (pos n) = pos (n / 8 * 8)
clear_low (negsuc n) = negsuc (n / 8 * 8 + 7)

shr4 : ℤ → ℤ
shr4 (pos n) = pos (n / 16)
shr4 (negsuc n) = negsuc (n / 16)

-- `hash[i]`, from the coordinates as they are after i rounds of the loop.
pub hash_at : ℕ → ℤ → ℤ → ℕ
unfolding shr4
hash_at zero x y = residue x 16 * 16 + residue y 16
hash_at (suc i) x y = hash_at i (shr4 x) (shr4 y)

-- A component behind its slash, and the rest of the path.
abbrev pub slash : List ℕ → List ℕ → List ℕ
slash part rest = b'/' ∷ (part ++ rest)

abbrev pub meta_suffix : List ℕ → List ℕ
meta_suffix [] = b'.' ∷ b'm' ∷ b'e' ∷ b't' ∷ b'a' ∷ []
meta_suffix (o ∷ os) = b'.' ∷ ((o ∷ os) ++ b'.' ∷ b'm' ∷ b'e' ∷ b't' ∷ b'a' ∷ [])

-- The whole text that `snprintf` is given, for the coordinates of the tile at (0,0) of a metatile.
unfoldable pub meta_path : List ℕ → List ℕ → List ℕ → ℤ → ℤ → ℤ → List ℕ
unfolding hash_at decimal_ℤ
meta_path tile_dir xmlconfig options x y z =
    tile_dir ++ slash xmlconfig (slash (decimal_ℤ z) hashes)
  where
    part : ℕ → List ℕ → List ℕ
    part i = slash (decimal (hash_at i x y))

    hashes : List ℕ
    hashes = part 4 (part 3 (part 2 (part 1 (part 0 (meta_suffix options)))))

-- `xyzo_to_meta`: the offset within the metatile, and the path as far as it fits into `len` bytes.
unfoldable pub xyzo_to_meta : ℕ → List ℕ → List ℕ → List ℕ → ℤ → ℤ → ℤ → ℕ × List ℕ
unfolding meta_path clear_low
xyzo_to_meta len tile_dir xmlconfig options x y z = (
  residue x metatile * metatile + residue y metatile,
  take (len - 1) (meta_path tile_dir xmlconfig options (clear_low x) (clear_low y) z),
)

-- `xyz_to_meta`
unfoldable pub xyz_to_meta : ℕ → List ℕ → List ℕ → ℤ → ℤ → ℤ → ℕ × List ℕ
unfolding xyzo_to_meta
xyz_to_meta len tile_dir xmlconfig x y z = xyzo_to_meta len tile_dir xmlconfig [] x y z

-- The digits of both coordinates that the hash components hold; `none` is a component out of range.
pub unhash : ℕ → ℕ → List ℤ → Option (ℕ × ℕ)
unhash x y [] = some (x, y)
unhash x y (negsuc h ∷ hs) = none
unhash x y (pos h ∷ hs) =
    let rest = unhash (x * 16 + h / 16) (y * 16 + h % 16) hs in if ltb 255 h then none else rest

-- What `path_to_xyz` stores through its pointers when it gets that far.
pub record TileId : Type 0 where
  pub xmlconfig : List ℕ
  pub x : ℤ
  pub y : ℤ
  pub z : ℤ

-- The status 0 is success. A call that fails before all parts are read may leave a part of the
-- outputs behind, which is not kept here.
pub check_tile : TileId → ℕ × Option TileId
unfolding check_xyz
check_tile t = (if check_xyz t.x t.y t.z then 1 else 0, some t)

pub read_hash : List ℕ → ℤ → Option (ℕ × ℕ) → ℕ × Option TileId
unfolding check_tile
read_hash xmlconfig z none = (2, none)
read_hash xmlconfig z (some (x, y)) =
    check_tile (record { xmlconfig = xmlconfig; x = pos x; y = pos y; z = z })

pub read_parts : Option Scanned → ℕ × Option TileId
unfolding read_hash unhash
read_parts none = (1, none)
read_parts (some s) = read_hash s.xmlconfig s.z (unhash 0 0 s.hash)

pub read_rest : Option (List ℕ) → ℕ × Option TileId
unfolding read_parts
read_rest none = (1, none)
read_rest (some rest) = read_parts (scan_path rest)

unfoldable pub path_to_xyz : List ℕ → List ℕ → ℕ × Option TileId
unfolding read_rest strip_prefix
path_to_xyz tilepath path = read_rest (strip_prefix tilepath path)
