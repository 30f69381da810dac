-- ===== src/TilePath/RoundTrip.antt =====
-- src/store_file_utils.c: the path of a tile's metatile leads back to that metatile.
use native.Mathlib.Nat.{pow-le-pow_right}
use mod_tile.Base.{
  sym, map, ℕ, zero, suc, ◌+◌, ◌-◌, ◌*◌, ◌/◌, ◌%◌, ◌^◌, ◌≤◌, ◌<◌, ◌≡◌, refl, ◌∙◌, ap, pos, Bool,
  true, false, List, [], ◌∷◌, ◌++◌, Option, some, arith, ◌==◌, ◌&&◌, not, length, take,
}
use mod_tile.TilePath.{
  TileId, max_zoom, hash_at, decimal, meta_path, meta_suffix, slash, xyzo_to_meta, path_to_xyz,
  check_xyz, check_tile, read_hash, read_parts, read_rest,
}
use mod_tile.TilePath.Scan.{
  name_or_none, scan_char, scan_until_slash, scan_name, scan_ints, scan_path, strip_prefix,
}
use mod_tile.TilePath.Decimal.{stops, scan_int-decimal}
use mod_tile.TilePath.Hash.{hashes, unhash-hashes}

-- A component of a path
abbrev pub no_slash : List ℕ → Bool
no_slash [] = true
no_slash (c ∷ s) = not (c == b'/') && no_slash s

strip-append : (p s : List ℕ) → strip_prefix p (p ++ s) ≡ some s
unfolding strip_prefix
strip-append [] s = refl
strip-append (c ∷ p) s = ground (arith, strip-append p s)

until_slash :
    (width : ℕ) (name s : List ℕ)
    → no_slash name ≡ true
    → length name ≤ width
    → scan_until_slash width (name ++ b'/' ∷ s) ≡ (name, b'/' ∷ s)
unfolding scan_until_slash
until_slash zero [] s h l = refl
until_slash (suc w) [] s h l = refl
until_slash zero (c ∷ name) s h l = absurd (omega arith)
until_slash (suc w) (c ∷ name) s h l = ground (arith, until_slash w name s)

scan_name_lem :
    (name s : List ℕ)
    → no_slash name ≡ true
    → 0 < length name
    → length name ≤ 40
    → scan_name (name ++ b'/' ∷ s) ≡ some (name, b'/' ∷ s)
unfolding scan_name
scan_name_lem [] s h p l = absurd (omega arith)
scan_name_lem (c ∷ name) s h p l = ap name_or_none (until_slash 40 (c ∷ name) s h l)

take_all : (n : ℕ) (s : List ℕ) → length s ≤ n → take n s ≡ s
take_all zero [] h = refl
take_all zero (c ∷ s) h = absurd (omega arith)
take_all (suc n) [] h = refl
take_all (suc n) (c ∷ s) h = ap (◌∷◌ c) (take_all n s (omega arith))

-- A run of printed components is scanned back.
abbrev components : List ℕ → List ℕ → List ℕ
components [] rest = rest
components (n ∷ ns) rest = slash (decimal n) (components ns rest)

components-stops : (ns rest : List ℕ) → stops rest ≡ true → stops (components ns rest) ≡ true
components-stops [] rest h = h
components-stops (n ∷ ns) rest h = refl

scan_components :
    (ns rest : List ℕ)
    → stops rest ≡ true
    → scan_ints (length ns) (components ns rest) ≡ some (map pos ns)
unfolding scan_ints scan_char
scan_components [] rest h = refl
scan_components (n ∷ ns) rest h = rw (
  scan_int-decimal n (components ns rest) (components-stops ns rest h),
  scan_components ns rest h,
)

-- What the tile's path is scanned into.
module _ (xmlconfig options : List ℕ) (x y z : ℕ) (named : no_slash xmlconfig ≡ true)
    (some_name : 0 < length xmlconfig) (short : length xmlconfig ≤ 40) where
  abbrev tail_path : List ℕ
  tail_path = slash xmlconfig (
      components
        (z
          ∷ hash_at 4 (pos x) (pos y)
          ∷ hash_at 3 (pos x) (pos y)
          ∷ hash_at 2 (pos x) (pos y)
          ∷ hash_at 1 (pos x) (pos y)
          ∷ hash_at 0 (pos x) (pos y)
          ∷ [])
        (meta_suffix options))

  suffix_stops : (o : List ℕ) → stops (meta_suffix o) ≡ true
  suffix_stops [] = refl
  suffix_stops (c ∷ o) = refl

  scan_tail :
      scan_path tail_path ≡ some (record { xmlconfig = xmlconfig; z = pos z; hash = hashes x y })
  unfolding scan_path scan_char
  scan_tail = rw (scan_name_lem xmlconfig _ named some_name short) (
      rw (
        scan_int-decimal z _ refl,
        scan_components
            (hash_at 4 (pos x) (pos y)
              ∷ hash_at 3 (pos x) (pos y)
              ∷ hash_at 2 (pos x) (pos y)
              ∷ hash_at 1 (pos x) (pos y)
              ∷ hash_at 0 (pos x) (pos y)
              ∷ [])
            (meta_suffix options) (suffix_stops options),
      ))

-- The tile at (0,0) of the metatile of a valid tile is valid.
check_corner :
    (x y z : ℕ)
    → z ≤ max_zoom
    → x < 2 ^ z
    → y < 2 ^ z
    → check_xyz (pos (x / 8 * 8)) (pos (y / 8 * 8)) (pos z) ≡ false
unfolding check_xyz
check_corner x y z hz hx hy = ground arith

below_20 : (x z : ℕ) → z ≤ max_zoom → x < 2 ^ z → x < 2 ^ 20
below_20 x z hz hx = omega (arith, pow-le-pow_right {n = 2} (omega arith) {i = z} {j = 20} hz)

read_meta_path :
    (tile_dir xmlconfig options : List ℕ) (x y z : ℕ)
    → no_slash xmlconfig ≡ true
    → 0 < length xmlconfig
    → length xmlconfig ≤ 40
    → x < 2 ^ 20
    → y < 2 ^ 20
    → check_xyz (pos x) (pos y) (pos z) ≡ false
    → path_to_xyz tile_dir (meta_path tile_dir xmlconfig options (pos x) (pos y) (pos z))
      ≡ (0, some (record { xmlconfig = xmlconfig; x = pos x; y = pos y; z = pos z }))
unfolding path_to_xyz check_tile meta_path
read_meta_path tile_dir xmlconfig options x y z named some_name short hx hy inside =
    ap read_rest (strip-append tile_dir (tail_path xmlconfig options x y z named some_name short))
    ∙ ap read_parts (scan_tail xmlconfig options x y z named some_name short)
    ∙ ap (read_hash xmlconfig (pos z)) (unhash-hashes x y hx hy)
    ∙ rw inside

-- A tile within the bounds, under a style name that is one component of a path, where the path of
-- the metatile fits the buffer of `len` bytes.
pub record IsStorable (len : ℕ) (tile_dir xmlconfig options : List ℕ) (x y z : ℕ) : Type 0 where
  pub named : no_slash xmlconfig ≡ true
  pub some_name : 0 < length xmlconfig
  pub short : length xmlconfig ≤ 40
  pub zoom : z ≤ max_zoom
  pub column : x < 2 ^ z
  pub row : y < 2 ^ z
  pub fits :
      length (meta_path tile_dir xmlconfig options (pos (x / 8 * 8)) (pos (y / 8 * 8)) (pos z))
      < len

-- The path that `xyzo_to_meta` makes for a storable tile is accepted by `path_to_xyz`, with the same
-- style and zoom, and with the coordinates of the first tile of the metatile.
pub path_to_xyz-xyzo_to_meta :
    (len : ℕ) (tile_dir xmlconfig options : List ℕ) (x y z : ℕ)
    → IsStorable len tile_dir xmlconfig options x y z
    → path_to_xyz tile_dir (xyzo_to_meta len tile_dir xmlconfig options (pos x) (pos y) (pos z)).1
      ≡ (
        0,
        some
            (record { xmlconfig = xmlconfig; x = pos (x / 8 * 8); y = pos (y / 8 * 8); z = pos z }),
      )
unfolding xyzo_to_meta
path_to_xyz-xyzo_to_meta len tile_dir xmlconfig options x y z s =
    rw
      (take_all (len - 1)
        (meta_path tile_dir xmlconfig options (pos (x / 8 * 8)) (pos (y / 8 * 8)) (pos z))
        (omega arith))
      (read_meta_path tile_dir xmlconfig options (x / 8 * 8) (y / 8 * 8) z s.named s.some_name
        s.short (below_20 (x / 8 * 8) z s.zoom (omega arith))
        (below_20 (y / 8 * 8) z s.zoom (omega arith)) (check_corner x y z s.zoom s.column s.row))

same_id :
    (xmlconfig xmlconfig' : List ℕ) (x y z x' y' z' : ℕ)
    → ◌≡◌ {A = ℕ × Option TileId}
        (0, some (record { xmlconfig = xmlconfig; x = pos x; y = pos y; z = pos z }))
        (0, some (record { xmlconfig = xmlconfig'; x = pos x'; y = pos y'; z = pos z' }))
    → (xmlconfig ≡ xmlconfig') × (x ≡ x') × (y ≡ y') × (z ≡ z')
same_id xmlconfig xmlconfig' x y z x' y' z' e = ground arith

-- No two storable tiles of one store have the same offset in the same metatile file.
pub xyzo_to_meta-injective :
    (len : ℕ) (tile_dir xmlconfig options xmlconfig' options' : List ℕ) (x y z x' y' z' : ℕ)
    → IsStorable len tile_dir xmlconfig options x y z
    → IsStorable len tile_dir xmlconfig' options' x' y' z'
    → xyzo_to_meta len tile_dir xmlconfig options (pos x) (pos y) (pos z)
      ≡ xyzo_to_meta len tile_dir xmlconfig' options' (pos x') (pos y') (pos z')
    → (xmlconfig ≡ xmlconfig') × (x ≡ x') × (y ≡ y') × (z ≡ z')
unfolding xyzo_to_meta
xyzo_to_meta-injective len tile_dir xmlconfig options xmlconfig' options' x y z x' y' z' s t e =
    let (a, b, c, d) =
      same_id xmlconfig xmlconfig' (x / 8 * 8) (y / 8 * 8) z (x' / 8 * 8) (y' / 8 * 8) z' (
        sym (path_to_xyz-xyzo_to_meta len tile_dir xmlconfig options x y z s)
        ∙ ap (λ r. path_to_xyz tile_dir r.1) e
        ∙ path_to_xyz-xyzo_to_meta len tile_dir xmlconfig' options' x' y' z' t) in
    let offsets : x % 8 * 8 + y % 8 ≡ x' % 8 * 8 + y' % 8 = ap (λ r. r.0) e in
    (a, omega arith, omega arith, d)
