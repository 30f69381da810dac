-- ===== src/TileTranslate/Tests.antt =====
-- Runs of `tile_translate` with simple functions for those of the APR library.
use native.Mathlib.Nat.{pow-le-pow_right}
use mod_tile.Base.{
  ◌<◌, negsuc, ◌^◌, ◌≤◌, ℕ, ◌-◌, ◌≡◌, refl, ℤ, pos, Bool, true, false, List, [], ◌∷◌, ◌++◌, none,
  some, take, ◌==◌, if◌then◌else◌, arith,
}
use mod_tile.Protocol.{Protocol, cmd_ignore}
use mod_tile.GenTile.Projection.{is_prefix}
use mod_tile.TilePath.Scan.{scan_int, scan_signed, scan_unsigned, scan_digits}
use mod_tile.TileTranslate.{
  TileConfig, Apr, tile_serve, accepted, Parts, to_int, split_dot, get_extension, safe_parse_int,
  read_parts, parse_path, in_bounds, handler_of, tile_request, translate_parts, translate_layer,
  translate_layers, tile_translate,
}
use mod_tile.TileTranslate.Served.{tile_translate-accepted}
use mod_tile.TileTranslate.Accepts.{
  first_layer, no_part, FitsInt, AcceptsFrom, IsRequest, rest_of, tile_translate-AcceptsFrom,
}

-- The pieces between slashes, the empty ones left out
abbrev flush : List ℕ → List (List ℕ) → List (List ℕ)
flush [] more = more
flush (c ∷ cs) more = (c ∷ cs) ∷ more

abbrev pieces : List ℕ → List ℕ → List (List ℕ)
pieces [] held = flush held []
pieces (c ∷ s) held =
    let next = pieces s [] in
    let longer = pieces s (held ++ c ∷ []) in if c == b'/' then flush held next else longer

abbrev integer : List ℕ → ℤ × List ℕ
integer s = elim (scan_int s) [ none ↦ (pos 0, s) | some r ↦ r ]

abbrev apr : Apr
apr = record { strtok = λ s. pieces s []; strtoi64 = integer; cpystrn = λ s n. take (n - 1) s }

abbrev osm : TileConfig
osm = record {
  baseuri = b'/' ∷ b'o' ∷ b'/' ∷ [];
  xmlname = b'o' ∷ b's' ∷ b'm' ∷ [];
  file_extension = b'p' ∷ b'n' ∷ b'g' ∷ [];
  mime_type = [];
  enable_options = false;
  minzoom = pos 0;
  maxzoom = pos 20;
  aspect_x = 1;
  aspect_y = 1;
}

-- "/o/4/8/9.png"
abbrev uri : List ℕ
uri = b'/' ∷ b'o' ∷ b'/' ∷ b'4' ∷ b'/' ∷ b'8' ∷ b'/' ∷ b'9' ∷ b'.' ∷ b'p' ∷ b'n' ∷ b'g' ∷ []

abbrev parts : Parts
parts = record {
  ver = pos 2;
  parameters = [];
  z = pos 4;
  x = pos 8;
  y = pos 9;
  extension = osm.file_extension;
  others = [];
}

abbrev request : Protocol
request = record {
  ver = pos 2;
  cmd = cmd_ignore;
  x = pos 8;
  y = pos 9;
  z = pos 4;
  xmlname = osm.xmlname;
  mimetype = [];
  options = [];
}

abbrev stores : ℕ → Bool
stores i = true

is_request : IsRequest apr [] true osm (rest_of apr [] uri stores osm) tile_serve request
unfolding parse_path read_parts get_extension split_dot safe_parse_int to_int scan_int scan_signed
    scan_unsigned scan_digits handler_of tile_request
is_request = record {
  parts = parts;
  parsed = refl;
  extension = refl;
  bounds = omega arith;
  opened = refl;
  handler = no_part;
  content = refl;
}

-- There are at most 2 ^ 20 tiles on an axis of the layer.
osm-FitsInt : FitsInt osm
osm-FitsInt (pos z) low high =
    let two : 0 < 2 = omega arith in
    let most : z ≤ 20 = omega (arith, high) in
    let few : 2 ^ z ≤ 2 ^ 20 = pow-le-pow_right two most in (omega (arith, few), omega (arith, few))
osm-FitsInt (negsuc z) low high = (omega arith, omega arith)

tile_translate-accepted_example :
    tile_translate apr [] stores (osm ∷ []) uri ≡ accepted tile_serve 0 request
unfolding is_prefix
tile_translate-accepted_example =
    tile_translate-accepted apr [] uri stores osm osm-FitsInt tile_serve request 0 (osm ∷ []) refl
      refl (first_layer refl refl) refl is_request

tile_translate-AcceptsFrom_example :
    AcceptsFrom apr [] uri stores 0 (osm ∷ []) (tile_translate apr [] stores (osm ∷ []) uri)
tile_translate-AcceptsFrom_example =
    tile_translate-AcceptsFrom apr [] uri stores (osm ∷ []) (osm-FitsInt, tt)

-- A number that does not fit is cut off: this URL, "/o/0/4294967296/0.png", is served as 0/0/0.
abbrev far : List ℕ
far =
    b'/' ∷ b'o' ∷ b'/' ∷ b'0' ∷ b'/' ∷ b'4' ∷ b'2' ∷ b'9' ∷ b'4' ∷ b'9' ∷ b'6' ∷ b'7' ∷ b'2' ∷ b'9'
    ∷ b'6' ∷ b'/' ∷ b'0' ∷ b'.' ∷ b'p' ∷ b'n' ∷ b'g' ∷ []

far_served :
    tile_translate apr [] stores (osm ∷ []) far
    ≡ accepted tile_serve 0 (record request { x = pos 0; y = pos 0; z = pos 0 })
unfolding tile_translate translate_layers translate_layer translate_parts is_prefix parse_path
    read_parts get_extension split_dot safe_parse_int to_int scan_int scan_signed scan_unsigned
    scan_digits handler_of tile_request in_bounds
far_served = refl
