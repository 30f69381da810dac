-- ===== src/TileTranslate.antt =====
-- src/mod_tile.c, `tile_translate`: which handler of the Apache module a URL goes to, and the request
-- for renderd that it stands for. The functions of the APR library are parameters. The counter
-- for a store that cannot be opened, and the pause after a request out of bounds, are left out.
pub mod Accepts
pub mod Served
mod Tests
use mod_tile.Base.{
  ℕ, suc, ◌+◌, ◌-◌, ◌*◌, ◌^◌, ◌%◌, ℤ, pos, negsuc, pos_part, residue, ltb_ℤ, ◌-ℤ◌, diff, Bool, true,
  false, not, ◌&&◌, ◌||◌, List, [], ◌∷◌, Option, none, some, ◌==◌, ltb, leb, if◌then◌else◌, eq_list,
  length, drop,
}
use mod_tile.Protocol.{Protocol, cmd_ignore}
use mod_tile.GenTile.Projection.{is_prefix}
use mod_tile.TilePath.Scan.{◌>>=◌}

-- What the module reads of a layer, `tile_config_rec`.
pub record TileConfig : Type 0 where
  pub baseuri : List ℕ
  pub xmlname : List ℕ
  pub file_extension : List ℕ
  pub mime_type : List ℕ
  pub enable_options : Bool
  pub minzoom : ℤ
  pub maxzoom : ℤ
  pub aspect_x : ℕ
  pub aspect_y : ℕ

-- APR: `apr_strtok` by slashes, `apr_strtoi64` in base 10 with the rest behind the number,
-- `apr_cpystrn` as the text that the buffer of a size holds afterwards.
pub record Apr : Type 0 where
  pub strtok : List ℕ → List (List ℕ)
  pub strtoi64 : List ℕ → ℤ × List ℕ
  pub cpystrn : List ℕ → ℕ → List ℕ

-- The handlers of a request that is for a tile of a layer
pub data TileHandler : Type 0 where
  tile_serve tile_status tile_dirty : TileHandler

pub data Translation : Type 0 where
  declined not_found internal_server_error tile_mod_stats tile_metrics : Translation
  tile_json : ℕ → Translation
  accepted : TileHandler → ℕ → Protocol → Translation

-- The conversion to `int`
unfoldable pub to_int : ℤ → ℤ
to_int n =
    if ltb (residue n (2 ^ 32)) (2 ^ 31)
    then pos (residue n (2 ^ 32))
    else diff (residue n (2 ^ 32)) (2 ^ 32)

unfoldable pub safe_parse_int : Apr → List ℕ → Option ℤ
unfolding to_int
safe_parse_int apr [] = none
safe_parse_int apr (c ∷ s) =
    let (n, rest) = apr.strtoi64 (c ∷ s) in if length rest == 0 then some (to_int n) else none

-- The text before the last dot and the text behind it
unfoldable pub split_dot : List ℕ → Option (List ℕ × List ℕ)
split_dot [] = none
split_dot (c ∷ s) =
    let rest = split_dot s in
    elim rest [
      | some (before, behind) ↦ some (c ∷ before, behind)
      | none ↦ if c == b'.' then some ([], s) else none
    ]

-- `get_extension`: the name without its extension, and the extension; without a dot the buffer keeps
-- what it held.
unfoldable pub get_extension : Apr → List ℕ → List ℕ → List ℕ × List ℕ
unfolding split_dot
get_extension apr held y = elim (split_dot y) [
  | none ↦ (y, held)
  | some (before, behind) ↦ (before, apr.cpystrn behind 256)
]

-- The parts of the path that name a tile
pub record Parts : Type 0 where
  pub ver : ℤ
  pub parameters : List ℕ
  pub z : ℤ
  pub x : ℤ
  pub y : ℤ
  pub extension : List ℕ
  pub others : List (List ℕ)

abbrev pub xmlconfig_size : ℕ
xmlconfig_size = 41

-- The coordinates, and the parts behind them
unfoldable pub read_parts :
    Apr → List ℕ → ℤ → List ℕ → List ℕ → List ℕ → List ℕ → List (List ℕ) → Option Parts
unfolding safe_parse_int get_extension
read_parts apr held ver parameters z x y more =
    let (name, extension) = get_extension apr held y in
    safe_parse_int apr z >>= λ nz. safe_parse_int apr x >>= λ nx. safe_parse_int apr name >>= λ ny.
    some (record {
      ver = ver;
      parameters = parameters;
      z = nz;
      x = nx;
      y = ny;
      extension = extension;
      others = more;
    })

unfoldable pub parse_path : Apr → List ℕ → Bool → List (List ℕ) → Option Parts
unfolding read_parts
parse_path apr held true (parameters ∷ z ∷ x ∷ y ∷ more) =
    read_parts apr held (pos 3) (apr.cpystrn parameters xmlconfig_size) z x y more
parse_path apr held false (z ∷ x ∷ y ∷ more) = read_parts apr held (pos 2) [] z x y more
parse_path apr held _ _ = none

-- "tile-layer.json", "/mod_tile", "/metrics", "status" and "dirty"
abbrev pub tile_layer_json : List ℕ
tile_layer_json =
    b't' ∷ b'i' ∷ b'l' ∷ b'e' ∷ b'-' ∷ b'l' ∷ b'a' ∷ b'y' ∷ b'e' ∷ b'r' ∷ b'.' ∷ b'j' ∷ b's' ∷ b'o'
    ∷ b'n' ∷ []

abbrev pub mod_tile_uri : List ℕ
mod_tile_uri = b'/' ∷ b'm' ∷ b'o' ∷ b'd' ∷ b'_' ∷ b't' ∷ b'i' ∷ b'l' ∷ b'e' ∷ []

abbrev pub metrics_uri : List ℕ
metrics_uri = b'/' ∷ b'm' ∷ b'e' ∷ b't' ∷ b'r' ∷ b'i' ∷ b'c' ∷ b's' ∷ []

abbrev pub status_option : List ℕ
status_option = b's' ∷ b't' ∷ b'a' ∷ b't' ∷ b'u' ∷ b's' ∷ []

abbrev pub dirty_option : List ℕ
dirty_option = b'd' ∷ b'i' ∷ b'r' ∷ b't' ∷ b'y' ∷ []

-- The zooms of a layer are from 0 to 30, so the shift is defined; the product with the aspect is cut off to
-- an `int`, as far as the program's behaviour is defined at all.
unfoldable pub in_bounds : TileConfig → ℤ → ℤ → ℤ → Bool
unfolding to_int
in_bounds c x y z =
    not (ltb_ℤ z c.minzoom || ltb_ℤ c.maxzoom z)
    && not (
        ltb_ℤ x (pos 0)
        || ltb_ℤ (to_int (pos (2 ^ pos_part z * c.aspect_x)) -ℤ pos 1) x
        || ltb_ℤ y (pos 0)
        || ltb_ℤ (to_int (pos (2 ^ pos_part z * c.aspect_y)) -ℤ pos 1) y)

-- The handler that the part behind the tile's name asks for; where there are more parts they are not
-- looked at.
unfoldable pub handler_of : Apr → List (List ℕ) → Option TileHandler
handler_of apr (o ∷ []) =
    if eq_list (apr.cpystrn o 11) status_option
    then some tile_status
    else if eq_list (apr.cpystrn o 11) dirty_option
    then some tile_dirty
    else none
handler_of apr _ = some tile_serve

unfoldable pub tile_request : Apr → TileConfig → Parts → Protocol
tile_request apr c p = record {
  ver = p.ver;
  cmd = cmd_ignore;
  x = p.x;
  y = p.y;
  z = p.z;
  xmlname = apr.cpystrn c.xmlname xmlconfig_size;
  mimetype = apr.cpystrn c.mime_type xmlconfig_size;
  options = apr.cpystrn p.parameters xmlconfig_size;
}

-- What becomes of the parts of a path; `store` tells whether the layer has a store with a context.
unfoldable pub translate_parts : Apr → Bool → TileConfig → ℕ → Parts → Translation
unfolding in_bounds handler_of tile_request
translate_parts apr store c i p =
    if not (eq_list p.extension c.file_extension)
    then declined
    else if not (in_bounds c p.x p.y p.z)
    then not_found
    else if not store
    then internal_server_error
    else elim (handler_of apr p.others) [
      | none ↦ declined
      | some h ↦ accepted h i (tile_request apr c p)
    ]

unfoldable pub translate_layer : Apr → List ℕ → Bool → TileConfig → ℕ → List ℕ → Translation
unfolding parse_path translate_parts
translate_layer apr held store c i rest =
    if is_prefix tile_layer_json rest
    then tile_json i
    else elim (parse_path apr held c.enable_options (apr.strtok rest)) [
      | none ↦ declined
      | some p ↦ translate_parts apr store c i p
    ]

-- The loop over the layers from the one with this number on
unfoldable pub translate_layers :
    Apr → List ℕ → (ℕ → Bool) → List ℕ → ℕ → List TileConfig → Translation
unfolding translate_layer
translate_layers apr held stores uri i [] = declined
translate_layers apr held stores uri i (c ∷ cs) =
    let rest = translate_layers apr held stores uri (suc i) cs in
    if is_prefix c.baseuri uri
    then translate_layer apr held (stores i) c i (drop (length c.baseuri) uri)
    else rest

-- `tile_translate`; `held` is what the buffer for the extension holds before.
unfoldable pub tile_translate : Apr → List ℕ → (ℕ → Bool) → List TileConfig → List ℕ → Translation
unfolding translate_layers
tile_translate apr held stores layers uri =
    if is_prefix mod_tile_uri uri
    then tile_mod_stats
    else if is_prefix metrics_uri uri
    then tile_metrics
    else translate_layers apr held stores uri 0 layers
