-- ===== src/TileLayers.antt =====
-- src/mod_tile.c, `_add_tile_config`, `add_tile_mime_config`, `add_tile_config` and
-- `load_tile_config`: the layers of the Apache module, from directives or from the configuration file
-- of renderd. Log messages are left out.
pub mod Unshadowed
mod Tests
use mod_tile.Base.{
  ℕ, zero, suc, ◌+◌, ◌-◌, ◌^◌, ℤ, pos, negsuc, pos_part, ltb_ℤ, Bool, true, false, not, ◌||◌, List,
  [], ◌∷◌, ◌++◌, Option, none, some, ltb, ◌==◌, if◌then◌else◌, eq_list, length, take, map,
}
use mod_tile.StoreFile.{path_max}
use mod_tile.TileTranslate.{TileConfig}
use mod_tile.RenderdConfig.Number.{strtol}
use mod_tile.RenderdConfig.{
  Outcome, ok, exits, ◌>>=◌, Build, Ini, MapSection, ends_in_slash, process_map_sections,
  max_zoom_limit,
}

-- The parts of `tile_config_rec` that `tile_translate` does not read, beside those that it reads
pub record Layer : Type 0 where
  pub translated : TileConfig
  pub attribution : List ℕ
  pub cors : Option (List ℕ)
  pub description : List ℕ
  pub hostnames : List (List ℕ)
  pub store : List ℕ

-- What the server knows: `ModTileTileDir`, its host name, and the default attribution.
pub record ServerConf : Type 0 where
  pub tile_dir : List ℕ
  pub server_hostname : Option (List ℕ)
  pub default_attribution : List ℕ

unfoldable pub or_default : List ℕ → List ℕ → List ℕ
or_default default s = if length (take path_max s) == 0 then default else take path_max s

-- The URI ends in a slash.
unfoldable pub slashed_uri : ℕ → List ℕ → List ℕ
slashed_uri maxlen u =
    if length (take maxlen u) == 0
    then b'/' ∷ []
    else if ends_in_slash (take maxlen u)
    then take maxlen u
    else u ++ b'/' ∷ []

unfoldable pub layer_uri : List ℕ → List ℕ
layer_uri u = slashed_uri path_max u

unfoldable pub layer_cors : List ℕ → Option (List ℕ)
layer_cors s = if length (take path_max s) == 0 then none else some (take path_max s)

-- "http://" and "http://localhost"
abbrev pub http : List ℕ
http = b'h' ∷ b't' ∷ b't' ∷ b'p' ∷ b':' ∷ b'/' ∷ b'/' ∷ []

abbrev pub localhost : List ℕ
localhost = http ++ (b'l' ∷ b'o' ∷ b'c' ∷ b'a' ∷ b'l' ∷ b'h' ∷ b'o' ∷ b's' ∷ b't' ∷ [])

abbrev pub first_hostname : Option (List ℕ) → List ℕ
first_hostname none = localhost
first_hostname (some name) = http ++ name

-- The host name of the server, and the alias without a slash at its end
unfoldable pub layer_hostnames : Option (List ℕ) → List ℕ → List (List ℕ)
layer_hostnames name alias =
    if length (take path_max alias) == 0
    then first_hostname name ∷ []
    else if ends_in_slash (take path_max alias)
    then first_hostname name ∷ take (length (take path_max alias) - 1) alias ∷ []
    else first_hostname name ∷ alias ∷ []

-- The arguments of `_add_tile_config`
pub record LayerArgs : Type 0 where
  pub baseuri : List ℕ
  pub name : List ℕ
  pub minzoom : ℤ
  pub maxzoom : ℤ
  pub aspect_x : ℤ
  pub aspect_y : ℤ
  pub file_extension : List ℕ
  pub mime_type : List ℕ
  pub description : List ℕ
  pub attribution : List ℕ
  pub server_alias : List ℕ
  pub cors : List ℕ
  pub tile_dir : List ℕ
  pub enable_options : Bool

-- A layer whose aspect is negative has no tiles, as one with aspect 0.
unfoldable pub new_layer : ServerConf → LayerArgs → Layer
unfolding or_default layer_uri layer_cors layer_hostnames
new_layer s a = record {
  translated = record {
    baseuri = layer_uri a.baseuri;
    xmlname = take path_max a.name;
    file_extension = take path_max a.file_extension;
    mime_type = take path_max a.mime_type;
    enable_options = a.enable_options;
    minzoom = a.minzoom;
    maxzoom = a.maxzoom;
    aspect_x = pos_part a.aspect_x;
    aspect_y = pos_part a.aspect_y;
  };
  attribution = or_default s.default_attribution a.attribution;
  cors = layer_cors a.cors;
  description = take path_max a.description;
  hostnames = layer_hostnames s.server_hostname a.server_alias;
  store = or_default (take path_max s.tile_dir) a.tile_dir;
}

-- The layers and the greatest zoom of them, `global_max_zoom`; `layerCount` is the number of layers.
pub record Layers : Type 0 where
  pub configs : List Layer
  pub global_max_zoom : ℤ

unfoldable pub _add_tile_config : ServerConf → Layers → LayerArgs → Layers
unfolding new_layer
_add_tile_config s l a = record {
  configs = l.configs ++ new_layer s a ∷ [];
  global_max_zoom = if ltb_ℤ l.global_max_zoom a.maxzoom then a.maxzoom else l.global_max_zoom;
}

-- A layer of a map section
abbrev pub args_of : MapSection → LayerArgs
args_of m = record {
  baseuri = m.xmluri;
  name = m.xmlname;
  minzoom = m.min_zoom;
  maxzoom = m.max_zoom;
  aspect_x = m.aspect_x;
  aspect_y = m.aspect_y;
  file_extension = m.file_extension;
  mime_type = m.mime_type;
  description = m.description;
  attribution = m.attribution;
  server_alias = m.server_alias;
  cors = m.cors;
  tile_dir = m.tile_dir;
  enable_options = not (length m.parameterization == 0);
}

unfoldable pub add_sections : ServerConf → Layers → List MapSection → Layers
unfolding _add_tile_config
add_sections s l [] = l
add_sections s l (m ∷ ms) = add_sections s (_add_tile_config s l (args_of m)) ms

-- What a directive returns: the layers, or an error message.
pub data Directive : Type 0 where
  done : Layers → Directive
  cannot_open no_url_path no_name zoom_out_of_range : Directive

-- `load_tile_config`; `exists` is what `stat` finds, and the process may end in the configuration.
unfoldable pub load_tile_config :
    Build → ServerConf → Bool → Option Ini → Layers → Outcome Directive
unfolding add_sections
load_tile_config b s false ini l = ok cannot_open
load_tile_config b s true ini l =
    process_map_sections b ini [] (pos 0) >>= λ ms. ok (done (add_sections s l ms))

-- "image/png", "png", "text/javascript" and "js"
abbrev pub png_mime : List ℕ
png_mime = b'i' ∷ b'm' ∷ b'a' ∷ b'g' ∷ b'e' ∷ b'/' ∷ b'p' ∷ b'n' ∷ b'g' ∷ []

abbrev pub png : List ℕ
png = b'p' ∷ b'n' ∷ b'g' ∷ []

abbrev pub text_javascript : List ℕ
text_javascript =
    b't' ∷ b'e' ∷ b'x' ∷ b't' ∷ b'/' ∷ b'j' ∷ b'a' ∷ b'v' ∷ b'a' ∷ b's' ∷ b'c' ∷ b'r' ∷ b'i' ∷ b'p'
    ∷ b't' ∷ []

abbrev pub js : List ℕ
js = b'j' ∷ b's' ∷ []

abbrev plain_layer : List ℕ → List ℕ → ℤ → ℤ → List ℕ → List ℕ → List ℕ → List ℕ → LayerArgs
plain_layer uri name least most extension mime cors dir = record {
  baseuri = uri;
  name = name;
  minzoom = least;
  maxzoom = most;
  aspect_x = pos 1;
  aspect_y = pos 1;
  file_extension = extension;
  mime_type = mime;
  description = [];
  attribution = [];
  server_alias = [];
  cors = cors;
  tile_dir = dir;
  enable_options = false;
}

unfoldable pub add_tile_mime_config : ServerConf → Layers → List ℕ → List ℕ → List ℕ → Layers
unfolding _add_tile_config
add_tile_mime_config s l uri name extension =
    if eq_list extension js
    then _add_tile_config s l
        (plain_layer uri name (pos 0) (pos max_zoom_limit) extension text_javascript (b'*' ∷ []) [])
    else _add_tile_config s l
        (plain_layer uri name (pos 0) (pos max_zoom_limit) extension png_mime [] [])

-- The options of `add_tile_config`, and their names
pub record Options : Type 0 where
  pub least : ℤ
  pub most : ℤ
  pub extension : List ℕ
  pub mime : List ℕ
  pub dir : List ℕ

-- "zoom" ends two of the names.
abbrev pub maxzoom_option : List ℕ
maxzoom_option = b'm' ∷ b'a' ∷ b'x' ∷ b'z' ∷ b'o' ∷ b'o' ∷ b'm' ∷ []

abbrev pub minzoom_option : List ℕ
minzoom_option = b'm' ∷ b'i' ∷ b'n' ∷ b'z' ∷ b'o' ∷ b'o' ∷ b'm' ∷ []

abbrev pub extension_option : List ℕ
extension_option = b'e' ∷ b'x' ∷ b't' ∷ b'e' ∷ b'n' ∷ b's' ∷ b'i' ∷ b'o' ∷ b'n' ∷ []

abbrev pub mimetype_option : List ℕ
mimetype_option = b'm' ∷ b'i' ∷ b'm' ∷ b'e' ∷ b't' ∷ b'y' ∷ b'p' ∷ b'e' ∷ []

abbrev pub tile_dir_option : List ℕ
tile_dir_option = b't' ∷ b'i' ∷ b'l' ∷ b'e' ∷ b'_' ∷ b'd' ∷ b'i' ∷ b'r' ∷ []

-- An argument at its first `=`
unfoldable pub split_equals : List ℕ → Option (List ℕ × List ℕ)
split_equals [] = none
split_equals (c ∷ s) =
    let rest = split_equals s in
    if c == b'='
    then some ([], s)
    else elim rest [ none ↦ none | some (name, value) ↦ some (c ∷ name, value) ]

-- `strtol`, which is 0 where no number stands
unfoldable pub strtol_int : List ℕ → ℤ
unfolding strtol
strtol_int s = elim (strtol s) [ none ↦ pos 0 | some n ↦ n ]

unfoldable pub with_option : Options → List ℕ → List ℕ → Options
unfolding strtol_int
with_option o name value =
    if eq_list name maxzoom_option
    then record o { most = strtol_int value }
    else if eq_list name minzoom_option
    then record o { least = strtol_int value }
    else if eq_list name extension_option
    then record o { extension = value }
    else if eq_list name mimetype_option
    then record o { mime = value }
    else if eq_list name tile_dir_option
    then record o { dir = value }
    else o

unfoldable pub read_options : Options → List (List ℕ) → Options
unfolding split_equals with_option
read_options o [] = o
read_options o (arg ∷ args) = elim (split_equals arg) [
  | none ↦ read_options o args
  | some (name, value) ↦ read_options (with_option o name value) args
]

abbrev pub no_options : Options
no_options = record {
  least = pos 0;
  most = pos max_zoom_limit;
  extension = png;
  mime = png_mime;
  dir = [];
}

-- `MAX_ZOOM_SERVER`
abbrev pub max_zoom_server : ℕ
max_zoom_server = 30

unfoldable pub add_tile_config : ServerConf → Layers → List (List ℕ) → Directive
unfolding read_options _add_tile_config
add_tile_config s l [] = no_url_path
add_tile_config s l (uri ∷ []) = no_name
add_tile_config s l (uri ∷ name ∷ args) =
    let o = read_options no_options args in
    if ltb_ℤ o.least (pos 0) || ltb_ℤ (pos max_zoom_server) o.most
    then zoom_out_of_range
    else done
        (_add_tile_config s l (plain_layer uri name o.least o.most o.extension o.mime [] o.dir))
