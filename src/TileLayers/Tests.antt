-- ===== src/TileLayers/Tests.antt =====
-- Layers from directives and from a configuration file.
use mod_tile.Base.{
  ℕ, ◌-◌, ◌≡◌, refl, ap, pos, ◌-◌, List, [], ◌∷◌, ◌++◌, some, none, true, false, map, arith, take,
}
use mod_tile.GenTile.Projection.{is_prefix}
use mod_tile.TilePath.Scan.{scan_int}
use mod_tile.TileTranslate.{Apr, tile_translate, mod_tile_uri, metrics_uri}
use mod_tile.RenderdConfig.{ok, ◌>>=◌, section_of}
use mod_tile.RenderdConfig.Sample.{ini, build, accepted, section_a, section_b}
use mod_tile.TileLayers.{
  ServerConf, Layer, Layers, done, zoom_out_of_range, load_tile_config, add_sections, new_layer,
  slashed_uri, args_of, add_tile_config, maxzoom_option,
}
use mod_tile.TileLayers.Unshadowed.{Reaches, uri_of, AllShort, empty_layers, tile_translate-Reaches}

abbrev server : ServerConf
server = record { tile_dir = b'/' ∷ b't' ∷ []; server_hostname = none; default_attribution = [] }

abbrev layer_a : Layer
layer_a = new_layer server (args_of section_a)

abbrev layer_b : Layer
layer_b = new_layer server (args_of section_b)

abbrev loaded_layers : Layers
loaded_layers = add_sections server empty_layers (section_a ∷ section_b ∷ [])

loads : load_tile_config build server true (some ini) empty_layers ≡ ok (done loaded_layers)
unfolding load_tile_config
loads = ap (λ o. o >>= λ ms. ok (done (add_sections server empty_layers ms))) accepted

two_layers : loaded_layers.configs ≡ (layer_a ∷ []) ++ layer_b ∷ []
unfolding add_sections
two_layers = refl

layers_short : AllShort loaded_layers.configs
unfolding add_sections slashed_uri section_of
layers_short = omega arith

-- "/a/b/3/1/2.png" lies below both URIs.
abbrev asked : List ℕ
asked =
    b'/' ∷ b'a' ∷ b'/' ∷ b'b' ∷ b'/' ∷ b'3' ∷ b'/' ∷ b'1' ∷ b'/' ∷ b'2' ∷ b'.' ∷ b'p' ∷ b'n' ∷ b'g'
    ∷ []

below_b : is_prefix (uri_of layer_b) asked ≡ true
unfolding is_prefix new_layer slashed_uri section_of
below_b = refl

other_mod_tile : is_prefix mod_tile_uri asked ≡ false
unfolding is_prefix
other_mod_tile = refl

other_metrics : is_prefix metrics_uri asked ≡ false
unfolding is_prefix
other_metrics = refl

-- An APR whose functions do nothing
abbrev apr : Apr
apr = record { strtok = λ s. s ∷ []; strtoi64 = λ s. (pos 0, s); cpystrn = λ s n. take (n - 1) s }

tile_translate-Reaches_example :
    Reaches apr []
      (λ i. true)
      asked
      loaded_layers.configs
      0
      1
      layer_b
      (tile_translate apr []
        (λ i. true)
        (map (λ (x : Layer). x.translated) loaded_layers.configs)
        asked)
tile_translate-Reaches_example =
    tile_translate-Reaches build server ini loaded_layers apr [] (λ i. true) asked (layer_a ∷ [])
      layer_b [] loads two_layers layers_short below_b other_mod_tile other_metrics

-- "maxzoom=31"
zoom_too_large :
    add_tile_config server empty_layers
      ((b'/' ∷ []) ∷ (b'a' ∷ []) ∷ (maxzoom_option ++ b'=' ∷ b'3' ∷ b'1' ∷ []) ∷ [])
    ≡ zoom_out_of_range
unfolding add_tile_config scan_int
zoom_too_large = refl
