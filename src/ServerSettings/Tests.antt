-- ===== src/ServerSettings/Tests.antt =====
-- The settings of a server with one virtual host.
use mod_tile.Base.{ℕ, suc, ◌*◌, ◌/◌, ◌⊎◌, refl, ℤ, pos, List, [], ◌∷◌, arith, take}
use mod_tile.Base.Bounds.{NotAbove}
use mod_tile.TileTranslate.{Apr}
use mod_tile.TileServer.{tile_current}
use mod_tile.ServerSettings.{Settings, Double, ratio, Floats, arg_to_int, arg_to_double}
use mod_tile.ServerSettings.Directives.{
  delaypool_tiles_config, cache_duration_low_config, run_setting, store_rate,
}
use mod_tile.ServerSettings.Merge.{create_tile_config}
use mod_tile.ServerSettings.ZoomTimes.{least, merged_age, merge_tile_config-max_age}

-- Every number is read as 12 or 2.5, and quotients are cut off.
abbrev apr : Apr
apr = record { strtok = λ s. s ∷ []; strtoi64 = λ s. (pos 12, []); cpystrn = λ s n. take n s }

abbrev cut_off : ℕ → Double → ℤ
cut_off n (ratio (pos k) d) = pos (n * suc d / k)
cut_off n x = pos 0

abbrev fl : Floats
fl = record { strtod = λ s. (ratio (pos 5) 1, []); divided = cut_off }

abbrev number : List ℕ
number = b'7' ∷ []

-- The directives "ModTileThrottlingTiles 7 7" and "ModTileCacheDurationLowZoom 7 7" of the virtual host
abbrev main_server : Settings
main_server = create_tile_config number number

abbrev throttled : Settings
throttled = (run_setting apr fl (delaypool_tiles_config number number) main_server).0

abbrev host : Settings
host = (run_setting apr fl (cache_duration_low_config number number) throttled).0

merge_tile_config-max_age_example :
    NotAbove
      (merged_age main_server host [] 12 (pos 20) (pos 0) (pos 5) (pos 77) tile_current)
      host.cache_duration_max
    × ((NotAbove host.cache_duration_max
          (merged_age main_server host [] 12 (pos 20) (pos 0) (pos 5) (pos 77) tile_current))
        ⊎ (NotAbove
            (least host tile_current 12 (pos 20))
            (merged_age main_server host [] 12 (pos 20) (pos 0) (pos 5) (pos 77) tile_current)))
unfolding run_setting arg_to_int store_rate arg_to_double
merge_tile_config-max_age_example =
    merge_tile_config-max_age main_server host [] 12 (pos 20) (pos 0) (pos 5) (pos 77) tile_current
      (omega arith) refl (omega arith) (omega arith)
