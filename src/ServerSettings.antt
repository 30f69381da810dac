-- ===== src/ServerSettings.antt =====
-- src/mod_tile.c, the directives that set values of `tile_server_conf`, its defaults and its merge for
-- a virtual host. The layers of `configs` are those of TileLayers. The result of `strtod` and the
-- quotient of two floating-point numbers are those of the C library and the processor. Log messages
-- are left out.
pub mod Directives
pub mod Merge
pub mod Usable
pub mod ZoomTimes
mod Tests
use mod_tile.Base.{
  ℕ, zero, suc, ◌+◌, ◌*◌, ◌^◌, ℤ, pos, negsuc, pos_part, ltb_ℤ, Bool, true, false, ◌||◌, List, [],
  ◌++◌, Option, none, some, ltb, leb, ◌==◌, if◌then◌else◌, length, take,
}
use mod_tile.StoreFile.{path_max}
use mod_tile.TileTranslate.{Apr, to_int}
use mod_tile.TileLayers.{Layer, max_zoom_server}
use mod_tile.TileHeaders.{CacheConf}
use mod_tile.DelayPool.{Throttling}

-- A `double`: not a number, an infinity, or the quotient of an integer and a positive number,
-- `ratio n d` being n / (d + 1).
pub data Double : Type 0 where
  nan : Double
  infinity : (negative : Bool) → Double
  ratio : ℤ → ℕ → Double

-- `strtod` with the rest behind the number, and `n / x` turned into a `long`
pub record Floats : Type 0 where
  pub strtod : List ℕ → Double × List ℕ
  pub divided : ℕ → Double → ℤ

-- `x <= 0` and `x > n`; both are false if `x` is not a number.
unfoldable pub not_positive : Double → Bool
not_positive nan = false
not_positive (infinity negative) = negative
not_positive (ratio (pos n) d) = n == 0
not_positive (ratio (negsuc n) d) = true

unfoldable pub greater : Double → ℕ → Bool
greater nan n = false
greater (infinity negative) n = if negative then false else true
greater (ratio (pos k) d) n = ltb (n * suc d) k
greater (ratio (negsuc k) d) n = false

-- `tile_server_conf`
pub record Settings : Type 0 where
  pub configs : List Layer
  pub very_old_threshold : ℤ
  pub cache_extended_hostname : List ℕ
  pub renderd_socket_name : List ℕ
  pub tile_dir : List ℕ
  pub cache_duration_last_modified_factor : Double
  pub cache_duration_dirty : ℤ
  pub cache_duration_low_zoom : ℤ
  pub cache_duration_max : ℤ
  pub cache_duration_medium_zoom : ℤ
  pub cache_duration_minimum : ℤ
  pub cache_extended_duration : ℤ
  pub cache_level_low_zoom : ℤ
  pub cache_level_medium_zoom : ℤ
  pub delaypool_render_size : ℤ
  pub delaypool_tile_size : ℤ
  pub enable_bulk_mode : Bool
  pub enable_dirty_url : Bool
  pub enable_global_stats : Bool
  pub enable_status_url : Bool
  pub enable_tile_throttling : Bool
  pub enable_tile_throttling_xforward : ℤ
  pub max_load_missing : ℤ
  pub max_load_old : ℤ
  pub mincachetime : ℕ → ℤ
  pub renderd_socket_port : ℤ
  pub request_timeout : ℤ
  pub request_timeout_priority : ℤ
  pub delaypool_render_rate : ℤ
  pub delaypool_tile_rate : ℤ

-- The errors that a directive reports; what it has set before stays set.
pub data SettingError : Type 0 where
  not_integer not_float no_xforward no_rate : SettingError

unfoldable pub arg_to_apr_int64_t : Apr → List ℕ → Option ℤ
arg_to_apr_int64_t apr s =
    let (n, rest) = apr.strtoi64 s in if length rest == length s then none else some n

unfoldable pub arg_to_int : Apr → List ℕ → Option ℤ
unfolding to_int
arg_to_int apr s =
    let (n, rest) = apr.strtoi64 s in if length rest == length s then none else some (to_int n)

unfoldable pub arg_to_double : Floats → List ℕ → Option Double
arg_to_double fl s = let (x, rest) = fl.strtod s in if length rest == length s then none else some x

abbrev pub arg_to_string : List ℕ → List ℕ
arg_to_string s = take path_max s
