-- ===== src/ServerSettings/Usable.antt =====
-- src/mod_tile.c: the values that a server can have, by its defaults, directives and merges.
use mod_tile.Base.{
  ◌==◌, ◌^◌, leb, ℕ, suc, ◌*◌, ◌≡◌, pos, Bool, true, false, ◌||◌, List, Option, some,
}
use mod_tile.Base.Bounds.{NotAbove}
use mod_tile.TileTranslate.{Apr}
use mod_tile.ServerSettings.{Settings, Double, nan, ratio, Floats, arg_to_double}
use mod_tile.ServerSettings.Directives.{
  Setting, delaypool_tiles_config, delaypool_render_config, run_setting, apr_usec_per_sec,
}
use mod_tile.ServerSettings.Merge.{create_tile_config, merge_tile_config}

-- The intervals, which divide times, are positive, and X-Forwarded-For is read in one of three ways.
abbrev pub IsUsable : Settings → Type 0
IsUsable s =
    NotAbove (pos 1) s.delaypool_tile_rate
    × NotAbove (pos 1) s.delaypool_render_rate
    × NotAbove (pos 0) s.enable_tile_throttling_xforward
    × NotAbove s.enable_tile_throttling_xforward (pos 2)

-- A rate for which the interval fits into a `long` of 64 bits: it is a number, and if it is positive the
-- quotient of 1000000 and the rate is at most 2 ^ 62.
abbrev pub fits : Option Double → Bool
fits (some nan) = false
fits (some (ratio (pos n) d)) = n == 0 || leb (apr_usec_per_sec * suc d) (2 ^ 62 * n)
fits _ = true

module _ (apr : Apr) (fl : Floats) where
  -- The rates of a directive fit.
  abbrev pub all_fit : Setting → Bool
  all_fit (delaypool_tiles_config a b) = fits (arg_to_double fl b)
  all_fit (delaypool_render_config a b) = fits (arg_to_double fl b)
  all_fit _ = true

  -- What the server makes of its files: `Configured s` says that `s` can be the values of a server.
  pub data Configured : Settings → Type 0 where
    created : (socket tiles : List ℕ) → Configured (create_tile_config socket tiles)
    sets :
        {s : Settings} (d : Setting)
        → Configured s
        → all_fit d ≡ true
        → Configured (run_setting apr fl d s).0
    merges :
        {base over : Settings}
        → Configured base
        → Configured over
        → Configured (merge_tile_config base over)
