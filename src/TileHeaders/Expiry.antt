-- ===== src/TileHeaders/Expiry.antt =====
-- src/mod_tile.c, `add_expiry`: how long a tile may be cached.
use mod_tile.Base.{
  ℕ, ◌≡◌, ℤ, pos, ltb_ℤ, ◌+ℤ◌, Bool, false, not, ◌&&◌, List, ◌⊎◌, arith, length, ◌==◌,
  if◌then◌else◌,
}
use mod_tile.Base.Bounds.{NotAbove}
use mod_tile.GenTile.Projection.{strstr}
use mod_tile.TileServer.{
  TileState, tile_unknown, tile_missing, tile_old, tile_very_old, tile_current,
}
use mod_tile.TileHeaders.{CacheConf, max_age}

-- The least time of a tile, before the cap
abbrev pub floor : CacheConf → TileState → ℤ → ℤ → ℤ
floor c tile_old z maxzoom = c.cache_duration_dirty
floor c tile_very_old z maxzoom = c.cache_duration_dirty
floor c _ z maxzoom = if ltb_ℤ maxzoom z then pos 0 else c.mincachetime z

capped :
    (a cap least : ℤ)
    → NotAbove least a
    → NotAbove (if ltb_ℤ a cap then a else cap) cap
      × ((NotAbove cap (if ltb_ℤ a cap then a else cap))
          ⊎ (NotAbove least (if ltb_ℤ a cap then a else cap)))
capped a cap least h = ground arith

delayed : (a b : ℤ) → NotAbove (pos 0) b → NotAbove a (a +ℤ b)
delayed a b h = ground arith

fresh_floor : (a m b : ℤ) → NotAbove (pos 0) b → NotAbove a ((if ltb_ℤ m a then a else m) +ℤ b)
fresh_floor a m b h = ground arith

module _ (c : CacheConf) (hostname : List ℕ)
    (z maxzoom dirty_holdoff last_modified holdoff : ℤ) where
  -- The host is one with extended caching.
  abbrev pub extended : Bool
  extended =
      not (length c.cache_extended_hostname == 0) && strstr hostname c.cache_extended_hostname

  abbrev pub age : TileState → ℤ
  age state = max_age c hostname state z maxzoom dirty_holdoff last_modified holdoff

  abbrev low : ℤ
  low = if ltb_ℤ maxzoom z then pos 0 else c.mincachetime z

  abbrev of_fresh : ℤ
  of_fresh = (if ltb_ℤ last_modified low then low else last_modified) +ℤ holdoff

  abbrev cap : ℤ → ℤ
  cap a = if ltb_ℤ a c.cache_duration_max then a else c.cache_duration_max

  fresh :
      NotAbove (pos 0) holdoff
      → NotAbove (cap of_fresh) c.cache_duration_max
        × ((NotAbove c.cache_duration_max (cap of_fresh)) ⊎ (NotAbove low (cap of_fresh)))
  fresh k = capped of_fresh c.cache_duration_max low (fresh_floor low last_modified holdoff k)

  outdated :
      NotAbove (pos 0) dirty_holdoff
      → NotAbove (cap (c.cache_duration_dirty +ℤ dirty_holdoff)) c.cache_duration_max
        × ((NotAbove c.cache_duration_max (cap (c.cache_duration_dirty +ℤ dirty_holdoff)))
            ⊎ (NotAbove c.cache_duration_dirty (cap (c.cache_duration_dirty +ℤ dirty_holdoff))))
  outdated h =
      capped (c.cache_duration_dirty +ℤ dirty_holdoff) c.cache_duration_max c.cache_duration_dirty
        (delayed c.cache_duration_dirty dirty_holdoff h)

  -- On a host without extended caching, and with random delays that are not negative: the time is never
  -- above the configured maximum; and it is at least this maximum or the least time of the tile, which
  -- is the one for outdated tiles where the tile is old, and the one of its zoom otherwise.
  pub max_age_lem :
      (state : TileState)
      → extended ≡ false
      → NotAbove (pos 0) dirty_holdoff
      → NotAbove (pos 0) holdoff
      → NotAbove (age state) c.cache_duration_max
        × ((NotAbove c.cache_duration_max (age state))
            ⊎ (NotAbove (floor c state z maxzoom) (age state)))
  unfolding max_age
  max_age_lem tile_unknown e h k = rw e (fresh k)
  max_age_lem tile_missing e h k = rw e (fresh k)
  max_age_lem tile_old e h k = rw e (outdated h)
  max_age_lem tile_very_old e h k = rw e (outdated h)
  max_age_lem tile_current e h k = rw e (fresh k)
