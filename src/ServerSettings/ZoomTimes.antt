-- ===== src/ServerSettings/ZoomTimes.antt =====
-- src/mod_tile.c, `merge_tile_config` with `add_expiry`: the times that a virtual host's tiles are cached.
use mod_tile.Base.{
  ℕ, zero, suc, ◌+◌, ◌≤◌, ◌<◌, ◌≡◌, refl, ◌∙◌, ap, ◌⊎◌, ℤ, pos, ltb_ℤ, false, not, ◌&&◌, List,
  length, ◌==◌, if◌then◌else◌, arith, take, subst, ℕ_discrete,
}
use mod_tile.Base.Bounds.{NotAbove}
use mod_tile.StoreFile.{path_max}
use mod_tile.GenTile.Projection.{strstr}
use mod_tile.TileServer.{
  TileState, tile_unknown, tile_missing, tile_old, tile_very_old, tile_current,
}
use mod_tile.TileLayers.{max_zoom_server}
use mod_tile.TileHeaders.{max_age}
use mod_tile.TileHeaders.Expiry.{floor, max_age_lem}
use mod_tile.ServerSettings.{Settings}
use mod_tile.ServerSettings.Merge.{merge_tile_config, fill_times, zoom_time, cache_conf}

-- The zooms of the loop
fill_times-covers :
    (s : Settings) (left i : ℕ) (times : ℕ → ℤ) (z : ℕ)
    → (i ≤ z → z < i + left → fill_times s left i times z ≡ zoom_time s z)
      × (z < i → fill_times s left i times z ≡ times z)
unfolding fill_times
fill_times-covers s zero i times z = (λ h k. ground arith, λ h. refl)
fill_times-covers s (suc left) i times z =
    let rest =
      fill_times-covers s left (suc i) (λ z. if z == i then zoom_time s i else times z) z in
    (
      λ h k. elim (ℕ_discrete z i) [
        | yes e ↦ rest.1 (omega arith) ∙ rw e (ground arith)
        | no n ↦ rest.0 (omega arith) (omega arith)
      ],
      λ h. rest.1 (omega arith) ∙ ground arith,
    )

merged_time :
    (base over : Settings) (z : ℕ)
    → z ≤ max_zoom_server
    → (merge_tile_config base over).mincachetime z ≡ zoom_time over z
unfolding merge_tile_config
merged_time base over z h =
    (fill_times-covers over (suc max_zoom_server) 0 (λ i. pos 0) z).0 (omega arith) (omega arith)

-- The least time that is promised, before the cap
abbrev pub least : Settings → TileState → ℕ → ℤ → ℤ
least s tile_old z maxzoom = s.cache_duration_dirty
least s tile_very_old z maxzoom = s.cache_duration_dirty
least s _ z maxzoom = if ltb_ℤ maxzoom (pos z) then pos 0 else zoom_time s z

module _ (base over : Settings) (hostname : List ℕ) (z : ℕ)
    (maxzoom dirty_holdoff last_modified holdoff : ℤ) where
  abbrev pub merged_age : TileState → ℤ
  merged_age state =
      max_age (cache_conf (merge_tile_config base over)) hostname state (pos z) maxzoom
        dirty_holdoff last_modified holdoff

  merged-floor :
      (state : TileState)
      → z ≤ max_zoom_server
      → floor (cache_conf (merge_tile_config base over)) state (pos z) maxzoom
        ≡ least over state z maxzoom
  unfolding merge_tile_config
  merged-floor tile_unknown h =
      ap (λ t. if ltb_ℤ maxzoom (pos z) then pos 0 else t) (merged_time base over z h)
  merged-floor tile_missing h =
      ap (λ t. if ltb_ℤ maxzoom (pos z) then pos 0 else t) (merged_time base over z h)
  merged-floor tile_old h = refl
  merged-floor tile_very_old h = refl
  merged-floor tile_current h =
      ap (λ t. if ltb_ℤ maxzoom (pos z) then pos 0 else t) (merged_time base over z h)

  -- In a virtual host without extended caching, for a zoom of at most 30 and random delays that are not
  -- negative: the time that a tile may be cached is never above the host's own maximum; and it is at
  -- least this maximum, or the host's time for outdated tiles where the tile is old, and otherwise its
  -- time for low zooms up to the low level, that for medium zooms up to the medium level, and the
  -- minimum for the others (none above the zooms of the layer), whatever the main server has set.
  pub merge_tile_config-max_age :
      (state : TileState)
      → z ≤ max_zoom_server
      → (not (length (take path_max over.cache_extended_hostname) == 0)
          && strstr hostname (take path_max over.cache_extended_hostname))
        ≡ false
      → NotAbove (pos 0) dirty_holdoff
      → NotAbove (pos 0) holdoff
      → NotAbove (merged_age state) over.cache_duration_max
        × ((NotAbove over.cache_duration_max (merged_age state))
            ⊎ (NotAbove (least over state z maxzoom) (merged_age state)))
  unfolding merge_tile_config
  merge_tile_config-max_age state h e d k =
      subst
        (λ f.
          NotAbove (merged_age state) over.cache_duration_max
          × ((NotAbove over.cache_duration_max (merged_age state))
              ⊎ (NotAbove f (merged_age state))))
        (merged-floor state h)
        (max_age_lem (cache_conf (merge_tile_config base over)) hostname (pos z) maxzoom
          dirty_holdoff last_modified holdoff state e d k)
