-- ===== src/ServerSettings/Merge.antt =====
-- src/mod_tile.c, `create_tile_config` and `merge_tile_config`, and what other parts read of the result.
use mod_tile.Base.{
  ℕ, zero, suc, ℤ, pos, pos_part, ltb_ℤ, Bool, true, false, List, [], ◌++◌, ◌==◌, if◌then◌else◌,
  take,
}
use mod_tile.StoreFile.{path_max}
use mod_tile.TileLayers.{max_zoom_server}
use mod_tile.TileHeaders.{CacheConf}
use mod_tile.ServerSettings.{Settings, ratio}

-- The defaults; the two texts are those of the build.
abbrev pub create_tile_config : (renderd_socket renderd_tile_dir : List ℕ) → Settings
create_tile_config renderd_socket renderd_tile_dir = record {
  configs = [];
  very_old_threshold = pos 31536000000000;
  cache_extended_hostname = [];
  renderd_socket_name = take path_max renderd_socket;
  tile_dir = take path_max renderd_tile_dir;
  cache_duration_last_modified_factor = ratio (pos 0) 0;
  cache_duration_dirty = pos 900;
  cache_duration_low_zoom = pos 518400;
  cache_duration_max = pos 604800;
  cache_duration_medium_zoom = pos 86400;
  cache_duration_minimum = pos 10800;
  cache_extended_duration = pos 0;
  cache_level_low_zoom = pos 0;
  cache_level_medium_zoom = pos 0;
  delaypool_render_size = pos 65;
  delaypool_tile_size = pos 5000;
  enable_bulk_mode = false;
  enable_dirty_url = true;
  enable_global_stats = true;
  enable_status_url = true;
  enable_tile_throttling = false;
  enable_tile_throttling_xforward = pos 0;
  max_load_missing = pos 50;
  max_load_old = pos 16;
  mincachetime = λ i. pos 0;
  renderd_socket_port = pos 0;
  request_timeout = pos 3;
  request_timeout_priority = pos 3;
  delaypool_render_rate = pos 5000000;
  delaypool_tile_rate = pos 1000000;
}

-- The least time for a zoom
unfoldable pub zoom_time : Settings → ℕ → ℤ
zoom_time s i =
    if leb_ℤ (pos i) s.cache_level_low_zoom
    then s.cache_duration_low_zoom
    else if leb_ℤ (pos i) s.cache_level_medium_zoom
    then s.cache_duration_medium_zoom
    else s.cache_duration_minimum
  where
    leb_ℤ : ℤ → ℤ → Bool
    leb_ℤ a b = if ltb_ℤ b a then false else true

-- The loop that fills the table from zoom `i` on, with so many zooms left
unfoldable pub fill_times : Settings → ℕ → ℕ → (ℕ → ℤ) → ℕ → ℤ
unfolding zoom_time
fill_times s zero i times = times
fill_times s (suc left) i times =
    fill_times s left (suc i) (λ z. if z == i then zoom_time s i else times z)

-- All comes from the virtual host, except that the layers of both are kept; the table is new.
unfoldable pub merge_tile_config : (base over : Settings) → Settings
unfolding fill_times
merge_tile_config base over = record over {
  configs = base.configs ++ over.configs;
  cache_extended_hostname = take path_max over.cache_extended_hostname;
  renderd_socket_name = take path_max over.renderd_socket_name;
  tile_dir = take path_max over.tile_dir;
  mincachetime = fill_times over (suc max_zoom_server) 0 (λ i. pos 0);
}

-- What `add_expiry` reads
abbrev pub cache_conf : Settings → CacheConf
cache_conf s = record {
  cache_extended_hostname = s.cache_extended_hostname;
  cache_extended_duration = s.cache_extended_duration;
  cache_duration_dirty = s.cache_duration_dirty;
  cache_duration_max = s.cache_duration_max;
  mincachetime = λ z. s.mincachetime (pos_part z);
}
