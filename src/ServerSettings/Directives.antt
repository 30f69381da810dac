-- ===== src/ServerSettings/Directives.antt =====
-- src/mod_tile.c, the directives that set one or two values.
use mod_tile.Base.{ℕ, ℤ, pos, ltb_ℤ, Bool, ◌||◌, List, Option, none, some, if◌then◌else◌}
use mod_tile.TileTranslate.{Apr}
use mod_tile.ServerSettings.{
  Settings, SettingError, not_integer, not_float, no_xforward, no_rate, Double, Floats,
  not_positive, greater, arg_to_apr_int64_t, arg_to_int, arg_to_double, arg_to_string,
}

-- A value is stored, unless there is none.
unfoldable pub store_value :
    {A : Type 0}
    → SettingError
    → Option A
    → (A → Settings)
    → Settings
    → Settings × Option SettingError
store_value e none f s = (s, some e)
store_value e (some a) f s = (f a, none)

-- The second argument is read unless the first one is an error.
unfoldable pub then_store :
    Settings × Option SettingError
    → (Settings → Settings × Option SettingError)
    → Settings × Option SettingError
then_store (s, some e) k = (s, some e)
then_store (s, none) k = k s

unfoldable pub enable_throttling_xforward : Option ℤ → Settings → Settings × Option SettingError
enable_throttling_xforward none s = (s, some not_integer)
enable_throttling_xforward (some n) s =
    if ltb_ℤ n (pos 0) || ltb_ℤ (pos 2) n
    then (s, some no_xforward)
    else (record s { enable_tile_throttling_xforward = n }, none)

abbrev pub apr_usec_per_sec : ℕ
apr_usec_per_sec = 1000000

-- The interval between two tokens, for a rate of tokens per second
unfoldable pub store_rate :
    Floats → Option Double → (ℤ → Settings) → Settings → Settings × Option SettingError
unfolding not_positive greater
store_rate fl none f s = (s, some not_float)
store_rate fl (some x) f s =
    if not_positive x || greater x apr_usec_per_sec
    then (s, some no_rate)
    else (f (fl.divided apr_usec_per_sec x), none)

-- The directives that set a value, named by their handlers, with their arguments
pub data Setting : Type 0 where
  request_timeout_config request_timeout_priority_config : List ℕ → Setting
  max_load_old_config max_load_missing_config very_old_threshold_config : List ℕ → Setting
  renderd_socket_name_config tile_dir_config cache_extended_hostname_config : List ℕ → Setting
  renderd_socket_address_config : List ℕ → List ℕ → Setting
  cache_extended_duration_config cache_duration_max_config : List ℕ → Setting
  cache_duration_last_modified_factor_config : List ℕ → Setting
  cache_duration_dirty_config cache_duration_minimum_config : List ℕ → Setting
  cache_duration_low_config cache_duration_medium_config : List ℕ → List ℕ → Setting
  stats_config throttling_config bulk_mode_config status_url_config dirty_url_config :
      Bool → Setting
  throttling_xforward_config : List ℕ → Setting
  delaypool_tiles_config delaypool_render_config : List ℕ → List ℕ → Setting

module _ (apr : Apr) (fl : Floats) where
  -- One directive of an integer
  abbrev pub store_int : List ℕ → (ℤ → Settings) → Settings → Settings × Option SettingError
  store_int a f s = store_value not_integer (arg_to_int apr a) f s

  unfoldable pub run_setting : Setting → Settings → Settings × Option SettingError
  unfolding store_value then_store
  run_setting (request_timeout_config a) s = store_int a (λ n. record s { request_timeout = n }) s
  run_setting (request_timeout_priority_config a) s =
      store_int a (λ n. record s { request_timeout_priority = n }) s
  run_setting (max_load_old_config a) s = store_int a (λ n. record s { max_load_old = n }) s
  run_setting (max_load_missing_config a) s = store_int a (λ n. record s { max_load_missing = n }) s
  run_setting (very_old_threshold_config a) s =
      store_value not_integer (arg_to_apr_int64_t apr a) (λ n. record s { very_old_threshold = n })
        s
  run_setting (renderd_socket_name_config a) s =
      (record s { renderd_socket_name = arg_to_string a }, none)
  run_setting (tile_dir_config a) s = (record s { tile_dir = arg_to_string a }, none)
  run_setting (cache_extended_hostname_config a) s =
      (record s { cache_extended_hostname = arg_to_string a }, none)
  run_setting (renderd_socket_address_config a b) s =
      let named = record s { renderd_socket_name = arg_to_string a } in
      store_int b (λ n. record named { renderd_socket_port = n }) named
  run_setting (cache_extended_duration_config a) s =
      store_int a (λ n. record s { cache_extended_duration = n }) s
  run_setting (cache_duration_max_config a) s =
      store_int a (λ n. record s { cache_duration_max = n }) s
  run_setting (cache_duration_last_modified_factor_config a) s =
      store_value not_float (arg_to_double fl a)
        (λ x. record s { cache_duration_last_modified_factor = x }) s
  run_setting (cache_duration_dirty_config a) s =
      store_int a (λ n. record s { cache_duration_dirty = n }) s
  run_setting (cache_duration_minimum_config a) s =
      store_int a (λ n. record s { cache_duration_minimum = n }) s
  run_setting (cache_duration_low_config a b) s =
      then_store (store_int a (λ n. record s { cache_level_low_zoom = n }) s)
        (λ t. store_int b (λ n. record t { cache_duration_low_zoom = n }) t)
  run_setting (cache_duration_medium_config a b) s =
      then_store (store_int a (λ n. record s { cache_level_medium_zoom = n }) s)
        (λ t. store_int b (λ n. record t { cache_duration_medium_zoom = n }) t)
  run_setting (stats_config b) s = (record s { enable_global_stats = b }, none)
  run_setting (throttling_config b) s = (record s { enable_tile_throttling = b }, none)
  run_setting (bulk_mode_config b) s = (record s { enable_bulk_mode = b }, none)
  run_setting (status_url_config b) s = (record s { enable_status_url = b }, none)
  run_setting (dirty_url_config b) s = (record s { enable_dirty_url = b }, none)
  run_setting (throttling_xforward_config a) s = enable_throttling_xforward (arg_to_int apr a) s
  run_setting (delaypool_tiles_config a b) s =
      then_store (store_int a (λ n. record s { delaypool_tile_size = n }) s)
        (λ t. store_rate fl (arg_to_double fl b) (λ n. record t { delaypool_tile_rate = n }) t)
  run_setting (delaypool_render_config a b) s =
      then_store (store_int a (λ n. record s { delaypool_render_size = n }) s)
        (λ t. store_rate fl (arg_to_double fl b) (λ n. record t { delaypool_render_rate = n }) t)
