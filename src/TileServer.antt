-- ===== src/TileServer.antt =====
-- src/mod_tile.c: how the Apache module decides what to do with a request for a tile. The time is in
-- microseconds; a zoom and a layer are indices that `tile_translate` has checked.
pub mod Counting
pub mod Decision
pub mod Rendering
mod Tests
use mod_tile.Base.{
  ℕ, zero, suc, ◌+◌, ◌*◌, ℤ, pos, negsuc, ltb_ℤ, ◌-ℤ◌, scale, Bool, true, false, not, ◌&&◌, List,
  [], ◌∷◌, Option, none, some, ◌==◌, if◌then◌else◌,
}
use mod_tile.StoreFile.{StatInfo}

-- `enum tileState`
pub data TileState : Type 0 where
  tile_unknown tile_missing tile_old tile_very_old tile_current : TileState

-- What a hook returns
pub data Response : Type 0 where
  resp_ok declined http_not_modified http_not_found : Response
  http_service_unavailable http_internal_server_error http_other : Response

-- The status codes of `incFreshCounter`
pub data Freshness : Type 0 where
  fresh old fresh_render old_render very_old_render very_old : Freshness

-- `stats_data`
pub record StatsData : Type 0 where
  pub no_resp200 : ℕ
  pub no_resp304 : ℕ
  pub no_resp404 : ℕ
  pub no_resp503 : ℕ
  pub no_resp5xx : ℕ
  pub no_resp_other : ℕ
  pub no_fresh_cache : ℕ
  pub no_fresh_render : ℕ
  pub no_old_cache : ℕ
  pub no_old_render : ℕ
  pub no_very_old_cache : ℕ
  pub no_very_old_render : ℕ
  pub no_resp_zoom : ℕ → ℕ
  pub total_buffer_retrieval_time : ℕ
  pub no_total_buffer_retrieval : ℕ
  pub zoom_buffer_retrieval_time : ℕ → ℕ
  pub no_zoom_buffer_retrieval : ℕ → ℕ
  pub no_resp200_layer : ℕ → ℕ
  pub no_resp404_layer : ℕ → ℕ

abbrev pub add_at : (ℕ → ℕ) → ℕ → ℕ → ℕ → ℕ
add_at f i n j = if i == j then f j + n else f j

-- The zoom of a request and its layer, if there is a command
unfoldable pub count_served : Option ℕ → ℕ → StatsData → StatsData
count_served none layer s = s
count_served (some z) layer s = record s {
  no_resp_zoom = add_at s.no_resp_zoom z 1;
  no_resp200_layer = add_at s.no_resp200_layer layer 1;
}

unfoldable pub count_response : Response → Option ℕ → ℕ → StatsData → StatsData
unfolding count_served
count_response resp_ok cmd layer s =
    count_served cmd layer (record s { no_resp200 = s.no_resp200 + 1 })
count_response http_not_modified cmd layer s =
    count_served cmd layer (record s { no_resp304 = s.no_resp304 + 1 })
count_response http_not_found cmd layer s = record s {
  no_resp404 = s.no_resp404 + 1;
  no_resp404_layer = add_at s.no_resp404_layer layer 1;
}
count_response http_service_unavailable cmd layer s = record s { no_resp503 = s.no_resp503 + 1 }
count_response http_internal_server_error cmd layer s = record s { no_resp5xx = s.no_resp5xx + 1 }
count_response _ cmd layer s = record s { no_resp_other = s.no_resp_other + 1 }

-- The frame of the counters: nothing to do without global statistics, and a failure without the lock.
abbrev pub counting : Bool → Bool → (StatsData → StatsData) → StatsData → Bool × StatsData
counting enable_global_stats lock count s =
    if not enable_global_stats then (true, s) else if lock then (true, count s) else (false, s)

-- `incRespCounter`
unfoldable pub inc_resp_counter :
    Bool → Bool → Response → Option ℕ → ℕ → StatsData → Bool × StatsData
unfolding count_response
inc_resp_counter enable_global_stats lock resp cmd layer =
    counting enable_global_stats lock (count_response resp cmd layer)

unfoldable pub count_fresh : Freshness → StatsData → StatsData
count_fresh fresh s = record s { no_fresh_cache = s.no_fresh_cache + 1 }
count_fresh fresh_render s = record s { no_fresh_render = s.no_fresh_render + 1 }
count_fresh old s = record s { no_old_cache = s.no_old_cache + 1 }
count_fresh very_old s = record s { no_very_old_cache = s.no_very_old_cache + 1 }
count_fresh old_render s = record s { no_old_render = s.no_old_render + 1 }
count_fresh very_old_render s = record s { no_very_old_render = s.no_very_old_render + 1 }

-- `incFreshCounter`
unfoldable pub inc_fresh_counter : Bool → Bool → Freshness → StatsData → Bool × StatsData
unfolding count_fresh
inc_fresh_counter enable_global_stats lock status =
    counting enable_global_stats lock (count_fresh status)

-- `incTimingCounter`
unfoldable pub inc_timing_counter : Bool → Bool → ℕ → ℕ → StatsData → Bool × StatsData
inc_timing_counter enable_global_stats lock duration z = counting enable_global_stats lock count
  where
    count : StatsData → StatsData
    count s = record s {
      total_buffer_retrieval_time = s.total_buffer_retrieval_time + duration;
      zoom_buffer_retrieval_time = add_at s.zoom_buffer_retrieval_time z duration;
      no_total_buffer_retrieval = s.no_total_buffer_retrieval + 1;
      no_zoom_buffer_retrieval = add_at s.no_zoom_buffer_retrieval z 1;
    }

-- `tile_state`, from what the store tells of the tile
unfoldable pub tile_state : (very_old_threshold request_time : ℤ) → StatInfo → TileState
tile_state very_old_threshold request_time stat =
    if ltb_ℤ stat.size (pos 0)
    then tile_missing
    else if stat.expired
    then (if ltb_ℤ (request_time -ℤ scale 1000000 stat.mtime) very_old_threshold
        then tile_old
        else tile_very_old)
    else tile_current

-- The handlers that the hook knows
pub data Handler : Type 0 where
  no_handler tile_status tile_dirty tile_mod_stats tile_json tile_serve other_handler : Handler

-- What the hook reads of the configuration and of the rest of the module: whether the throttling
-- allows a tile in some state, whether the load is above each of the limits, what the store tells at
-- first and at last, and whether `request_tile` with a priority comes back with the tile rendered.
pub record Surroundings : Type 0 where
  pub enable_tile_throttling : Bool
  pub enable_bulk_mode : Bool
  pub enable_global_stats : Bool
  pub very_old_threshold : ℤ
  pub request_time : ℤ
  pub allowed : TileState → Bool
  pub above_max_load_old : Bool
  pub above_max_load_missing : Bool
  pub stat_first : StatInfo
  pub stat_rendered : StatInfo
  pub renders : ℕ → Bool
  pub lock : Bool

-- The result, the state of the tile that the request keeps, the priorities of the calls of
-- `request_tile`, and the counters.
pub record Hooked : Type 0 where
  pub result : Response
  pub state : TileState
  pub requests : List ℕ
  pub stats : StatsData

module _ (e : Surroundings) (z layer : ℕ) where
  abbrev pub with_resp : Response → TileState → List ℕ → StatsData → Hooked
  with_resp resp state requests s = record {
    result = resp;
    state = state;
    requests = requests;
    stats = (inc_resp_counter e.enable_global_stats e.lock resp (some z) layer s).1;
  }

  abbrev pub with_fresh : Freshness → TileState → List ℕ → StatsData → Hooked
  with_fresh status state requests s = record {
    result = resp_ok;
    state = state;
    requests = requests;
    stats = (inc_fresh_counter e.enable_global_stats e.lock status s).1;
  }

  -- What follows a rendering that did not come back in time.
  unfoldable pub not_rendered : TileState → List ℕ → StatsData → Hooked
  not_rendered tile_old requests s = with_fresh old_render tile_old requests s
  not_rendered tile_very_old requests s = with_fresh very_old_render tile_very_old requests s
  not_rendered state requests s = with_resp http_not_found state requests s

  unfoldable pub render_now : TileState → ℕ → StatsData → Hooked
  unfolding not_rendered tile_state
  render_now state render_prio s =
      if e.renders render_prio
      then with_fresh fresh_render (tile_state e.very_old_threshold e.request_time e.stat_rendered)
          (render_prio ∷ []) s
      else not_rendered state (render_prio ∷ []) s

  -- The switch on the state of the tile. A call with the priority 0 marks the tile dirty.
  unfoldable pub serve_state : TileState → StatsData → Hooked
  unfolding render_now
  serve_state tile_current s = with_fresh fresh tile_current [] s
  serve_state tile_old s =
      if e.enable_bulk_mode
      then record { result = resp_ok; state = tile_old; requests = []; stats = s }
      else if e.above_max_load_old
      then with_fresh old tile_old (0 ∷ []) s
      else render_now tile_old 1 s
  serve_state tile_very_old s =
      if e.enable_bulk_mode
      then record { result = resp_ok; state = tile_very_old; requests = []; stats = s }
      else if e.above_max_load_old
      then with_fresh very_old tile_very_old (0 ∷ []) s
      else render_now tile_very_old 2 s
  serve_state tile_missing s =
      if e.above_max_load_missing
      then with_resp http_not_found tile_missing (0 ∷ []) s
      else render_now tile_missing 3 s
  serve_state tile_unknown s = record {
    result = http_internal_server_error;
    state = tile_unknown;
    requests = [];
    stats = s;
  }

  unfoldable pub throttled : TileState → StatsData → Hooked
  unfolding serve_state
  throttled state s =
      if e.enable_tile_throttling && not (e.allowed state)
      then with_resp http_service_unavailable state [] s
      else serve_state state s

  -- The state of the tile is asked for only where it is not known.
  unfoldable pub known_state : TileState → TileState
  unfolding tile_state
  known_state tile_unknown = tile_state e.very_old_threshold e.request_time e.stat_first
  known_state state = state

-- `tile_storage_hook`, with the zoom of the command, if there is one, and the state of the tile that
-- the request holds.
unfoldable pub tile_storage_hook :
    Surroundings → Handler → Option ℕ → ℕ → TileState → StatsData → Hooked
unfolding throttled known_state
tile_storage_hook e tile_serve (some z) layer state s =
    throttled e z layer (known_state e z layer state) s
tile_storage_hook e tile_serve none layer state s = record {
  result = declined;
  state = state;
  requests = [];
  stats = s;
}
tile_storage_hook e no_handler cmd layer state s = record {
  result = declined;
  state = state;
  requests = [];
  stats = s;
}
tile_storage_hook e other_handler cmd layer state s = record {
  result = declined;
  state = state;
  requests = [];
  stats = s;
}
tile_storage_hook e _ cmd layer state s = record {
  result = resp_ok;
  state = state;
  requests = [];
  stats = s;
}
