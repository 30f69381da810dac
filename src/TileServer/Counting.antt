-- ===== src/TileServer/Counting.antt =====
-- src/mod_tile.c, `tile_storage_hook`: the counters of its answers.
use mod_tile.Base.{ℕ, ◌+◌, ◌≡◌, Bool, true, false, not, ◌&&◌, some, arith, if◌then◌else◌}
use mod_tile.TileServer.{
  TileState, tile_unknown, tile_missing, tile_old, tile_very_old, tile_current, StatsData,
  Surroundings, tile_serve, inc_resp_counter, count_response, inc_fresh_counter, count_fresh,
  not_rendered, render_now, serve_state, throttled, known_state, tile_storage_hook,
}
use mod_tile.TileServer.Decision.{
  IsKnown, missing, old, very_old, current, known_state-IsKnown, refused,
}

-- All answers of the hook that have a counter: the six of the cache, and those of the refusals.
unfoldable pub answers : StatsData → ℕ
answers s =
    s.no_fresh_cache + s.no_fresh_render + s.no_old_cache + s.no_old_render + s.no_very_old_cache
    + s.no_very_old_render + s.no_resp404 + s.no_resp503

-- In bulk mode a tile that is out of date is delivered without a count.
unfoldable pub uncounted : Surroundings → TileState → Bool
unfolding refused
uncounted e tile_old = e.enable_bulk_mode && not (refused e tile_old)
uncounted e tile_very_old = e.enable_bulk_mode && not (refused e tile_very_old)
uncounted e _ = false

throttled_counts :
    (e : Surroundings) (z layer : ℕ) (state : TileState) (s : StatsData)
    → e.enable_global_stats ≡ true
    → e.lock ≡ true
    → IsKnown state
    → answers (throttled e z layer state s).stats ≡ answers s + (if uncounted e state then 0 else 1)
unfolding throttled serve_state render_now not_rendered inc_resp_counter count_response
    inc_fresh_counter count_fresh answers uncounted refused
throttled_counts e z layer tile_unknown s g l x = elim x [ ]
throttled_counts e z layer tile_missing s g l missing = ground arith
throttled_counts e z layer tile_old s g l old = ground arith
throttled_counts e z layer tile_very_old s g l very_old = ground arith
throttled_counts e z layer tile_current s g l current = ground arith

-- With global statistics, and where the lock of the counters is had: one request for a tile adds one
-- to the sum of the counters for the states of the cache, for tiles not found and for refused clients;
-- but a tile out of date that is delivered in bulk mode leaves the sum as it is.
pub tile_storage_hook_counts :
    (e : Surroundings) (z layer : ℕ) (state : TileState) (s : StatsData)
    → e.enable_global_stats ≡ true
    → e.lock ≡ true
    → answers (tile_storage_hook e tile_serve (some z) layer state s).stats
      ≡ answers s + (if uncounted e (known_state e z layer state) then 0 else 1)
unfolding tile_storage_hook
tile_storage_hook_counts e z layer state s g l =
    throttled_counts e z layer (known_state e z layer state) s g l
      (known_state-IsKnown e z layer state)
