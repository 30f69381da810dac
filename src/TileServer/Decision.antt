-- ===== src/TileServer/Decision.antt =====
-- src/mod_tile.c, `tile_storage_hook`: when a tile is delivered.
use mod_tile.Base.{
  ℕ, ◌≡◌, ℤ, pos, ltb_ℤ, ◌-ℤ◌, scale, if_both, Bool, false, not, ◌&&◌, ◌||◌, List, [], ◌∷◌, some,
  arith, if◌then◌else◌,
}
use mod_tile.StoreFile.{StatInfo}
use mod_tile.TileServer.{
  TileState, tile_unknown, tile_missing, tile_old, tile_very_old, tile_current, Response, resp_ok,
  http_not_found, http_service_unavailable, StatsData, Surroundings, tile_serve, tile_state,
  not_rendered, render_now, serve_state, throttled, known_state, tile_storage_hook,
}

-- A client that is over its limits is refused. Otherwise a tile is delivered unless there is none and
-- none can be rendered now.
unfoldable pub refused : Surroundings → TileState → Bool
refused e state = e.enable_tile_throttling && not (e.allowed state)

unfoldable pub unavailable : Surroundings → TileState → Bool
unavailable e tile_missing = e.above_max_load_missing || not (e.renders 3)
unavailable e _ = false

unfoldable pub decision : Surroundings → TileState → Response
unfolding refused unavailable
decision e state =
    if refused e state
    then http_service_unavailable
    else if unavailable e state
    then http_not_found
    else resp_ok

-- The priority with which the tile is asked for, 0 being a mere mark that it is dirty.
unfoldable pub asked : Surroundings → TileState → List ℕ
unfolding refused
asked e state = if refused e state then [] else by_state state
  where
    by_state : TileState → List ℕ
    by_state tile_missing = if e.above_max_load_missing then 0 ∷ [] else 3 ∷ []
    by_state tile_very_old =
        if e.enable_bulk_mode then [] else if e.above_max_load_old then 0 ∷ [] else 2 ∷ []
    by_state tile_old =
        if e.enable_bulk_mode then [] else if e.above_max_load_old then 0 ∷ [] else 1 ∷ []
    by_state _ = []

-- A state that the hook works with: it is known.
pub data IsKnown : TileState → Type 0 where
  missing : IsKnown tile_missing
  old : IsKnown tile_old
  very_old : IsKnown tile_very_old
  current : IsKnown tile_current

tile_state-IsKnown : (t r : ℤ) (s : StatInfo) → IsKnown (tile_state t r s)
unfolding tile_state
tile_state-IsKnown t r s = if_both IsKnown (ltb_ℤ s.size (pos 0)) missing (
    if_both IsKnown s.expired (if_both IsKnown (ltb_ℤ (r -ℤ scale 1000000 s.mtime) t) old very_old)
      current)

pub known_state-IsKnown :
    (e : Surroundings) (z layer : ℕ) (state : TileState) → IsKnown (known_state e z layer state)
unfolding known_state
known_state-IsKnown e z layer tile_unknown =
    tile_state-IsKnown e.very_old_threshold e.request_time e.stat_first
known_state-IsKnown e z layer tile_missing = missing
known_state-IsKnown e z layer tile_old = old
known_state-IsKnown e z layer tile_very_old = very_old
known_state-IsKnown e z layer tile_current = current

throttled_lem :
    (e : Surroundings) (z layer : ℕ) (state : TileState) (s : StatsData)
    → IsKnown state
    → ((throttled e z layer state s).result ≡ decision e state)
      × ((throttled e z layer state s).requests ≡ asked e state)
unfolding throttled serve_state render_now not_rendered decision asked refused unavailable
throttled_lem e z layer tile_unknown s x = elim x [ ]
throttled_lem e z layer tile_missing s missing = (ground arith, ground arith)
throttled_lem e z layer tile_old s old = (ground arith, ground arith)
throttled_lem e z layer tile_very_old s very_old = (ground arith, ground arith)
throttled_lem e z layer tile_current s current = (ground arith, ground arith)

-- For a request that the module serves: a client over its limits gets the status 503 and nothing is
-- asked of renderd; otherwise a tile that exists is delivered, however old it is and whatever renderd
-- does, and a missing one exactly if the load allows a rendering and this one succeeds, else the
-- status is 404. Renderd is asked once at most, with a higher priority the older the tile is and the
-- highest if there is none, and never in bulk mode for a tile that exists; above the limits of load the tile is only marked
-- dirty.
pub tile_storage_hook_lem :
    (e : Surroundings) (z layer : ℕ) (state : TileState) (s : StatsData)
    → let st = known_state e z layer state in
      let h = tile_storage_hook e tile_serve (some z) layer state s in
      (h.result ≡ decision e st) × (h.requests ≡ asked e st)
unfolding tile_storage_hook
tile_storage_hook_lem e z layer state s =
    throttled_lem e z layer (known_state e z layer state) s (known_state-IsKnown e z layer state)
