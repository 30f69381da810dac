-- ===== src/TileServer/Rendering.antt =====
-- src/mod_tile.c, `tile_storage_hook` with its calls of `request_tile`: a missing tile on its way
-- from renderd to the client.
use mod_tile.Base.{
  ℕ, ◌≤◌, ◌≡◌, refl, ◌∙◌, ap, Bool, true, false, some, arith, length, if◌then◌else◌,
}
use mod_tile.Protocol.{Protocol}
use mod_tile.RequestTile.{Renderd, request_tile, send_loop, want, answer}
use mod_tile.RequestTile.Reassembly.{readies, request_tile_lem, IsReceived, request_tile-IsReceived}
use mod_tile.TileServer.{
  TileState, tile_missing, Response, resp_ok, http_not_found, StatsData, Surroundings, tile_serve,
  known_state, tile_storage_hook,
}
use mod_tile.TileServer.Decision.{refused, unavailable, decision, tile_storage_hook_lem}

-- The hook's surroundings where each rendering is a conversation with renderd, by its priority.
unfoldable pub with_renderd : Surroundings → (ℕ → Renderd) → Protocol → Surroundings
with_renderd e r cmd = record e { renders = λ p. request_tile (r p) e.enable_bulk_mode cmd p }

module _ (e : Surroundings) (r : ℕ → Renderd) (cmd : Protocol) where
  decision_missing :
      refused e tile_missing ≡ false
      → e.above_max_load_missing ≡ false
      → (b : Bool) → request_tile (r 3) e.enable_bulk_mode cmd 3 ≡ b
      → decision (with_renderd e r cmd) tile_missing ≡ (if b then resp_ok else http_not_found)
  unfolding decision refused unavailable with_renderd
  decision_missing h l true f = rw (h, l, f) refl
  decision_missing h l false f = rw (h, l, f) refl

missing_delivered :
    (b : Bool) (result : Response)
    → result ≡ (if b then resp_ok else http_not_found)
    → result ≡ resp_ok
    → b ≡ true
missing_delivered true result e k = refl
missing_delivered false result e k = absurd (cc)

pub tile_storage_hook-request_tile :
    (e : Surroundings) (r : ℕ → Renderd) (cmd : Protocol) (z layer : ℕ) (state : TileState)
    (s : StatsData)
    → known_state e z layer state ≡ tile_missing
    → refused e tile_missing ≡ false
    → e.above_max_load_missing ≡ false
    → ((tile_storage_hook (with_renderd e r cmd) tile_serve (some z) layer state s).result ≡ resp_ok
        → ((r 3).connects ≡ true)
          × (send_loop (r 3).first_send (r 3).first_again (r 3).last_send (r 3).last_again ≡ true)
          × IsReceived cmd (r 3).stream)
      × ((r 3).connects ≡ true
          → send_loop (r 3).first_send (r 3).first_again (r 3).last_send (r 3).last_again ≡ true
          → length (r 3).stream ≡ want (r 3).stream
          → length (r 3).stream ≤ readies (r 3).events
          → (tile_storage_hook (with_renderd e r cmd) tile_serve (some z) layer state s).result
            ≡ (if answer cmd (r 3).stream then resp_ok else http_not_found))
tile_storage_hook-request_tile e r cmd z layer state s m h l = (
  λ ok. request_tile-IsReceived (r 3) e.enable_bulk_mode cmd 3 (
      missing_delivered (request_tile (r 3) e.enable_bulk_mode cmd 3) _
        (by_verdict (request_tile (r 3) e.enable_bulk_mode cmd 3) refl) ok),
  λ c w n q.
      by_verdict (answer cmd (r 3).stream)
        (request_tile_lem (r 3) e.enable_bulk_mode cmd 3 c w (omega arith) n q),
)
  where
    same : (t : TileState) → known_state (with_renderd e r cmd) z layer t ≡ known_state e z layer t
    same t = unfold known_state with_renderd in ground arith

    by_verdict :
        (b : Bool)
        → request_tile (r 3) e.enable_bulk_mode cmd 3 ≡ b
        → (tile_storage_hook (with_renderd e r cmd) tile_serve (some z) layer state s).result
          ≡ (if b then resp_ok else http_not_found)
    by_verdict b k =
        (tile_storage_hook_lem (with_renderd e r cmd) z layer state s).0
        ∙ ap (decision (with_renderd e r cmd)) (same state ∙ m)
        ∙ decision_missing e r cmd h l b k
