-- ===== src/TileServer/Tests.antt =====
-- Requests for a missing tile and for an old one.
use mod_tile.Base.{
  List, ℕ, replicate, arith, ◌+◌, ◌≡◌, refl, pos, negsuc, true, false, [], ◌∷◌, some, ◌==◌,
  if◌then◌else◌,
}
use mod_tile.Protocol.{Protocol, cmd_render}
use mod_tile.StoreFile.{get32}
use mod_tile.RequestTile.{Renderd, ready, sent, answer, send_loop, sent_all, want}
use mod_tile.RequestTile.Reassembly.{readies}
use mod_tile.TileServer.Rendering.{with_renderd, tile_storage_hook-request_tile}
use mod_tile.TileServer.Decision.{refused}
use mod_tile.TileServer.{http_not_found}
use mod_tile.StoreFile.{StatInfo}
use mod_tile.TileServer.{
  Response, tile_unknown, tile_old, resp_ok, StatsData, Surroundings, tile_serve, tile_state,
  known_state, tile_storage_hook,
}
use mod_tile.TileServer.Decision.{decision, asked, tile_storage_hook_lem}
use mod_tile.TileServer.Counting.{answers, uncounted, tile_storage_hook_counts}

abbrev zero_stats : StatsData
zero_stats = record {
  no_resp200 = 0;
  no_resp304 = 0;
  no_resp404 = 0;
  no_resp503 = 0;
  no_resp5xx = 0;
  no_resp_other = 0;
  no_fresh_cache = 0;
  no_fresh_render = 0;
  no_old_cache = 0;
  no_old_render = 0;
  no_very_old_cache = 0;
  no_very_old_render = 0;
  no_resp_zoom = λ z. 0;
  total_buffer_retrieval_time = 0;
  no_total_buffer_retrieval = 0;
  zoom_buffer_retrieval_time = λ z. 0;
  no_zoom_buffer_retrieval = λ z. 0;
  no_resp200_layer = λ l. 0;
  no_resp404_layer = λ l. 0;
}

abbrev no_file : StatInfo
no_file = record { size = negsuc 0; atime = pos 0; mtime = pos 0; ctime = pos 0; expired = true }

abbrev new_file : StatInfo
new_file = record { size = pos 10; atime = pos 9; mtime = pos 9; ctime = pos 9; expired = false }

-- The tile is missing, and a rendering with the highest priority succeeds.
abbrev on_demand : Surroundings
on_demand = record {
  enable_tile_throttling = false;
  enable_bulk_mode = false;
  enable_global_stats = true;
  very_old_threshold = pos 1000;
  request_time = pos 10000000;
  allowed = λ t. true;
  above_max_load_old = false;
  above_max_load_missing = false;
  stat_first = no_file;
  stat_rendered = new_file;
  renders = λ p. p == 3;
  lock = true;
}

tile_storage_hook_lem_example :
    let h = tile_storage_hook on_demand tile_serve (some 5) 0 tile_unknown zero_stats in
    (h.result ≡ decision on_demand (known_state on_demand 5 0 tile_unknown))
    × (h.requests ≡ asked on_demand (known_state on_demand 5 0 tile_unknown))
tile_storage_hook_lem_example = tile_storage_hook_lem on_demand 5 0 tile_unknown zero_stats

-- The decision is to deliver it, after one call with the priority 3.
delivered :
    (decision on_demand (known_state on_demand 5 0 tile_unknown) ≡ resp_ok)
    × (asked on_demand (known_state on_demand 5 0 tile_unknown) ≡ 3 ∷ [])
unfolding decision asked known_state tile_state
delivered = (refl, refl)

tile_storage_hook_counts_example :
    answers (tile_storage_hook on_demand tile_serve (some 5) 0 tile_old zero_stats).stats
    ≡ answers zero_stats
      + (if uncounted on_demand (known_state on_demand 5 0 tile_old) then 0 else 1)
tile_storage_hook_counts_example =
    tile_storage_hook_counts on_demand 5 0 tile_old zero_stats refl refl

abbrev request : Protocol
request = record {
  ver = pos 2;
  cmd = cmd_render;
  x = pos 5;
  y = pos 6;
  z = pos 7;
  xmlname = b'o' ∷ [];
  mimetype = [];
  options = [];
}

-- Version 2, `cmdDone`, and the tile that was asked for.
abbrev done : List ℕ
done =
    2
    ∷ 0
    ∷ 0
    ∷ 0
    ∷ 3
    ∷ 0
    ∷ 0
    ∷ 0
    ∷ 5
    ∷ 0
    ∷ 0
    ∷ 0
    ∷ 6
    ∷ 0
    ∷ 0
    ∷ 0
    ∷ 7
    ∷ 0
    ∷ 0
    ∷ 0
    ∷ b'o'
    ∷ replicate 43 0

abbrev renderd : ℕ → Renderd
renderd p = record {
  connects = true;
  first_send = sent 64;
  first_again = false;
  last_send = sent 0;
  last_again = false;
  events = replicate 64 (ready 0);
  stream = done;
}

abbrev hook_result : Response
hook_result =
    (tile_storage_hook (with_renderd on_demand renderd request) tile_serve (some 7) 0 tile_unknown
      zero_stats).result

-- The answer is whole and comes in time.
comes_whole : hook_result ≡ (if answer request done then resp_ok else http_not_found)
unfolding known_state tile_state refused send_loop sent_all want get32 readies
comes_whole =
    (tile_storage_hook-request_tile on_demand renderd request 7 0 tile_unknown zero_stats refl refl
        refl).1
      refl refl refl (omega arith)
