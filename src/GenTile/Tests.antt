-- ===== src/GenTile/Tests.antt =====
-- A run of a rendering thread.
use mod_tile.Base.{◌≡◌, ◌↔◌, pos, List, true, [], ◌∷◌, some, arith, refl}
use mod_tile.Item.{QueueEnum-discrete}
use mod_tile.ItemIndex.{calc_hash_key, chain, lookup_item_idx, insert_item_idx}
use mod_tile.RequestQueue.{RequestQueue, empty_queue, request_queue_add_request}
use mod_tile.RequestQueue.Sample.{heap, start, request}
use mod_tile.RequestQueue.History.{read_item}
use mod_tile.Renderd.Steps.{IsSound, empty-IsSound, receives, Step-IsSound}
use mod_tile.Renderd.{
  serve, receive, rx_request, upgrade, upgrade_name, upgrade_rest, valid_command, wants_answer,
}
use mod_tile.Protocol.{cmd_done, cmd_ignore}
use mod_tile.GenTile.{
  rendered, after_render, World, XmlMapConfig, XmlConfigItem, load_maps, load_map, render_thread,
  answer, render_metatile, check_xyz,
}
use mod_tile.GenTile.Projection.{ProjectionConfig, get_projection}
use mod_tile.GenTile.Answer.{cmd_of, IsRendered, IsOutside, answer_lem}
use mod_tile.GenTile.Drain.{Drains, render_thread-Drains}

abbrev accepted : RequestQueue
accepted = (serve (some 1) start (request 9) (pos 5)).1

accepted-IsSound : IsSound accepted
unfolding serve empty_queue
accepted-IsSound = Step-IsSound (receives 1 (request 9) (pos 5) refl) (empty-IsSound heap)

abbrev world : World
world = record {
  render = λ req mx my. rendered;
  save = λ req mx my. true;
  render_time = λ req mx my. pos 20;
}

abbrev styles : List XmlConfigItem
styles =
    record {
      xmlname = some (request 9).xmlname;
      xmlfile = some [];
      min_zoom = pos 0;
      max_zoom = pos 20;
      tile_dir = [];
    }
    ∷ []

abbrev maps : List XmlMapConfig
maps = load_maps (λ dir. true) (λ file. some []) styles

render_thread-Drains_example :
    Drains (λ n. world) accepted (render_thread 2 (λ n. world) maps accepted)
unfolding serve receive rx_request upgrade upgrade_name upgrade_rest valid_command wants_answer
    request_queue_add_request empty_queue QueueEnum-discrete read_item calc_hash_key chain
    lookup_item_idx insert_item_idx
render_thread-Drains_example =
    render_thread-Drains 2 (λ n. world) maps accepted accepted-IsSound refl (omega arith)

answer_example :
    ((cmd_of (answer world maps (request 9) (pos 8) (pos 0)) ≡ some cmd_done) ↔ (
      (m : XmlMapConfig) × (prj : ProjectionConfig) × IsRendered world
        (request 9)
        (pos 8)
        (pos 0)
        maps
        m
        prj))
    × ((cmd_of (answer world maps (request 9) (pos 8) (pos 0)) ≡ some cmd_ignore) ↔ (
        (m : XmlMapConfig) × (prj : ProjectionConfig) × IsOutside world
          (request 9)
          (pos 8)
          (pos 0)
          maps
          m
          prj))
answer_example = answer_lem world (request 9) (pos 8) (pos 0) maps

-- The request is in the bounds of its style.
is_rendered : cmd_of (answer world maps (request 9) (pos 8) (pos 0)) ≡ some cmd_done
unfolding answer load_maps load_map render_metatile after_render check_xyz get_projection
is_rendered = refl
