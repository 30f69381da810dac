-- ===== src/GenTile.antt =====
-- src/gen_tile.cpp: a rendering thread of renderd. Mapnik, the stores and the clock are parameters.
-- The pause after a failure, the exit that an unknown exception of the store requests, and the expiry of other
-- caches after a metatile is saved have no effect on the queues and are left out.
pub mod Projection
pub mod Answer
pub mod Drain
mod Tests
use mod_tile.Base.{
  ℕ, zero, suc, ◌*◌, ◌^◌, ◌-◌, ℤ, pos, negsuc, pos_part, ltb_ℤ, ◌-ℤ◌, Bool, true, false, not, ◌&&◌,
  ◌||◌, List, [], ◌∷◌, ◌++◌, Option, none, some, if◌then◌else◌, eq_list, leb, ltb,
}
use mathlib.Core.Option
use mod_tile.Protocol.{Protocol, ProtoCmd, cmd_done, cmd_ignore, cmd_not_done}
use mod_tile.Item.{Ptr, Heap}
use mod_tile.RequestQueue.{
  RequestQueue, Fetched, blocked, fault, fetched, request_queue_fetch_request,
}
use mod_tile.Renderd.{Message, send_response}
use mod_tile.GenTile.Projection.{ProjectionConfig, get_projection}

-- What `xmlconfigitem` gives of a style: its names, where both are set, and its zooms.
pub record XmlConfigItem : Type 0 where
  pub xmlname : Option (List ℕ)
  pub xmlfile : Option (List ℕ)
  pub min_zoom : ℤ
  pub max_zoom : ℤ
  pub tile_dir : List ℕ

-- `xmlmapconfig`, with a projection where the style has been loaded, that is, where `ok` is set.
pub record XmlMapConfig : Type 0 where
  pub xmlname : List ℕ
  pub minzoom : ℤ
  pub maxzoom : ℤ
  pub prj : Option ProjectionConfig

-- The first loop of `render_thread`, which ends at the first style that lacks a name. `init_store`
-- tells whether the store of a directory can be opened; `load` is the projection that Mapnik reads
-- from a file, if it can load it.
unfoldable pub load_map :
    (List ℕ → Bool) → (List ℕ → Option (List ℕ)) → List ℕ → List ℕ → XmlConfigItem → XmlMapConfig
load_map init_store load name file c = record {
  xmlname = name;
  minzoom = c.min_zoom;
  maxzoom = c.max_zoom;
  prj = if init_store c.tile_dir then Option.map get_projection (load file) else none;
}

unfoldable pub load_maps :
    (List ℕ → Bool) → (List ℕ → Option (List ℕ)) → List XmlConfigItem → List XmlMapConfig
unfolding load_map
load_maps init_store load [] = []
load_maps init_store load (c ∷ cs) =
    let rest = load_maps init_store load cs in
    elim c.xmlname [
      | none ↦ []
      | some name ↦ elim c.xmlfile [
        | none ↦ []
        | some file ↦ load_map init_store load name file c ∷ rest
      ]
    ]

-- The zooms of a style are not negative, so neither is a zoom that the shift meets.
unfoldable pub check_xyz : ℤ → ℤ → ℤ → ℤ → ℤ → ProjectionConfig → Bool
check_xyz x y z minzoom maxzoom prj =
    not (ltb_ℤ z minzoom || ltb_ℤ maxzoom z)
    && not (
        ltb_ℤ x (pos 0)
        || ltb_ℤ (pos (2 ^ pos_part z * prj.aspect_x) -ℤ pos 1) x
        || ltb_ℤ y (pos 0)
        || ltb_ℤ (pos (2 ^ pos_part z * prj.aspect_y) -ℤ pos 1) y)

-- `render` of a metatile succeeds, fails with an exception that it catches, or is left by an exception:
-- what it calls outside of its `try` can raise one, which nothing catches, so the process ends.
pub data Rendering : Type 0 where
  rendered failed raised : Rendering

-- What a rendering thread reaches outside: Mapnik, which renders a metatile or fails, the store, which
-- saves it or raises an exception, and the milliseconds that the rendering took.
pub record World : Type 0 where
  pub render : Protocol → ℤ → ℤ → Rendering
  pub save : Protocol → ℤ → ℤ → Bool
  pub render_time : Protocol → ℤ → ℤ → ℤ

-- The answer to an item and the time that is counted for it, or none since the process ends.
abbrev pub Answer : Type 0
Answer = Option (ProtoCmd × ℤ)

unfoldable pub after_render : Rendering → (saves : Bool) → (time : ℤ) → Answer
after_render rendered saves time = some (if saves then cmd_done else cmd_not_done, time)
after_render failed saves time = some (cmd_not_done, time)
after_render raised saves time = none

-- One item of a style that is loaded.
unfoldable pub render_metatile : World → XmlMapConfig → ProjectionConfig → Protocol → ℤ → ℤ → Answer
unfolding after_render
render_metatile world m prj req mx my =
    if check_xyz mx my req.z m.minzoom m.maxzoom prj
    then after_render (world.render req mx my) (world.save req mx my) (world.render_time req mx my)
    else some (cmd_ignore, negsuc 0)

-- The first style of the item's name decides.
unfoldable pub answer : World → List XmlMapConfig → Protocol → ℤ → ℤ → Answer
unfolding render_metatile
answer world [] req mx my = some (cmd_not_done, negsuc 0)
answer world (m ∷ ms) req mx my =
    let rest = answer world ms req mx my in
    if eq_list m.xmlname req.xmlname
    then elim m.prj [
      | none ↦ some (cmd_not_done, negsuc 0)
      | some prj ↦ render_metatile world m prj req mx my
    ]
    else rest

-- One round of a rendering thread: it waits, it takes a list's head for an item, the process ends by an
-- exception, or it answers an item.
pub data Round : Type 0 where
  waits faults dies : Round
  went : List Message → RequestQueue → Round

unfoldable pub after_answer : RequestQueue → Ptr → Answer → Round
after_answer q p none = dies
after_answer q p (some (rsp, time)) = let (sent, q') = send_response q p rsp time in went sent q'

unfoldable pub round : World → List XmlMapConfig → Fetched → Round
unfolding answer after_answer
round world ms blocked = waits
round world ms fault = faults
round world ms (fetched p q) =
    after_answer q p (answer world ms (q.heap.req p) (q.heap.mx p) (q.heap.my p))

-- How a number of rounds ends: at a wait, at a fault, with the process, or with rounds to go.
pub data Rounds : Type 0 where
  idle : List Message → RequestQueue → Rounds
  lost : Rounds
  died : List Message → Rounds
  busy : List Message → RequestQueue → Rounds

unfoldable pub then_sent : List Message → Rounds → Rounds
then_sent sent (idle more q) = idle (sent ++ more) q
then_sent sent lost = lost
then_sent sent (died more) = died (sent ++ more)
then_sent sent (busy more q) = busy (sent ++ more) q

-- The second loop of `render_thread`, for a number of rounds in which no other thread comes between;
-- `worlds` gives what the thread meets outside, by the rounds that are left.
unfoldable pub render_thread : ℕ → (ℕ → World) → List XmlMapConfig → RequestQueue → Rounds
unfolding then_sent
render_thread zero worlds ms q = busy [] q
render_thread (suc n) worlds ms q =
    let next = render_thread n worlds ms in
    elim (round (worlds n) ms (request_queue_fetch_request q)) [
      | waits ↦ idle [] q
      | faults ↦ lost
      | dies ↦ died []
      | went sent q' ↦ then_sent sent (next q')
    ]
