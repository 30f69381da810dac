-- ===== src/Lib.antt =====
-- mod_tile renders and serves map tiles: an Apache module asks the daemon renderd for tiles over a
-- socket, renderd queues the requests, renders 8 x 8 tiles at a time into a metatile, and saves it
-- through a store, from which the module serves.
--
-- The files and the code that they are about, with paths from the root of the repository:
--   Base: numbers, Boolean tests, lists and C integers for all the others.
--   Protocol: includes/protocol.h, the commands and the message.
--   Item: includes/gen_tile.h, `struct item` and `enum queueEnum`. The items are a heap: one function
--     of the address for each field, so that two lists and the index may share an item.
--   ItemIndex: src/request_queue.c, the hash index (`calcHashKey`, `lookup_item_idx`,
--     `insert_item_idx`, `remove_item_idx`).
--   RequestQueue: src/request_queue.c, the queues (`request_queue_add_request`,
--     `request_queue_fetch_request`, `request_queue_remove_request`,
--     `request_queue_clear_requests_by_fd` and the others). Each call is one step, since it holds
--     `qLock`; RequestQueue.History has the sequences of such steps by any threads.
--   TilePath: src/store_file_utils.c, the paths of metatiles and their parsing.
--   FileSystem: src/store_file_utils.c, `mkdirp` and `get_planet_time`, over a map from paths to files.
--   Store: src/store.c, src/store_null.c and src/store_ro_composite.c, from a text to a store, with the
--     memory that is taken on the way. Composite stores nest; the rounds for them are counted down, and
--     one more than the text has bytes are enough.
--   Metatile: src/metatile.cpp, the metatile and the buffer that `save` hands to the store.
--   StoreFile: src/store_file.c, the store that keeps metatiles in files.
--   TileServer: src/mod_tile.c, `tile_state`, `tile_storage_hook` and the counters of the Apache module.
--     Its argument `renders` stands for the calls of `request_tile`, `allowed` for `delay_allowed`;
--     TileServer.Rendering puts the conversation with renderd in.
--   RequestTile: src/mod_tile.c, `request_tile`, the conversation with renderd.
--   ProtocolHelper: src/protocol_helper.c, messages through a socket, and how much of them is read.
--   CacheExpire: src/cache_expire.c, the HTCP packet for a tile.
--   Renderd: src/renderd.c, `rx_request`, `send_response` and `process_loop`. Renderd.Steps has the
--     histories of requests, fetches, answers and closed connections; Renderd.Daemon those of the
--     connections' thread with its slots together with any rendering threads. Renderd.Slave is
--     `slave_thread`, which passes items on to another renderd.
--   GenTile: src/gen_tile.cpp, a rendering thread (`render_thread`, `check_xyz`, `get_projection`).
--     Mapnik and the store are its argument `World`; the rounds that it makes are counted down, and
--     one more than the items that wait are enough.
--   SubmitQueue: src/render_submit_queue.c, the queue from which the command line tools' workers send
--     their requests, with the pointers of its list, the statistics and the address of renderd.
--   StyleParameters: src/parameterize_style.cpp, the SQL text for the languages of a request.
--   TileTranslate: src/mod_tile.c, `tile_translate`, from a URL to a handler and a request.
--   TileHeaders: src/mod_tile.c, `add_cors`, `add_expiry` and `get_global_lock`.
--   RenderdConfig: src/renderd_config.c, the configuration file: the map sections, and in
--     RenderdConfig.Daemon those of the daemons. The values come from the iniparser library.
--   TileLayers: src/mod_tile.c, `add_tile_config`, `load_tile_config` and the like: the layers that
--     `tile_translate` searches, from the directives and the map sections.
--   ServerSettings: src/mod_tile.c, the directives that set a value, `create_tile_config` and
--     `merge_tile_config`; DelayPool and TileHeaders read the result.
--   RenderExpired: src/render_expired.c, the loop over the expired tiles.
--   DelayPool: src/mod_tile.c, `delay_allowed`, the throttling of clients.
--
-- A doubly linked list of the request queue is the list of its items from the head on; its links are not modelled. What the
-- kernel decides (success of a call, how many bytes a `read` or `write` moves, times, contents of
-- files) is an argument. A C `int` of the message is any integer; the hash and the file format keep
-- their widths. All loops are recursions on a list or a count.
--
-- Not modelled: renderd's statistics thread and start, the status, statistics and JSON handlers of the
-- Apache module, Mapnik and the code around it, the stores on
-- memcached, rados and http, reading through a composite store (which calls cairo), logging, and of
-- the command line tools the parsing of options and the loops of render_list and render_old.
pub mod Base
pub mod CacheExpire
pub mod DelayPool
pub mod FileSystem
pub mod GenTile
pub mod Item
pub mod ItemIndex
pub mod Metatile
pub mod Protocol
pub mod ProtocolHelper
pub mod RenderExpired
pub mod Renderd
pub mod RenderdConfig
pub mod RequestQueue
pub mod RequestTile
pub mod ServerSettings
pub mod Store
pub mod StoreFile
pub mod StyleParameters
pub mod SubmitQueue
pub mod TileHeaders
pub mod TileLayers
pub mod TilePath
pub mod TileServer
pub mod TileTranslate
