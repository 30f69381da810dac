-- ===== src/RequestQueue/State.antt =====
-- src/request_queue.c and includes/request_queue.h: the state of the queues, its creation, and what
-- a client can read of it.
use mod_tile.Base.{
  ℕ, ℤ, pos, negsuc, Bool, ◌&&◌, List, [], Option, none, some, ◌==◌, if◌then◌else◌, ite, replicate,
}
use mod_tile.Protocol.{
  ProtoCmd, cmd_render, cmd_dirty, cmd_render_prio, cmd_render_bulk, cmd_render_low,
}
use mod_tile.Item.{
  Ptr, QueueEnum, QueueEnum-discrete, queue_request, queue_request_prio, queue_request_bulk,
  queue_dirty, queue_request_low, Heap,
}
use mod_tile.ItemIndex.{ItemIdx, calc_hash_key, lookup_item_idx}

-- `stats_struct`
pub record Stats : Type 0 where
  pub no_render : QueueEnum → ℕ
  pub no_req_droped : ℕ
  pub no_zoom_render : List ℕ
  pub time_render : QueueEnum → ℕ
  pub time_zoom_render : List ℕ

-- `struct request_queue`, with the memory that its pointers lead to
pub record RequestQueue : Type 0 where
  pub heap : Heap
  pub heads : QueueEnum → List Ptr
  pub nums : QueueEnum → ℕ
  pub hashidx_size : ℕ
  pub item_hashidx : ℕ → ItemIdx
  pub stats : Stats

abbrev pub req_limit : ℕ
req_limit = 256

abbrev pub dirty_limit : ℕ
dirty_limit = 8000

abbrev pub max_zoom : ℕ
max_zoom = 20

abbrev pub fd_invalid : ℤ
fd_invalid = negsuc 0

abbrev pub at {ℓ} : {A : Type ℓ} → (QueueEnum → A) → QueueEnum → A → QueueEnum → A
at f c v d = ite (QueueEnum-discrete c d) v (f d)

-- The bucket of an item, and its replacement in the array.
abbrev pub hash_key : RequestQueue → Ptr → ℕ
hash_key q p = calc_hash_key q.hashidx_size (q.heap.req p) (q.heap.mx p) (q.heap.my p)

abbrev pub with_bucket : RequestQueue → ℕ → ItemIdx → ℕ → ItemIdx
with_bucket q k b j = if k == j then b else q.item_hashidx j

abbrev pub lookup : RequestQueue → Ptr → Option Ptr
lookup q p = lookup_item_idx q.heap (q.item_hashidx (hash_key q p)) p

abbrev pub hashidx_entries : ℕ
hashidx_entries = 2213

-- All counters at zero, as `calloc` leaves them.
abbrev pub no_stats : Stats
no_stats = record {
  no_render = λ c. 0;
  no_req_droped = 0;
  no_zoom_render = replicate 21 0;
  time_render = λ c. 0;
  time_zoom_render = replicate 21 0;
}

-- The queues that are empty, over a heap that is whatever it is.
unfoldable pub empty_queue : Heap → RequestQueue
empty_queue h = record {
  heap = h;
  heads = λ c. [];
  nums = λ c. 0;
  hashidx_size = hashidx_entries;
  item_hashidx = λ k. record { item = none; next = [] };
  stats = no_stats;
}

-- `request_queue_init`; the arguments tell which of its four allocations succeed.
unfoldable pub request_queue_init : Bool → Bool → Bool → Bool → Heap → Option RequestQueue
unfolding empty_queue
request_queue_init calloc_ok mutex_ok cond_ok malloc_ok h =
    if calloc_ok && mutex_ok && cond_ok && malloc_ok then some (empty_queue h) else none

-- `request_queue_no_requests_queued`
unfoldable pub request_queue_no_requests_queued : RequestQueue → ProtoCmd → ℤ
request_queue_no_requests_queued q cmd_render_prio = pos (q.nums queue_request_prio)
request_queue_no_requests_queued q cmd_render = pos (q.nums queue_request)
request_queue_no_requests_queued q cmd_render_low = pos (q.nums queue_request_low)
request_queue_no_requests_queued q cmd_dirty = pos (q.nums queue_dirty)
request_queue_no_requests_queued q cmd_render_bulk = pos (q.nums queue_request_bulk)
request_queue_no_requests_queued q _ = negsuc 0

-- `request_queue_copy_stats`
unfoldable pub request_queue_copy_stats : RequestQueue → Stats
request_queue_copy_stats q = q.stats
