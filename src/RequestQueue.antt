-- ===== src/RequestQueue.antt =====
-- src/request_queue.c: the queues of metatiles that wait for renderd's render threads, with the
-- index that finds a metatile in them. A call runs with `qLock` held from its first access to its
-- last, so each is one step. The list heads `reqHead`, `reqPrioHead`, `reqLowHead`, `reqBulkHead`,
-- `dirtyHead` and `renderHead` are `heads` at the tag that an item in that list carries, each list
-- from `next` of its head on; `reqNum` to `dirtyNum`, and the counters of `stats_struct` that are
-- kept for each queue, are functions of the tag likewise.
mod State
pub mod Invariant
pub mod Lookup
pub mod Fetch
pub mod FetchValid
pub mod Add
pub mod AddValid
pub mod Answer
pub mod Remove
pub mod Clear
pub mod History
pub mod Owned
pub mod Queued
pub mod Sample
mod Tests
unfoldable pub use State.*
use mod_tile.Base.{
  ℕ, ◌+◌, ◌-◌, ℤ, pos, negsuc, pos_part, eq_ℤ, ltb_ℤ, Bool, true, false, ◌&&◌, List, [], ◌∷◌, ◌++◌,
  Option, none, some, ltb, ◌==◌, if◌then◌else◌, ite, erase, set, get_or, replicate,
}
use mod_tile.Protocol.{
  ProtoCmd, cmd_ignore, cmd_render, cmd_dirty, cmd_not_done, cmd_render_prio, cmd_render_bulk,
  cmd_render_low, eq_cmd,
}
use mod_tile.Item.{
  Ptr, QueueEnum, QueueEnum-discrete, queue_request, queue_request_prio, queue_request_bulk,
  queue_dirty, queue_render, queue_duplicate, queue_request_low, Heap, update,
}
use mod_tile.ItemIndex.{ItemIdx, calc_hash_key, lookup_item_idx, insert_item_idx, remove_item_idx}

unfoldable pub attach_duplicate : RequestQueue → Ptr → Ptr → RequestQueue
attach_duplicate q test item = record q {
  heap = record h {
    duplicates = update (update h.duplicates test older) item (test ∷ older);
    in_queue = update h.in_queue test queue_duplicate;
  };
}
  where
    h : Heap
    h = q.heap

    older : List Ptr
    older = h.duplicates item

-- The switch of `pending` on the queue in which the matching item stands.
pub pending_in : QueueEnum → RequestQueue → Ptr → Ptr → ProtoCmd × RequestQueue
unfolding attach_duplicate
pending_in queue_render q test item = (cmd_ignore, attach_duplicate q test item)
pending_in queue_request q test item = (cmd_ignore, attach_duplicate q test item)
pending_in queue_request_prio q test item = (cmd_ignore, attach_duplicate q test item)
pending_in queue_request_low q test item = (cmd_ignore, attach_duplicate q test item)
pending_in queue_dirty q test item = (cmd_not_done, q)
pending_in queue_request_bulk q test item = (cmd_not_done, q)
pending_in queue_duplicate q test item = (cmd_render, q)

pending : RequestQueue → Ptr → ProtoCmd × RequestQueue
unfolding pending_in
pending q test = elim (lookup q test) [
  | none ↦ (cmd_render, q)
  | some item ↦ pending_in (q.heap.in_queue item) q test item
]

-- `free(item)`
unfoldable pub free_item : RequestQueue → Ptr → RequestQueue
free_item q p = record q { heap = record h { allocated = update h.allocated p false } }
  where
    h : Heap
    h = q.heap

-- The choice of a list for a new request; `none` where every list open to it is full.
pub choose_queue : RequestQueue → ProtoCmd → Option QueueEnum
unfolding eq_cmd
choose_queue q cmd =
    if eq_cmd cmd cmd_render && ltb (q.nums queue_request) req_limit
    then some queue_request
    else if eq_cmd cmd cmd_render_prio && ltb (q.nums queue_request_prio) req_limit
    then some queue_request_prio
    else if eq_cmd cmd cmd_render_low && ltb (q.nums queue_request_low) req_limit
    then some queue_request_low
    else if eq_cmd cmd cmd_render_bulk && ltb (q.nums queue_request_bulk) req_limit
    then some queue_request_bulk
    else if ltb (q.nums queue_dirty) dirty_limit
    then some queue_dirty
    else none

-- The chosen queue takes the item at its end, counts it and indexes it. Nobody waits for the
-- rendering of a dirty tile, so its item loses the descriptor.
unfoldable pub enqueue : RequestQueue → Ptr → QueueEnum → RequestQueue
enqueue q p c = record q {
  heap = record h {
    in_queue = update h.in_queue p c;
    originated_queue = update h.originated_queue p c;
    fd = ite (QueueEnum-discrete c queue_dirty) (update h.fd p fd_invalid) h.fd;
  };
  nums = at q.nums c (q.nums c + 1);
  heads = at q.heads c (q.heads c ++ p ∷ []);
  item_hashidx = with_bucket q k (insert_item_idx (q.item_hashidx k) p);
}
  where
    h : Heap
    h = q.heap

    k : ℕ
    k = hash_key q p

unfoldable pub drop_request : RequestQueue → Ptr → RequestQueue
drop_request q p =
    free_item (record q { stats = record q.stats { no_req_droped = q.stats.no_req_droped + 1 } }) p

-- A request for a metatile that no queue holds.
unfoldable pub add_new : RequestQueue → Ptr → ProtoCmd × RequestQueue
unfolding choose_queue enqueue drop_request
add_new q p = elim (choose_queue q (q.heap.req p).cmd) [
  | none ↦ (cmd_not_done, drop_request q p)
  | some c ↦ (ite (QueueEnum-discrete c queue_dirty) cmd_not_done cmd_ignore, enqueue q p c)
]

-- What `request_queue_add_request` does with the answer of `pending`.
add_pending : ProtoCmd × RequestQueue → Ptr → ProtoCmd × RequestQueue
unfolding add_new
add_pending (cmd_not_done, q) p = (cmd_not_done, free_item q p)
add_pending (cmd_ignore, q) p = (cmd_ignore, q)
add_pending (_, q) p = add_new q p

-- `request_queue_add_request`, on a queue that is not null
unfoldable pub request_queue_add_request : RequestQueue → Ptr → ProtoCmd × RequestQueue
unfolding pending add_pending
request_queue_add_request q p = add_pending (pending q p) p

-- `blocked` is a wait for `qCond`; `fault` would take a list's head for an item.
pub data Fetched : Type 0 where
  blocked fault : Fetched
  fetched : Ptr → RequestQueue → Fetched

-- The first item of a list goes over to the front of the list of those being rendered.
unfoldable pub rendered : RequestQueue → QueueEnum → Ptr → List Ptr → RequestQueue
rendered q c p rest = record q {
  heap = record h { in_queue = update h.in_queue p queue_render };
  heads = at (at q.heads c rest) queue_render (p ∷ q.heads queue_render);
  nums = at q.nums c (q.nums c - 1);
  stats = record q.stats { no_render = at n c (n c + 1) };
}
  where
    h : Heap
    h = q.heap

    n : QueueEnum → ℕ
    n = q.stats.no_render

render_next : RequestQueue → QueueEnum → Fetched
unfolding rendered
render_next q c = elim (q.heads c) [ [] ↦ fault | p ∷ rest ↦ fetched p (rendered q c p rest) ]

-- The queue that is served next, by the counters.
unfoldable pub next_queue : RequestQueue → Option QueueEnum
next_queue q =
    if ltb 0 (q.nums queue_request_prio)
    then some queue_request_prio
    else if ltb 0 (q.nums queue_request)
    then some queue_request
    else if ltb 0 (q.nums queue_request_low)
    then some queue_request_low
    else if ltb 0 (q.nums queue_dirty)
    then some queue_dirty
    else if ltb 0 (q.nums queue_request_bulk)
    then some queue_request_bulk
    else none

unfoldable pub request_queue_fetch_request : RequestQueue → Fetched
unfolding render_next next_queue
request_queue_fetch_request q = elim (next_queue q) [ none ↦ blocked | some c ↦ render_next q c ]

-- A write at an index that is outside the array is left out here.
add_at : List ℕ → ℤ → ℕ → List ℕ
add_at xs (pos i) n = set xs i (get_or xs i 0 + n)
add_at xs (negsuc i) n = xs

-- The totals by queue of origin and by zoom.
count_render : RequestQueue → Ptr → ℕ → Stats
unfolding add_at
count_render q p n = record s {
  time_render = elim origin [
    | queue_render ↦ s.time_render
    | queue_duplicate ↦ s.time_render
    | c ↦ at s.time_render c (s.time_render c + n)
  ];
  no_zoom_render = add_at s.no_zoom_render (q.heap.req p).z 1;
  time_zoom_render = add_at s.time_zoom_render (q.heap.req p).z n;
}
  where
    s : Stats
    s = q.stats

    origin : QueueEnum
    origin = q.heap.originated_queue p

-- The item leaves the list that it is linked into, and the index. The times are counted only if
-- there is one.
unfoldable pub request_queue_remove_request : RequestQueue → Ptr → ℤ → RequestQueue
unfolding count_render
request_queue_remove_request q p render_time = record q {
  stats = if ltb_ℤ (pos 0) render_time then count_render q p (pos_part render_time) else q.stats;
  heads = λ c. erase p (q.heads c);
  item_hashidx = with_bucket q k (remove_item_idx q.heap (q.item_hashidx k) p);
}
  where
    k : ℕ
    k = hash_key q p

-- The descriptors of some items, without the one that became invalid.
pub clear_fd : ℤ → List Ptr → (Ptr → ℤ) → Ptr → ℤ
clear_fd gone [] fd = fd
clear_fd gone (p ∷ ps) fd =
    clear_fd gone ps (if eq_ℤ (fd p) gone then update fd p fd_invalid else fd)

-- One list, each item with its duplicates.
pub clear_list : ℤ → (Ptr → List Ptr) → List Ptr → (Ptr → ℤ) → Ptr → ℤ
unfolding clear_fd
clear_list gone duplicates [] fd = fd
clear_list gone duplicates (p ∷ ps) fd =
    clear_list gone duplicates ps (clear_fd gone (p ∷ duplicates p) fd)

pub clear_lists : ℤ → RequestQueue → List QueueEnum → (Ptr → ℤ) → Ptr → ℤ
unfolding clear_list
clear_lists gone q [] fd = fd
clear_lists gone q (c ∷ cs) fd =
    clear_lists gone q cs (clear_list gone q.heap.duplicates (q.heads c) fd)

abbrev pub cleared_queues : List QueueEnum
cleared_queues =
    queue_request ∷ queue_render ∷ queue_request_prio ∷ queue_request_bulk ∷ queue_request_low ∷ []

unfoldable pub request_queue_clear_requests_by_fd : RequestQueue → ℤ → RequestQueue
unfolding clear_lists
request_queue_clear_requests_by_fd q gone = record q {
  heap = record h { fd = clear_lists gone q cleared_queues h.fd };
}
  where
    h : Heap
    h = q.heap
