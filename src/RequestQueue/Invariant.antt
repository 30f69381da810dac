-- ===== src/RequestQueue/Invariant.antt =====
-- src/request_queue.c: what holds of the queues between two calls.
use mod_tile.Base.{ℕ, ◌≤◌, ◌<◌, ◌≡◌, Bool, true, false, [], count, length, ◌==◌, if◌then◌else◌}
use mod_tile.Item.{Ptr, QueueEnum, queue_dirty, queue_render, queue_duplicate, same_metatile}
use mod_tile.ItemIndex.{chain}
use mod_tile.ItemIndex.Chain.{IsChained}
use mod_tile.RequestQueue.{RequestQueue, hash_key, req_limit, dirty_limit, fd_invalid}

-- The queues that a counter belongs to.
abbrev pub is_waiting : QueueEnum → Bool
is_waiting queue_render = false
is_waiting queue_duplicate = false
is_waiting _ = true

abbrev pub limit : QueueEnum → ℕ
limit queue_dirty = dirty_limit
limit _ = req_limit

-- How often an item is linked into the list that its tag names.
abbrev pub links : RequestQueue → Ptr → ℕ
links q p = count p (q.heads (q.heap.in_queue p))

pub record IsValid (q : RequestQueue) : Type 0 where
  pub counted : (c : QueueEnum) → is_waiting c ≡ true → q.nums c ≡ length (q.heads c)
  pub limited : (c : QueueEnum) → is_waiting c ≡ true → q.nums c ≤ limit c
  pub tagged : (c : QueueEnum) (p : Ptr) → 0 < count p (q.heads c) → q.heap.in_queue p ≡ c
  pub linked_once : (c : QueueEnum) (p : Ptr) → count p (q.heads c) ≤ 1
  pub no_duplicate : q.heads queue_duplicate ≡ []
  pub chained : (k : ℕ) → IsChained (q.item_hashidx k)
  pub indexed :
      (k : ℕ) (p : Ptr)
      → count p (chain (q.item_hashidx k)) ≡ (if hash_key q p == k then links q p else 0)
  pub unique : (p t : Ptr) → 0 < links q p → 0 < links q t → same_metatile q.heap p t ≡ true → p ≡ t
  pub silent :
      (p : Ptr)
      → 0 < count p (q.heads queue_dirty)
      → (q.heap.fd p ≡ fd_invalid) × (q.heap.duplicates p ≡ [])
  pub live : (c : QueueEnum) (p : Ptr) → 0 < count p (q.heads c) → q.heap.allocated p ≡ true

-- A request that its reader has just allocated and filled in.
pub record IsFresh (q : RequestQueue) (p : Ptr) : Type 0 where
  pub unlinked : (c : QueueEnum) → count p (q.heads c) ≡ 0
  pub alone : q.heap.duplicates p ≡ []
  pub allocated : q.heap.allocated p ≡ true
