-- ===== src/RequestQueue/History.antt =====
-- src/request_queue.c: every history of calls, by any number of threads, in any order.
-- A step is one call under `qLock`. Between calls a client thread may allocate an item and fill it
-- in, and any thread may free an item that is in no list. A render thread removes only what it fetched.
use mod_tile.Base.{
  subst, dec_lt, ℕ, ◌<◌, ◌≡◌, refl, ℤ, true, false, [], count, arith, if◌then◌else◌, ◌==◌,
}
use mod_tile.Protocol.{Protocol}
use mod_tile.Item.{Ptr, QueueEnum, Heap, update, queue_render, same_metatile, queue_dirty}
use mod_tile.ItemIndex.{chain}
use mod_tile.RequestQueue.{
  RequestQueue, free_item, fetched, empty_queue, request_queue_add_request,
  request_queue_fetch_request, request_queue_remove_request, request_queue_clear_requests_by_fd,
  fd_invalid, hash_key,
}
use mod_tile.RequestQueue.Invariant.{IsValid, IsFresh, links}
use mod_tile.RequestQueue.FetchValid.{fetch-Sound, Sound}
use mod_tile.RequestQueue.AddValid.{add-IsValid}
use mod_tile.RequestQueue.Remove.{remove-IsValid}
use mod_tile.RequestQueue.Clear.{clear-IsValid}

-- A reader allocates an item at a free address and fills it in.
unfoldable pub read_item : RequestQueue → Ptr → Protocol → ℤ → ℤ → ℤ → RequestQueue
read_item q p req mx my fd = record q {
  heap = record h {
    req = update h.req p req;
    mx = update h.mx p mx;
    my = update h.my p my;
    fd = update h.fd p fd;
    duplicates = update h.duplicates p [];
    allocated = update h.allocated p true;
  };
}
  where
    h : Heap
    h = q.heap

pub data Step (q : RequestQueue) : RequestQueue → Type 0 where
  reads :
      (p : Ptr) (req : Protocol) (mx my fd : ℤ)
      → q.heap.allocated p ≡ false
      → Step q (read_item q p req mx my fd)
  adds : (p : Ptr) → IsFresh q p → Step q (request_queue_add_request q p).1
  fetches : (p : Ptr) (q' : RequestQueue) → request_queue_fetch_request q ≡ fetched p q' → Step q q'
  removes :
      (p : Ptr) (render_time : ℤ)
      → q.heap.in_queue p ≡ queue_render
      → 0 < count p (q.heads queue_render)
      → Step q (request_queue_remove_request q p render_time)
  frees : (p : Ptr) → ((c : QueueEnum) → count p (q.heads c) ≡ 0) → Step q (free_item q p)
  clears : (fd : ℤ) → Step q (request_queue_clear_requests_by_fd q fd)

pub data Reach (q : RequestQueue) : RequestQueue → Type 0 where
  here : Reach q q
  next : {r s : RequestQueue} → Reach q r → Step r s → Reach q s

module _ (q : RequestQueue) (v : IsValid q) (p : Ptr) (req : Protocol) (mx my fd : ℤ)
    (free : q.heap.allocated p ≡ false) where
  unlinked : (c : QueueEnum) → count p (q.heads c) ≡ 0
  unlinked c = ground (arith, v.live c p)

  abbrev after : RequestQueue
  after = read_item q p req mx my fd

  hash_key_read : (t : Ptr) → 0 < links q t → hash_key after t ≡ hash_key q t
  unfolding read_item
  hash_key_read t h = ground (arith, unlinked (q.heap.in_queue t))

  indexed_read :
      (k : ℕ) (t : Ptr)
      → count t (chain (q.item_hashidx k)) ≡ (if hash_key after t == k then links q t else 0)
  indexed_read k t = elim (dec_lt 0 (links q t)) [
    | yes h ↦ rw (hash_key_read t h) (v.indexed k t)
    | no n ↦ ground (arith, v.indexed k t)
  ]

  other : (c : QueueEnum) (t : Ptr) → 0 < count t (q.heads c) → (p == t) ≡ false
  other c t h = ground (arith, unlinked c)

  unique_read :
      (s t : Ptr) → 0 < links q s → 0 < links q t → same_metatile after.heap s t ≡ true → s ≡ t
  unfolding read_item
  unique_read s t hs ht same =
      v.unique s t hs ht
        (rw (other (q.heap.in_queue s) s hs, other (q.heap.in_queue t) t ht) at same)

  silent_read :
      (t : Ptr)
      → 0 < count t (q.heads queue_dirty)
      → (after.heap.fd t ≡ fd_invalid) × (after.heap.duplicates t ≡ [])
  unfolding read_item
  silent_read t h = rw (other queue_dirty t h) (v.silent t h)

  live_read : (c : QueueEnum) (t : Ptr) → 0 < count t (q.heads c) → after.heap.allocated t ≡ true
  unfolding read_item
  live_read c t h = rw (other c t h) (v.live c t h)

  pub read-IsValid : IsValid after
  unfolding read_item
  read-IsValid = record {
    counted = v.counted;
    limited = v.limited;
    tagged = v.tagged;
    linked_once = v.linked_once;
    no_duplicate = v.no_duplicate;
    chained = v.chained;
    indexed = indexed_read;
    unique = unique_read;
    silent = silent_read;
    live = live_read;
  }

  pub read-IsFresh : IsFresh after p
  unfolding read_item
  read-IsFresh = record { unlinked = unlinked; alone = ground arith; allocated = ground arith }

pub release-IsValid :
    (q : RequestQueue) (p : Ptr)
    → ((c : QueueEnum) → count p (q.heads c) ≡ 0)
    → IsValid q
    → IsValid (free_item q p)
unfolding free_item
release-IsValid q p unlinked v = record {
  counted = v.counted;
  limited = v.limited;
  tagged = v.tagged;
  linked_once = v.linked_once;
  no_duplicate = v.no_duplicate;
  chained = v.chained;
  indexed = v.indexed;
  unique = v.unique;
  silent = v.silent;
  live = λ c t h. ground (arith, unlinked c, v.live c t h);
}

pub empty-IsValid : (h : Heap) → IsValid (empty_queue h)
unfolding empty_queue chain
empty-IsValid h = record {
  counted = λ c w. refl;
  limited = λ c w. omega arith;
  tagged = λ c p k. absurd (omega arith);
  linked_once = λ c p. omega arith;
  no_duplicate = refl;
  chained = λ k. record { none_behind = λ e. refl };
  indexed = λ k p. ground arith;
  unique = λ p t hp ht same. absurd (omega arith);
  silent = λ p k. absurd (omega arith);
  live = λ c p k. absurd (omega arith);
}

pub Step-IsValid : {q r : RequestQueue} → Step q r → IsValid q → IsValid r
Step-IsValid {q} (reads p req mx my fd free) v = read-IsValid q v p req mx my fd free
Step-IsValid {q} (adds p f) v = add-IsValid q p v f
Step-IsValid {q} (fetches p q' e) v = subst Sound e (fetch-Sound q v)
Step-IsValid {q} (removes p t r h) v = remove-IsValid q p t v r h
Step-IsValid {q} (frees p u) v = release-IsValid q p u v
Step-IsValid {q} (clears fd) v = clear-IsValid q fd v

-- Whatever the threads do, where they free only items that are in no list, and free addresses may be
-- used again, from valid queues on the queues stay valid: the counters are the
-- lengths of the lists and within their limits, an item is in one list at most, the index holds
-- exactly the linked items, no metatile is queued twice, dirty items answer nobody, and no linked
-- item has been freed.
pub Reach-IsValid : {q r : RequestQueue} → IsValid q → Reach q r → IsValid r
Reach-IsValid v here = v
Reach-IsValid v (next r s) = Step-IsValid s (Reach-IsValid v r)
