-- ===== src/RequestQueue/Tests.antt =====
-- Runs of the request queue, and its theorems at concrete inputs.
use mod_tile.Base.{subst, ◌⊎◌, pos, ◌≡◌, ◌≢◌, refl, false, [], ◌∷◌, some, arith}
use mod_tile.Protocol.{cmd_ignore}
use mod_tile.Item.{queue_request, QueueEnum-discrete}
use mod_tile.ItemIndex.{calc_hash_key, chain, lookup_item_idx, insert_item_idx}
use mod_tile.RequestQueue.{
  free_item, RequestQueue, rendered, fd_invalid, fetched, empty_queue, request_queue_add_request,
  request_queue_fetch_request, request_queue_clear_requests_by_fd, lookup,
}
use mod_tile.RequestQueue.Sample.{heap, start, request}
use mod_tile.RequestQueue.Invariant.{IsValid, IsFresh}
use mod_tile.RequestQueue.History.{
  Reach, here, next, reads, frees, read-IsValid, adds, read_item, read-IsFresh, empty-IsValid,
  Reach-IsValid,
}
use mod_tile.RequestQueue.AddValid.{add-IsValid}
use mod_tile.RequestQueue.Answer.{Promise, add-Promise}
use mod_tile.RequestQueue.FetchValid.{fetch-Sound, Sound}
use mod_tile.RequestQueue.Clear.{clear_silences}
use mod_tile.RequestQueue.Fetch.{TakesFirst, waiting, fetch-TakesFirst}

-- Item 1 is read and queued, item 2 asks for the same metatile.
abbrev one_read : RequestQueue
one_read = read_item start 1 (request 8) (pos 8) (pos 0) (pos 5)

abbrev one_queued : RequestQueue
one_queued = (request_queue_add_request one_read 1).1

abbrev two_read : RequestQueue
two_read = read_item one_queued 2 (request 9) (pos 8) (pos 0) (pos 6)

two_queued : RequestQueue
two_queued = (request_queue_add_request two_read 2).1

-- A render thread takes item 1.
rendering : RequestQueue
unfolding rendered
rendering = rendered one_queued queue_request 1 []

-- The second request joins the first one, and the same metatile is found for both.
joins_first :
    ((request_queue_add_request one_read 1).0 ≡ cmd_ignore)
    × ((request_queue_add_request two_read 2).0 ≡ cmd_ignore)
    × (two_queued.heap.duplicates 1 ≡ 2 ∷ [])
    × (lookup two_queued 2 ≡ some 1)
unfolding two_queued request_queue_add_request empty_queue QueueEnum-discrete read_item
    calc_hash_key chain lookup_item_idx insert_item_idx
joins_first = (refl, refl, refl, refl)

fetches_first : request_queue_fetch_request one_queued ≡ fetched 1 rendering
unfolding rendering request_queue_add_request empty_queue QueueEnum-discrete read_item calc_hash_key
    chain lookup_item_idx insert_item_idx request_queue_fetch_request
fetches_first = refl

one-IsFresh : IsFresh one_read 1
one-IsFresh =
    read-IsFresh start (empty-IsValid heap) 1 (request 8) (pos 8) (pos 0) (pos 5)
      (unfold empty_queue in refl)

history : Reach start one_queued
history =
    next (next here (reads 1 (request 8) (pos 8) (pos 0) (pos 5) (unfold empty_queue in refl)))
      (adds 1 one-IsFresh)

one_queued-IsValid : IsValid one_queued
one_queued-IsValid = Reach-IsValid (empty-IsValid heap) history

two-IsFresh : IsFresh two_read 2
unfolding request_queue_add_request empty_queue QueueEnum-discrete read_item calc_hash_key chain
    lookup_item_idx insert_item_idx
two-IsFresh = read-IsFresh one_queued one_queued-IsValid 2 (request 9) (pos 8) (pos 0) (pos 6) refl

two_queued-IsValid : IsValid two_queued
unfolding two_queued
two_queued-IsValid =
    add-IsValid two_read 2
      (read-IsValid one_queued one_queued-IsValid 2 (request 9) (pos 8) (pos 0) (pos 6) free)
      two-IsFresh
  where
    free : one_queued.heap.allocated 2 ≡ false
    free =
        unfold request_queue_add_request empty_queue QueueEnum-discrete read_item calc_hash_key
          chain lookup_item_idx insert_item_idx in
        refl

-- A second item is read, and freed before it is in a list; its address may be used again.
second_freed : Reach start (free_item two_read 2)
second_freed =
    next (next history (reads 2 (request 9) (pos 8) (pos 0) (pos 6) free))
      (frees 2 two-IsFresh.unlinked)
  where
    free : one_queued.heap.allocated 2 ≡ false
    free =
        unfold request_queue_add_request empty_queue QueueEnum-discrete read_item calc_hash_key
          chain lookup_item_idx insert_item_idx in
        refl

Reach-IsValid_example : IsValid (free_item two_read 2)
Reach-IsValid_example = Reach-IsValid (empty-IsValid heap) second_freed

fetch-TakesFirst_example :
    TakesFirst (waiting one_queued) one_queued (request_queue_fetch_request one_queued)
fetch-TakesFirst_example = fetch-TakesFirst one_queued one_queued-IsValid

add-Promise_example : Promise (pos 6) 2 (request_queue_add_request two_read 2)
unfolding read_item
add-Promise_example =
    add-Promise two_read 2
      (read-IsValid one_queued one_queued-IsValid 2 (request 9) (pos 8) (pos 0) (pos 6) free)
      two-IsFresh
  where
    free : one_queued.heap.allocated 2 ≡ false
    free =
        unfold request_queue_add_request empty_queue QueueEnum-discrete calc_hash_key chain
          lookup_item_idx insert_item_idx in
        refl

rendering-IsValid : IsValid rendering
rendering-IsValid = subst Sound fetches_first (fetch-Sound one_queued one_queued-IsValid)

clear_silences_example :
    ((request_queue_clear_requests_by_fd two_queued (pos 6)).heap.fd 2 ≢ pos 6)
    × (((request_queue_clear_requests_by_fd two_queued (pos 6)).heap.fd 2 ≡ two_queued.heap.fd 2)
        ⊎ ((two_queued.heap.fd 2 ≡ pos 6)
            × ((request_queue_clear_requests_by_fd two_queued (pos 6)).heap.fd 2 ≡ fd_invalid)))
unfolding two_queued request_queue_add_request empty_queue QueueEnum-discrete read_item
    calc_hash_key chain lookup_item_idx insert_item_idx
clear_silences_example =
    clear_silences two_queued (pos 6) 1 2 two_queued-IsValid (λ h. cc) (omega arith) (omega arith)
