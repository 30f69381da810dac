-- ===== src/RequestQueue/Answer.antt =====
-- src/request_queue.c, `request_queue_add_request`: what its status tells the caller.
use mod_tile.Base.{
  ◌≢◌, ◌<◌, ◌≡◌, refl, ℤ, false, [], ◌∷◌, count, arith, Option-cases, ite, inl, inr, count-append,
  ◌⊎◌,
}
use mathlib.Core.Logic.{if_pos, if_neg}
use mod_tile.Protocol.{ProtoCmd, cmd_ignore, cmd_not_done}
use mod_tile.Item.{Ptr, QueueEnum, QueueEnum-discrete, queue_dirty}
use mod_tile.RequestQueue.{
  RequestQueue, enqueue, attach_duplicate, free_item, drop_request, choose_queue, add_new,
  request_queue_add_request, fd_invalid,
}
use mod_tile.RequestQueue.Invariant.{IsValid, IsFresh, links}
use mod_tile.RequestQueue.AddValid.{add_cases}

-- The request is in one of the queues that send an answer.
abbrev pub Queued : RequestQueue → Ptr → Type 0
Queued q p = (0 < links q p) × (q.heap.in_queue p ≢ queue_dirty)

abbrev pub Joined : RequestQueue → Ptr → Type 0
Joined q p =
    (t : Ptr) × (0 < links q t)
    × (q.heap.in_queue t ≢ queue_dirty)
    × (0 < count p (q.heap.duplicates t))

-- The request is kept without its reader, or it is gone.
abbrev pub Silenced : RequestQueue → Ptr → Type 0
Silenced q p =
    ((0 < links q p) × (q.heap.in_queue p ≡ queue_dirty) × (q.heap.fd p ≡ fd_invalid))
    ⊎ ((links q p ≡ 0) × (q.heap.allocated p ≡ false))

abbrev pub Promise : ℤ → Ptr → ProtoCmd × RequestQueue → Type 0
Promise fd p (cmd_ignore, q) = (q.heap.fd p ≡ fd) × (Queued q p ⊎ Joined q p)
Promise fd p (cmd_not_done, q) = Silenced q p
Promise fd p (_, q) = ⊥

module _ (q : RequestQueue) (p : Ptr) (v : IsValid q) (f : IsFresh q p) where
  dropped : Promise (q.heap.fd p) p (cmd_not_done, drop_request q p)
  unfolding drop_request free_item
  dropped = inr (f.unlinked (q.heap.in_queue p), ground arith)

  enqueued_links : (c : QueueEnum) → 0 < links (enqueue q p c) p
  unfolding enqueue
  enqueued_links c = ground (arith, count-append p (q.heads c) (p ∷ []))

  enqueued :
      (c : QueueEnum)
      → Promise
          (q.heap.fd p)
          p
          (ite (QueueEnum-discrete c queue_dirty) cmd_not_done cmd_ignore, enqueue q p c)
  unfolding enqueue
  enqueued c = elim (QueueEnum-discrete c queue_dirty) [
    | yes e ↦ rw (if_pos _ e) (inl (enqueued_links c, ground arith, ground arith))
    | no n ↦ rw (if_neg _ n) (ground arith, inl (enqueued_links c, ground arith))
  ]

  add_new-Promise : Promise (q.heap.fd p) p (add_new q p)
  unfolding add_new
  add_new-Promise = elim (Option-cases (choose_queue q (q.heap.req p).cmd)) [
    | inl e ↦ rw (e, add_new) dropped
    | inr (c, e) ↦ rw (e, add_new) (enqueued c)
  ]

  attach-Promise :
      (t : Ptr)
      → 0 < links q t
      → q.heap.in_queue t ≢ queue_dirty
      → Promise (q.heap.fd p) p (cmd_ignore, attach_duplicate q p t)
  unfolding attach_duplicate
  attach-Promise t h loud = (refl, inr (t, attached_links, ground arith, ground arith))
    where
      attached_links : 0 < links (attach_duplicate q p t) t
      attached_links = ground (arith, f.unlinked (q.heap.in_queue t))

  -- For a valid queue and an item in no list: the status is never another than `cmdIgnore` or
  -- `cmdNotDone`. With `cmdIgnore` the item keeps its descriptor and is in a queue that answers, or is
  -- a duplicate of an item in such a queue. With `cmdNotDone` nobody is answered: the item is a dirty
  -- one without descriptor, or it is in no list and freed.
  pub add-Promise : Promise (q.heap.fd p) p (request_queue_add_request q p)
  unfolding free_item
  add-Promise =
      add_cases q p v f (Promise (q.heap.fd p) p) (λ _. add_new-Promise) attach-Promise
        (inr (f.unlinked (q.heap.in_queue p), ground arith))
