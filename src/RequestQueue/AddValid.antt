-- ===== src/RequestQueue/AddValid.antt =====
-- src/request_queue.c, `request_queue_add_request`: every branch leaves valid queues.
use mod_tile.Base.{◌≢◌, ◌<◌, ◌≡◌, refl, true, [], count, arith, Option-cases, none, some, inl, inr}
use mod_tile.Protocol.{ProtoCmd, cmd_ignore, cmd_not_done}
use mod_tile.Item.{
  Ptr, QueueEnum, queue_request, queue_request_prio, queue_request_bulk, queue_dirty, queue_render,
  queue_duplicate, queue_request_low,
}
use mod_tile.RequestQueue.{
  RequestQueue, attach_duplicate, free_item, drop_request, choose_queue, add_new, pending_in,
  pending, add_pending, request_queue_add_request, lookup, fd_invalid,
}
use mod_tile.RequestQueue.Invariant.{IsValid, IsFresh, links, is_waiting, limit}
use mod_tile.RequestQueue.Lookup.{lookup-some}
use mod_tile.RequestQueue.Add.{enqueue-IsValid}

module _ (q : RequestQueue) (p : Ptr) (v : IsValid q) (f : IsFresh q p) where
  unlinked_lem : links q p ≡ 0
  unlinked_lem = f.unlinked (q.heap.in_queue p)

  pub free-IsValid : IsValid (free_item q p)
  unfolding free_item
  free-IsValid = record {
    counted = v.counted;
    limited = v.limited;
    tagged = v.tagged;
    linked_once = v.linked_once;
    no_duplicate = v.no_duplicate;
    chained = v.chained;
    indexed = v.indexed;
    unique = v.unique;
    silent = v.silent;
    live = λ d t h. ground (arith, v.live d t, f.unlinked d);
  }

  module _ (t : Ptr) (linked : 0 < links q t) (loud : q.heap.in_queue t ≢ queue_dirty) where
    links_attached : (s : Ptr) → links (attach_duplicate q p t) s ≡ links q s
    unfolding attach_duplicate
    links_attached s = ground (arith, v.no_duplicate, unlinked_lem)

    attach_tagged :
        (d : QueueEnum) (s : Ptr)
        → 0 < count s (q.heads d)
        → (attach_duplicate q p t).heap.in_queue s ≡ d
    unfolding attach_duplicate
    attach_tagged d s h = ground (arith, v.tagged d s, f.unlinked d)

    attach_silent :
        (s : Ptr)
        → 0 < count s (q.heads queue_dirty)
        → (q.heap.fd s ≡ fd_invalid) × ((attach_duplicate q p t).heap.duplicates s ≡ [])
    unfolding attach_duplicate
    attach_silent s h = ground (arith, v.silent s, v.tagged queue_dirty s, f.unlinked queue_dirty)

    pub attach-IsValid : IsValid (attach_duplicate q p t)
    unfolding attach_duplicate
    attach-IsValid = record {
      counted = v.counted;
      limited = v.limited;
      tagged = attach_tagged;
      linked_once = v.linked_once;
      no_duplicate = v.no_duplicate;
      chained = v.chained;
      indexed = λ k s. rw (links_attached s) (v.indexed k s);
      unique = λ r s hr hs same.
          v.unique r s (rw (links_attached r) at hr) (rw (links_attached s) at hs) same;
      silent = attach_silent;
      live = v.live;
    }

  pub choose_queue_room :
      (c : QueueEnum) (cmd : ProtoCmd)
      → choose_queue q cmd ≡ some c
      → (is_waiting c ≡ true) × (q.nums c < limit c)
  unfolding choose_queue
  choose_queue_room c cmd e = ground arith

  drop-IsValid : IsValid (drop_request q p)
  unfolding drop_request free_item
  drop-IsValid = record {
    counted = v.counted;
    limited = v.limited;
    tagged = v.tagged;
    linked_once = v.linked_once;
    no_duplicate = v.no_duplicate;
    chained = v.chained;
    indexed = v.indexed;
    unique = v.unique;
    silent = v.silent;
    live = free-IsValid.live;
  }

  add_new-IsValid : lookup q p ≡ none → IsValid (add_new q p).1
  unfolding add_new
  add_new-IsValid new = elim (Option-cases (choose_queue q (q.heap.req p).cmd)) [
    | inl e ↦ rw (e, add_new) drop-IsValid
    | inr (c, e) ↦
        let (w, room) = choose_queue_room c (q.heap.req p).cmd e in
        rw (e, add_new) (enqueue-IsValid q p c v f w room new)
  ]

  pending_cases {ℓ} :
      (P : ProtoCmd × RequestQueue → Type ℓ) (t : Ptr) (c : QueueEnum)
      → q.heap.in_queue t ≡ c
      → 0 < links q t
      → (q.heap.in_queue t ≢ queue_dirty
          → q.heap.in_queue t ≢ queue_request_bulk
          → P (cmd_ignore, attach_duplicate q p t))
      → P (cmd_not_done, free_item q p)
      → P (add_pending (pending_in c q p t) p)
  unfolding add_pending pending_in
  pending_cases P t queue_request e linked joined refused = joined (λ h. cc) (λ h. cc)
  pending_cases P t queue_request_prio e linked joined refused = joined (λ h. cc) (λ h. cc)
  pending_cases P t queue_request_bulk e linked joined refused = refused
  pending_cases P t queue_dirty e linked joined refused = refused
  pending_cases P t queue_render e linked joined refused = joined (λ h. cc) (λ h. cc)
  pending_cases P t queue_duplicate e linked joined refused =
      absurd (ground (arith, v.no_duplicate))
  pending_cases P t queue_request_low e linked joined refused = joined (λ h. cc) (λ h. cc)

  -- The three ways in which a request is dealt with.
  pub add_cases {ℓ} :
      (P : ProtoCmd × RequestQueue → Type ℓ)
      → (lookup q p ≡ none → P (add_new q p))
      → ((t : Ptr)
          → 0 < links q t
          → q.heap.in_queue t ≢ queue_dirty
          → P (cmd_ignore, attach_duplicate q p t))
      → P (cmd_not_done, free_item q p)
      → P (request_queue_add_request q p)
  unfolding request_queue_add_request pending add_pending
  add_cases P new joined refused = elim (Option-cases (lookup q p)) [
    | inl e ↦ rw (e, pending) (new e)
    | inr (t, e) ↦
        let linked = (lookup-some q v p t e).1 in
        rw (e, pending)
          (pending_cases P t (q.heap.in_queue t) refl linked (λ loud _. joined t linked loud)
            refused)
  ]

  -- Adding a new request, in whatever way it ends, keeps the queues valid.
  pub add-IsValid : IsValid (request_queue_add_request q p).1
  add-IsValid = add_cases (λ r. IsValid r.1) add_new-IsValid attach-IsValid free-IsValid
