-- ===== src/RequestQueue/Owned.antt =====
-- src/request_queue.c: an item that waits for the rendering of another one belongs to that item alone,
-- is in no list, and stays allocated.
use mod_tile.Base.{
  ◌≤◌, ◌<◌, ◌≡◌, ℤ, true, false, List, [], ◌∷◌, count, arith, count-append, erase, count-erase, inl,
  inr, dec_lt, Option-cases,
}
use mod_tile.Protocol.{Protocol}
use mod_tile.Item.{Ptr, QueueEnum, queue_duplicate}
use mod_tile.RequestQueue.{
  RequestQueue, attach_duplicate, free_item, enqueue, drop_request, add_new, choose_queue, rendered,
  request_queue_add_request, request_queue_remove_request, request_queue_clear_requests_by_fd,
}
use mod_tile.RequestQueue.Invariant.{IsValid, IsFresh, links, is_waiting}
use mod_tile.RequestQueue.History.{read_item}
use mod_tile.RequestQueue.AddValid.{add_cases}
use mod_tile.RequestQueue.FetchValid.{links_same}

pub record IsOwned (q : RequestQueue) : Type 0 where
  pub marked :
      (p d : Ptr)
      → 0 < links q p
      → 0 < count d (q.heap.duplicates p)
      → q.heap.in_queue d ≡ queue_duplicate
  pub live :
      (p d : Ptr) → 0 < links q p → 0 < count d (q.heap.duplicates p) → q.heap.allocated d ≡ true
  pub once : (p d : Ptr) → 0 < links q p → count d (q.heap.duplicates p) ≤ 1
  pub owner :
      (p t d : Ptr)
      → 0 < links q p
      → 0 < links q t
      → 0 < count d (q.heap.duplicates p)
      → 0 < count d (q.heap.duplicates t)
      → p ≡ t

-- No linked item has this one for a duplicate.
abbrev pub IsLoose : RequestQueue → Ptr → Type 0
IsLoose q p = (t : Ptr) → 0 < links q t → count p (q.heap.duplicates t) ≡ 0

module _ (q : RequestQueue) (v : IsValid q) (o : IsOwned q) where
  -- What is a duplicate is in no list.
  pub duplicate_unlinked :
      (p d : Ptr) (c : QueueEnum)
      → 0 < links q p
      → 0 < count d (q.heap.duplicates p)
      → count d (q.heads c) ≡ 0
  duplicate_unlinked p d c h k = ground (arith, o.marked p d h k, v.tagged c d, v.no_duplicate)

  module _ (p : Ptr) (req : Protocol) (mx my fd : ℤ) (free : q.heap.allocated p ≡ false) where
    unlinked : (c : QueueEnum) → count p (q.heads c) ≡ 0
    unlinked c = ground (arith, v.live c p)

    pub read-IsLoose : IsLoose (read_item q p req mx my fd) p
    unfolding read_item
    read-IsLoose t h = ground (arith, unlinked (q.heap.in_queue t), o.live t p h)

    pub read-IsOwned : IsOwned (read_item q p req mx my fd)
    unfolding read_item
    read-IsOwned = record {
      marked = λ t d h k. ground (arith, unlinked (q.heap.in_queue t), o.marked t d);
      live = λ t d h k. ground (arith, unlinked (q.heap.in_queue t), o.live t d);
      once = λ t d h. ground (arith, unlinked (q.heap.in_queue t), o.once t d);
      owner = λ s t d hs ht ks kt.
          ground (arith, unlinked (q.heap.in_queue s), unlinked (q.heap.in_queue t), o.owner s t d);
    }

  module _ (p : Ptr) (f : IsFresh q p) (loose : IsLoose q p) where
    free-IsOwned : IsOwned (free_item q p)
    unfolding free_item
    free-IsOwned = record {
      marked = o.marked;
      live = λ t d h k. ground (arith, o.live t d h k, loose t h);
      once = o.once;
      owner = o.owner;
    }

    -- What is linked afterwards and has duplicates was linked before.
    was_linked :
        (c : QueueEnum) (t d : Ptr)
        → 0 < links (enqueue q p c) t
        → 0 < count d (q.heap.duplicates t)
        → 0 < links q t
    unfolding enqueue
    was_linked c t d h k =
        ground (arith, f.alone, count-append t (q.heads (q.heap.in_queue t)) (p ∷ []))

    enqueue-IsOwned : (c : QueueEnum) → IsOwned (enqueue q p c)
    unfolding enqueue
    enqueue-IsOwned c = record {
      marked = λ t d h k.
          ground (arith, o.marked t d (was_linked c t d h k) k, loose t (was_linked c t d h k));
      live = λ t d h k. o.live t d (was_linked c t d h k) k;
      once = λ t d h. elim (dec_lt 0 (count d (q.heap.duplicates t))) [
        | yes k ↦ o.once t d (was_linked c t d h k)
        | no n ↦ omega arith
      ];
      owner = λ s t d hs ht ks kt.
          o.owner s t d (was_linked c s d hs ks) (was_linked c t d ht kt) ks kt;
    }

    attach-IsOwned : (t : Ptr) → 0 < links q t → IsOwned (attach_duplicate q p t)
    unfolding attach_duplicate
    attach-IsOwned s linked = record {
      marked = λ t d h k.
          ground (arith, f.unlinked (q.heap.in_queue t), v.no_duplicate, o.marked t d, loose t);
      live = λ t d h k.
          ground (arith, f.unlinked (q.heap.in_queue t), f.allocated, v.no_duplicate, o.live t d);
      once = λ t d h.
          ground (arith, f.unlinked (q.heap.in_queue t), v.no_duplicate, o.once t d, loose t);
      owner = λ u t d hu ht ku kt. ground (
        arith,
        f.unlinked (q.heap.in_queue u),
        f.unlinked (q.heap.in_queue t),
        v.no_duplicate,
        o.owner u t d,
        loose t,
        loose u,
      );
    }

    add_new-IsOwned : IsOwned (add_new q p).1
    unfolding add_new drop_request free_item
    add_new-IsOwned = elim (Option-cases (choose_queue q (q.heap.req p).cmd)) [
      | inl e ↦
          rw (e, add_new)
            (record {
              marked = free-IsOwned.marked;
              live = free-IsOwned.live;
              once = free-IsOwned.once;
              owner = free-IsOwned.owner;
            })
      | inr (c, e) ↦ rw (e, add_new) (enqueue-IsOwned c)
    ]

    pub add-IsOwned : IsOwned (request_queue_add_request q p).1
    add-IsOwned =
        add_cases q p v f (λ r. IsOwned r.1) (λ new. add_new-IsOwned)
          (λ t linked loud. attach-IsOwned t linked) free-IsOwned

  module _ (c : QueueEnum) (p : Ptr) (rest : List Ptr) (taken : q.heads c ≡ p ∷ rest)
      (w : is_waiting c ≡ true) where
    was : (t : Ptr) → 0 < links (rendered q c p rest) t → 0 < links q t
    was t h = omega (arith, links_same q c p rest v w taken t)

    taken_unmarked : (t : Ptr) → 0 < links q t → count p (q.heap.duplicates t) ≡ 0
    taken_unmarked t h = ground (arith, o.marked t p h, v.tagged c p)

    pub rendered-IsOwned : IsOwned (rendered q c p rest)
    unfolding rendered
    rendered-IsOwned = record {
      marked = λ t d h k. ground (arith, o.marked t d (was t h) k, taken_unmarked t (was t h));
      live = λ t d h k. o.live t d (was t h) k;
      once = λ t d h. o.once t d (was t h);
      owner = λ s t d hs ht ks kt. o.owner s t d (was s hs) (was t ht) ks kt;
    }

  pub remove-IsOwned : (p : Ptr) (time : ℤ) → IsOwned (request_queue_remove_request q p time)
  unfolding request_queue_remove_request
  remove-IsOwned p time = record {
    marked = λ t d h. o.marked t d (kept t h);
    live = λ t d h. o.live t d (kept t h);
    once = λ t d h. o.once t d (kept t h);
    owner = λ s t d hs ht. o.owner s t d (kept s hs) (kept t ht);
  }
    where
      kept : (t : Ptr) → 0 < count t (erase p (q.heads (q.heap.in_queue t))) → 0 < links q t
      kept t h = ground (arith, count-erase t p (q.heads (q.heap.in_queue t)))

  pub clear-IsOwned : (gone : ℤ) → IsOwned (request_queue_clear_requests_by_fd q gone)
  unfolding request_queue_clear_requests_by_fd
  clear-IsOwned gone = record { marked = o.marked; live = o.live; once = o.once; owner = o.owner }
