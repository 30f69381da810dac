-- ===== src/RequestQueue/Add.antt =====
-- src/request_queue.c, `request_queue_add_request`: the queues stay valid when a request joins one.
use mod_tile.Base.{
  ℕ_discrete, ◌∙◌, sym, ℕ, ◌+◌, ◌≤◌, ◌<◌, ◌≡◌, true, [], ◌∷◌, count, length, arith, ◌==◌,
  if◌then◌else◌, Bool-cases, none, ite, inl, inr, count-append, length-append,
}
use mod_tile.Item.{
  Ptr, QueueEnum, QueueEnum-discrete, queue_dirty, queue_duplicate, same_metatile,
  same_metatile_comm,
}
use mod_tile.ItemIndex.{chain}
use mod_tile.ItemIndex.Chain.{IsChained, insert-IsChained, chain-insert}
use mod_tile.RequestQueue.{RequestQueue, enqueue, hash_key, lookup, fd_invalid}
use mod_tile.RequestQueue.Invariant.{IsValid, IsFresh, links, is_waiting, limit}
use mod_tile.RequestQueue.Lookup.{lookup-none}

module _ (q : RequestQueue) (p : Ptr) (c : QueueEnum) (v : IsValid q) (f : IsFresh q p)
    (w : is_waiting c ≡ true) (room : q.nums c < limit c) (new : lookup q p ≡ none) where
  abbrev after : RequestQueue
  after = enqueue q p c

  counted : (d : QueueEnum) → is_waiting d ≡ true → after.nums d ≡ length (after.heads d)
  unfolding enqueue
  counted d h = ground (arith, v.counted d, v.counted c, length-append (q.heads c) (p ∷ []))

  limited : (d : QueueEnum) → is_waiting d ≡ true → after.nums d ≤ limit d
  unfolding enqueue
  limited d h = ground (arith, v.limited d)

  count_after :
      (d : QueueEnum) (t : Ptr)
      → count t (after.heads d)
        ≡ count t (q.heads d) + ite (QueueEnum-discrete c d) (if p == t then 1 else 0) 0
  unfolding enqueue
  count_after d t = ground (arith, count-append t (q.heads c) (p ∷ []))

  tagged : (d : QueueEnum) (t : Ptr) → 0 < count t (after.heads d) → after.heap.in_queue t ≡ d
  unfolding enqueue
  tagged d t h = ground (arith, count_after d t, v.tagged d t, f.unlinked d)

  linked_once : (d : QueueEnum) (t : Ptr) → count t (after.heads d) ≤ 1
  linked_once d t = ground (arith, count_after d t, v.linked_once d t, f.unlinked d)

  links-after : (t : Ptr) → links after t ≡ (if p == t then 1 else links q t)
  unfolding enqueue
  links-after t = ground (
    arith,
    count_after (after.heap.in_queue t) t,
    f.unlinked c,
    f.unlinked (q.heap.in_queue t),
    v.tagged c t,
  )

  no_duplicate : after.heads queue_duplicate ≡ []
  unfolding enqueue
  no_duplicate = ground (arith, v.no_duplicate)

  chained : (k : ℕ) → IsChained (after.item_hashidx k)
  unfolding enqueue
  chained k = elim (Bool-cases (hash_key q p == k)) [
    | inl e ↦ rw e (insert-IsChained (q.item_hashidx (hash_key q p)) p (v.chained (hash_key q p)))
    | inr e ↦ rw e (v.chained k)
  ]

  indexed :
      (k : ℕ) (t : Ptr)
      → count t (chain (after.item_hashidx k)) ≡ (if hash_key q t == k then links after t else 0)
  unfolding enqueue
  indexed k t = ground (
    arith,
    links-after t,
    v.indexed k t,
    v.indexed (hash_key q p) t,
    chain-insert (q.item_hashidx (hash_key q p)) p (v.chained (hash_key q p)),
    count-append t (chain (q.item_hashidx (hash_key q p))) (p ∷ []),
    f.unlinked (q.heap.in_queue p),
  )

  clash : (t : Ptr) → 0 < links q t → same_metatile q.heap p t ≡ true → ⊥
  clash t h same = cc (lookup-none q v p t new h, same)

  unique :
      (s t : Ptr) → 0 < links after s → 0 < links after t → same_metatile q.heap s t ≡ true → s ≡ t
  unique s t hs ht same = elim (ℕ_discrete p s) [
    | yes a ↦ elim (ℕ_discrete p t) [
      | yes b ↦ sym a ∙ b
      | no b ↦ absurd (clash t (ground (arith, links-after t)) (rw (← a) at same))
    ]
    | no a ↦ elim (ℕ_discrete p t) [
      | yes b ↦ absurd (
          clash s (ground (arith, links-after s))
            (rw (← b) at (same_metatile_comm q.heap s t same)))
      | no b ↦ v.unique s t (ground (arith, links-after s)) (ground (arith, links-after t)) same
    ]
  ]

  silent :
      (t : Ptr)
      → 0 < count t (after.heads queue_dirty)
      → (after.heap.fd t ≡ fd_invalid) × (q.heap.duplicates t ≡ [])
  unfolding enqueue
  silent t h = ground (arith, v.silent t, count_after queue_dirty t, f.alone)

  live : (d : QueueEnum) (t : Ptr) → 0 < count t (after.heads d) → q.heap.allocated t ≡ true
  live d t h = ground (arith, count_after d t, v.live d t, f.allocated)

  pub enqueue-IsValid : IsValid (enqueue q p c)
  unfolding enqueue
  enqueue-IsValid = record {
    counted = counted;
    limited = limited;
    tagged = tagged;
    linked_once = linked_once;
    no_duplicate = no_duplicate;
    chained = chained;
    indexed = indexed;
    unique = unique;
    silent = silent;
    live = live;
  }
