-- ===== src/RequestQueue/Remove.antt =====
-- src/request_queue.c, `request_queue_remove_request`: the queues stay valid, and the metatile can
-- be asked for again.
use mod_tile.Base.{
  subst, sym, ◌≢◌, ℕ, ◌≤◌, ◌<◌, ◌≡◌, ℤ, true, count, length, arith, ◌==◌, if◌then◌else◌, Bool-cases,
  Option-cases, none, inl, inr, erase, erase_of_absent, count-erase, erase_first-eq-erase,
}
use mod_tile.Item.{Ptr, QueueEnum, queue_dirty, queue_render, same_metatile, same_metatile_refl}
use mod_tile.ItemIndex.{chain, remove_item_idx}
use mod_tile.ItemIndex.Chain.{IsChained, remove-IsChained, chain-remove}
use mod_tile.RequestQueue.{RequestQueue, request_queue_remove_request, hash_key, lookup}
use mod_tile.RequestQueue.Invariant.{IsValid, links, is_waiting}
use mod_tile.RequestQueue.Lookup.{lookup-some}

module _ (q : RequestQueue) (p : Ptr) (time : ℤ) (v : IsValid q)
    (r : q.heap.in_queue p ≡ queue_render) (h : 0 < count p (q.heads queue_render)) where
  abbrev removed : RequestQueue
  removed = request_queue_remove_request q p time

  absent : (c : QueueEnum) → c ≢ queue_render → erase p (q.heads c) ≡ q.heads c
  absent c n = erase_of_absent p (q.heads c) (ground (arith, v.tagged c p))

  counted : (d : QueueEnum) → is_waiting d ≡ true → q.nums d ≡ length (erase p (q.heads d))
  counted d w = ground (arith, v.counted d, absent d)

  links_removed :
      (t : Ptr)
      → count t (erase p (q.heads (q.heap.in_queue t))) ≡ (if p == t then 0 else links q t)
  links_removed t =
      ground (arith, count-erase t p (q.heads (q.heap.in_queue t)), v.linked_once queue_render t)

  chain_removed :
      chain (remove_item_idx q.heap (q.item_hashidx (hash_key q p)) p)
      ≡ erase p (chain (q.item_hashidx (hash_key q p)))
  chain_removed = rw chain-remove (
      erase_first-eq-erase (same_metatile q.heap p) p _ (same_metatile_refl q.heap p) λ t ht same.
        sym (v.unique p t (ground arith) (ground (arith, v.indexed (hash_key q p) t)) same))

  indexed :
      (k : ℕ) (t : Ptr)
      → count t (chain (removed.item_hashidx k))
        ≡ (if hash_key q t == k then count t (erase p (q.heads (q.heap.in_queue t))) else 0)
  unfolding request_queue_remove_request
  indexed k t = ground (
    arith,
    chain_removed,
    links_removed t,
    v.indexed k t,
    v.linked_once queue_render t,
    count-erase t p (chain (q.item_hashidx (hash_key q p))),
  )

  kept : (d : QueueEnum) (t : Ptr) → 0 < count t (erase p (q.heads d)) → 0 < count t (q.heads d)
  kept d t k = ground (arith, count-erase t p (q.heads d))

  kept_links : (t : Ptr) → 0 < count t (erase p (q.heads (q.heap.in_queue t))) → 0 < links q t
  kept_links t k = kept (q.heap.in_queue t) t k

  linked_once : (d : QueueEnum) (t : Ptr) → count t (erase p (q.heads d)) ≤ 1
  linked_once d t = ground (arith, count-erase t p (q.heads d), v.linked_once d t)

  chained : (k : ℕ) → IsChained (removed.item_hashidx k)
  unfolding request_queue_remove_request
  chained k = elim (Bool-cases (hash_key q p == k)) [
    | inl e ↦
        rw e (remove-IsChained q.heap (q.item_hashidx (hash_key q p)) p (v.chained (hash_key q p)))
    | inr e ↦ rw e (v.chained k)
  ]

  -- Removing an item from the render queue keeps the queues valid.
  pub remove-IsValid : IsValid (request_queue_remove_request q p time)
  unfolding request_queue_remove_request
  remove-IsValid = record {
    counted = counted;
    limited = v.limited;
    tagged = λ d t k. v.tagged d t (kept d t k);
    linked_once = linked_once;
    no_duplicate = rw v.no_duplicate;
    chained = chained;
    indexed = indexed;
    unique = λ s t hs ht same. v.unique s t (kept_links s hs) (kept_links t ht) same;
    silent = λ t k. v.silent t (kept queue_dirty t k);
    live = λ d t k. v.live d t (kept d t k);
  }

  not_found : (s : Ptr) → (same_metatile removed.heap p s ≡ true) × (0 < links removed s) → ⊥
  unfolding request_queue_remove_request
  not_found s (same, linked) =
      let e = v.unique p s (rw r h) (kept_links s linked) same in
      ground (
        arith,
        links_removed p,
        v.linked_once queue_render p,
        subst (λ x. 0 < links removed x) (sym e) linked,
      )

-- For valid queues and an item in the list of those being rendered: after its removal its metatile is
-- found in no queue any more, and every other item stays linked as it was.
pub lookup-remove :
    (q : RequestQueue) (p : Ptr) (time : ℤ)
    → IsValid q
    → q.heap.in_queue p ≡ queue_render
    → 0 < count p (q.heads queue_render)
    → (t : Ptr)
    → (lookup (request_queue_remove_request q p time) p ≡ none)
      × (links (request_queue_remove_request q p time) t ≡ (if p == t then 0 else links q t))
lookup-remove q p time v r h t =
    (gone, unfold request_queue_remove_request in links_removed q p time v r h t)
  where
    q' : RequestQueue
    q' = request_queue_remove_request q p time

    gone : lookup q' p ≡ none
    gone = elim (Option-cases (lookup q' p)) [
      | inl e ↦ e
      | inr (s, e) ↦
          absurd (not_found q p time v r h s (lookup-some q' (remove-IsValid q p time v r h) p s e))
    ]
