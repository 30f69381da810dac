-- ===== src/RequestQueue/Clear.antt =====
-- src/request_queue.c, `request_queue_clear_requests_by_fd`: nothing that is still queued answers to
-- a descriptor that was closed.
use mod_tile.Base.{
  sym, lt→ltb, ◌≢◌, ◌∙◌, ap, ◌<◌, ◌≡◌, refl, ℤ, eq_ℤ, eq_ℤ→eq, eq_ℤ_refl, Bool, true, false, ◌&&◌,
  List, [], ◌∷◌, ◌++◌, count, arith, inl, inr, count-append, ◌⊎◌, if◌then◌else◌, ltb, Bool-cases,
}
use mod_tile.Item.{
  Ptr, QueueEnum, QueueEnum-discrete, queue_request, queue_request_prio, queue_request_bulk,
  queue_dirty, queue_render, queue_duplicate, queue_request_low, update,
}
use mod_tile.RequestQueue.{
  RequestQueue, clear_fd, clear_list, clear_lists, cleared_queues,
  request_queue_clear_requests_by_fd, fd_invalid,
}
use mod_tile.RequestQueue.Invariant.{IsValid, links}

clear_fd_lem :
    (gone : ℤ) (ps : List Ptr) (fd : Ptr → ℤ) (x : Ptr)
    → clear_fd gone ps fd x ≡ (if ltb 0 (count x ps) && eq_ℤ (fd x) gone then fd_invalid else fd x)
unfolding clear_fd
clear_fd_lem gone [] fd x = refl
clear_fd_lem gone (p ∷ ps) fd x = elim (Bool-cases (eq_ℤ (fd p) gone)) [
  | inl e ↦ rw e (clear_fd_lem gone ps (update fd p fd_invalid) x ∙ ground arith)
  | inr e ↦ rw e (clear_fd_lem gone ps fd x ∙ ground arith)
]

clear_fd-append :
    (gone : ℤ) (xs ys : List Ptr) (fd : Ptr → ℤ)
    → clear_fd gone (xs ++ ys) fd ≡ clear_fd gone ys (clear_fd gone xs fd)
unfolding clear_fd
clear_fd-append gone [] ys fd = refl
clear_fd-append gone (x ∷ xs) ys fd = clear_fd-append gone xs ys _

-- The items that the loops visit, in their order.
visited : (Ptr → List Ptr) → List Ptr → List Ptr
visited duplicates [] = []
visited duplicates (p ∷ ps) = (p ∷ duplicates p) ++ visited duplicates ps

visited_all : RequestQueue → List QueueEnum → List Ptr
unfolding visited
visited_all q [] = []
visited_all q (c ∷ cs) = visited q.heap.duplicates (q.heads c) ++ visited_all q cs

clear_list_lem :
    (gone : ℤ) (duplicates : Ptr → List Ptr) (ps : List Ptr) (fd : Ptr → ℤ)
    → clear_list gone duplicates ps fd ≡ clear_fd gone (visited duplicates ps) fd
unfolding clear_list visited
clear_list_lem gone duplicates [] fd = unfold clear_fd in refl
clear_list_lem gone duplicates (p ∷ ps) fd = rw (
  clear_list_lem gone duplicates ps,
  clear_fd-append gone (p ∷ duplicates p) (visited duplicates ps) fd,
)

clear_lists_lem :
    (gone : ℤ) (q : RequestQueue) (cs : List QueueEnum) (fd : Ptr → ℤ)
    → clear_lists gone q cs fd ≡ clear_fd gone (visited_all q cs) fd
unfolding clear_lists visited_all
clear_lists_lem gone q [] fd = unfold clear_fd in refl
clear_lists_lem gone q (c ∷ cs) fd = rw (
  clear_lists_lem gone q cs,
  clear_list_lem gone q.heap.duplicates (q.heads c) fd,
  clear_fd-append gone (visited q.heap.duplicates (q.heads c)) (visited_all q cs) fd,
)

visited_item :
    (duplicates : Ptr → List Ptr) (ps : List Ptr) (p d : Ptr)
    → 0 < count p ps
    → 0 < count d (p ∷ duplicates p)
    → 0 < count d (visited duplicates ps)
unfolding visited
visited_item duplicates [] p d h k = absurd (omega arith)
visited_item duplicates (x ∷ xs) p d h k = ground (
  arith,
  count-append d (x ∷ duplicates x) (visited duplicates xs),
  visited_item duplicates xs p d,
)

module _ (q : RequestQueue) (gone : ℤ) where
  abbrev cleared : RequestQueue
  cleared = request_queue_clear_requests_by_fd q gone

  fd_cleared :
      (x : Ptr)
      → cleared.heap.fd x ≡ (
          if ltb 0 (count x (visited_all q cleared_queues)) && eq_ℤ (q.heap.fd x) gone
          then fd_invalid
          else q.heap.fd x)
  unfolding request_queue_clear_requests_by_fd
  fd_cleared x =
      rw (clear_lists_lem gone q cleared_queues q.heap.fd)
        (clear_fd_lem gone (visited_all q cleared_queues) q.heap.fd x)

  visited_queue :
      (c : QueueEnum) (p d : Ptr)
      → c ≢ queue_dirty
      → c ≢ queue_duplicate
      → 0 < count p (q.heads c)
      → 0 < count d (p ∷ q.heap.duplicates p)
      → 0 < count d (visited_all q cleared_queues)
  unfolding visited_all
  visited_queue c p d n m h k =
      let v = λ (e : QueueEnum). visited q.heap.duplicates (q.heads e) in
      ground (
        arith,
        visited_item q.heap.duplicates (q.heads c) p d h k,
        count-append d (v queue_request) (
            v queue_render
            ++ (v queue_request_prio ++ (v queue_request_bulk ++ (v queue_request_low ++ [])))),
        count-append d (v queue_render)
            (v queue_request_prio ++ (v queue_request_bulk ++ (v queue_request_low ++ []))),
        count-append d (v queue_request_prio) (v queue_request_bulk ++ (v queue_request_low ++ [])),
        count-append d (v queue_request_bulk) (v queue_request_low ++ []),
        count-append d (v queue_request_low) [],
      )

  pub clear-IsValid : IsValid q → IsValid cleared
  unfolding request_queue_clear_requests_by_fd
  clear-IsValid v = record {
    counted = v.counted;
    limited = v.limited;
    tagged = v.tagged;
    linked_once = v.linked_once;
    no_duplicate = v.no_duplicate;
    chained = v.chained;
    indexed = v.indexed;
    unique = v.unique;
    silent = λ t h. ground (arith, v.silent t h, fd_cleared t);
    live = v.live;
  }

  not_gone : (x : ℤ) → x ≢ gone → eq_ℤ x gone ≡ false
  not_gone x n = elim (Bool-cases (eq_ℤ x gone)) [
    | inl e ↦ absurd (n (eq_ℤ→eq x gone e))
    | inr e ↦ e
  ]

  silenced_if :
      (visited? : Bool) (x : ℤ)
      → gone ≢ fd_invalid
      → (visited? ≡ true) ⊎ (x ≢ gone)
      → (if visited? && eq_ℤ x gone then fd_invalid else x) ≢ gone
  silenced_if true x n _ = elim (Bool-cases (eq_ℤ x gone)) [
    | inl e ↦ rw e (λ h. n (sym h))
    | inr e ↦ rw e λ h. cc (rw h at e, eq_ℤ_refl gone)
  ]
  silenced_if false x n (inl h) = cc
  silenced_if false x n (inr h) = h

  spared :
      (p d : Ptr)
      → IsValid q
      → gone ≢ fd_invalid
      → 0 < links q p
      → 0 < count d (p ∷ q.heap.duplicates p)
      → (ltb 0 (count d (visited_all q cleared_queues)) ≡ true) ⊎ (q.heap.fd d ≢ gone)
  spared p d v n h k = elim (QueueEnum-discrete (q.heap.in_queue p) queue_dirty) [
    | yes e ↦
        let (quiet, single) = v.silent p (rw e at h) in
        inr λ g. n (sym g ∙ ap q.heap.fd {x = d} {y = p} (ground arith) ∙ quiet)
    | no m ↦ inl (
        lt→ltb _ _
          (visited_queue (q.heap.in_queue p) p d m (λ e. ground (arith, v.no_duplicate)) h k))
  ]

  changed_if :
      (b : Bool) (x : ℤ)
      → ((if b && eq_ℤ x gone then fd_invalid else x) ≡ x)
        ⊎ ((x ≡ gone) × ((if b && eq_ℤ x gone then fd_invalid else x) ≡ fd_invalid))
  changed_if false x = inl refl
  changed_if true x = elim (Bool-cases (eq_ℤ x gone)) [
    | inl e ↦ inr (eq_ℤ→eq x gone e, rw e)
    | inr e ↦ inl (rw e)
  ]

  keep_if : (b : Bool) (x : ℤ) → x ≢ gone → (if b && eq_ℤ x gone then fd_invalid else x) ≡ x
  keep_if b x n = elim (changed_if b x) [ inl e ↦ e | inr (e, k) ↦ absurd (n e) ]

  pub clear_keeps : (d : Ptr) → q.heap.fd d ≢ gone → cleared.heap.fd d ≡ q.heap.fd d
  clear_keeps d n = rw (fd_cleared d) (keep_if _ (q.heap.fd d) n)

  -- For a valid queue, a valid descriptor, and an item that is linked into a queue or is a duplicate of
  -- such an item: after the call the item's descriptor is not the closed one, and it is what it was
  -- before or, where it was the closed one, invalid.
  pub clear_silences :
      (p d : Ptr)
      → IsValid q
      → gone ≢ fd_invalid
      → 0 < links q p
      → 0 < count d (p ∷ q.heap.duplicates p)
      → (cleared.heap.fd d ≢ gone)
        × ((cleared.heap.fd d ≡ q.heap.fd d)
            ⊎ ((q.heap.fd d ≡ gone) × (cleared.heap.fd d ≡ fd_invalid)))
  clear_silences p d v n h k =
      rw (fd_cleared d)
        (silenced_if _ (q.heap.fd d) n (spared p d v n h k), changed_if _ (q.heap.fd d))
