-- ===== src/RequestQueue/FetchValid.antt =====
-- src/request_queue.c, `request_queue_fetch_request`: the queues stay valid.
use mod_tile.Base.{
  ◌≤◌, ◌<◌, ◌≡◌, refl, true, List, [], ◌∷◌, count, length, arith, Option-cases, none, some, inl,
  inr,
}
use mod_tile.Item.{Ptr, QueueEnum, queue_dirty, queue_render, queue_duplicate}
use mod_tile.RequestQueue.{
  RequestQueue, Fetched, blocked, fault, fetched, request_queue_fetch_request, render_next,
  rendered, next_queue, fd_invalid,
}
use mod_tile.RequestQueue.Invariant.{IsValid, links, is_waiting, limit}

module _ (q : RequestQueue) (c : QueueEnum) (p : Ptr) (rest : List Ptr) (v : IsValid q)
    (w : is_waiting c ≡ true) (e : q.heads c ≡ p ∷ rest) where
  linked : links q p ≡ 1
  linked = ground (arith, v.tagged c p, v.linked_once c p)

  counted :
      (d : QueueEnum)
      → is_waiting d ≡ true
      → (rendered q c p rest).nums d ≡ length ((rendered q c p rest).heads d)
  unfolding rendered
  counted d h = ground (arith, v.counted c, v.counted d)

  limited : (d : QueueEnum) → is_waiting d ≡ true → (rendered q c p rest).nums d ≤ limit d
  unfolding rendered
  limited d h = ground (arith, v.limited c, v.limited d)

  tagged :
      (d : QueueEnum) (t : Ptr)
      → 0 < count t ((rendered q c p rest).heads d)
      → (rendered q c p rest).heap.in_queue t ≡ d
  unfolding rendered
  tagged d t h = ground (arith, v.tagged c t, v.tagged d t, v.linked_once c t, v.linked_once d t)

  linked_once : (d : QueueEnum) (t : Ptr) → count t ((rendered q c p rest).heads d) ≤ 1
  unfolding rendered
  linked_once d t =
      ground (arith, v.tagged c t, v.tagged queue_render t, v.linked_once c t, v.linked_once d t)

  pub links_same : (t : Ptr) → links (rendered q c p rest) t ≡ links q t
  unfolding rendered
  links_same t = ground (
    arith,
    v.tagged c t,
    v.tagged c p,
    v.tagged queue_render t,
    v.linked_once c t,
    v.linked_once c p,
    v.linked_once queue_render t,
  )

  no_duplicate : (rendered q c p rest).heads queue_duplicate ≡ []
  unfolding rendered
  no_duplicate = ground (arith, v.no_duplicate)

  silent :
      (t : Ptr)
      → 0 < count t ((rendered q c p rest).heads queue_dirty)
      → (q.heap.fd t ≡ fd_invalid) × (q.heap.duplicates t ≡ [])
  unfolding rendered
  silent t h = ground (arith, v.silent t)

  live :
      (d : QueueEnum) (t : Ptr)
      → 0 < count t ((rendered q c p rest).heads d)
      → q.heap.allocated t ≡ true
  unfolding rendered
  live d t h = ground (arith, v.live d t, v.live c t)

  pub rendered-IsValid : IsValid (rendered q c p rest)
  unfolding rendered
  rendered-IsValid = record {
    counted = counted;
    limited = limited;
    tagged = tagged;
    linked_once = linked_once;
    no_duplicate = no_duplicate;
    chained = v.chained;
    indexed = λ k t. rw (links_same t) (v.indexed k t);
    unique =
        λ s t hs ht same. v.unique s t (rw (links_same s) at hs) (rw (links_same t) at ht) same;
    silent = silent;
    live = live;
  }

-- A result of a fetch with which the daemon can go on.
abbrev pub Sound : Fetched → Type 0
Sound blocked = Unit {0}
Sound fault = ⊥
Sound (fetched p q) = IsValid q

next_queue_waits :
    (q : RequestQueue) (c : QueueEnum)
    → next_queue q ≡ some c
    → (is_waiting c ≡ true) × (0 < q.nums c)
unfolding next_queue
next_queue_waits q c e = ground arith

-- The two ways in which a fetch of valid queues ends.
module _ {ℓ} (q : RequestQueue) (v : IsValid q) (P : Fetched → Type ℓ)
    (taken : (c : QueueEnum) (p : Ptr) (rest : List Ptr)
      → is_waiting c ≡ true
      → q.heads c ≡ p ∷ rest
      → P (fetched p (rendered q c p rest))) where
  render_next_cases :
      (c : QueueEnum) (l : List Ptr)
      → is_waiting c ≡ true
      → 0 < length l
      → q.heads c ≡ l
      → P (render_next q c)
  unfolding render_next
  render_next_cases c [] w h e = absurd (omega arith)
  render_next_cases c (p ∷ rest) w h e = rw (e, render_next) (taken c p rest w e)

  pub fetch_cases : (next_queue q ≡ none → P blocked) → P (request_queue_fetch_request q)
  unfolding request_queue_fetch_request
  fetch_cases waits = elim (Option-cases (next_queue q)) [
    | inl e ↦ rw (e, request_queue_fetch_request) (waits e)
    | inr (c, e) ↦
        let (w, h) = next_queue_waits q c e in
        rw (e, request_queue_fetch_request)
          (render_next_cases c (q.heads c) w (omega (arith, v.counted c w)) refl)
  ]

-- A fetch never takes a list's head for an item, and it leaves a valid queue.
pub fetch-Sound : (q : RequestQueue) → IsValid q → Sound (request_queue_fetch_request q)
fetch-Sound q v =
    fetch_cases q v Sound (λ c p rest w e. rendered-IsValid q c p rest v w e) (λ e. tt)
