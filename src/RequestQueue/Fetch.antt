-- ===== src/RequestQueue/Fetch.antt =====
-- src/request_queue.c, `request_queue_fetch_request`: the order in which items are rendered.
use mod_tile.Base.{
  ◌≡◌, refl, true, List, [], ◌∷◌, ◌++◌, List-cases, append-eq-nil, arith, none, some, inl, inr,
}
use mod_tile.Item.{
  Ptr, QueueEnum, QueueEnum-discrete, queue_request, queue_request_prio, queue_request_bulk,
  queue_dirty, queue_render, queue_request_low,
}
use mod_tile.RequestQueue.{
  RequestQueue, Fetched, blocked, fetched, request_queue_fetch_request, render_next, rendered,
  next_queue,
}
use mod_tile.RequestQueue.Invariant.{IsValid, is_waiting}

-- The items that wait, in the order of their rendering.
abbrev pub waiting : RequestQueue → List Ptr
waiting q =
    q.heads queue_request_prio
    ++ (q.heads queue_request
        ++ (q.heads queue_request_low ++ (q.heads queue_dirty ++ q.heads queue_request_bulk)))

-- The list that the first waiting item comes from.
abbrev Selected : RequestQueue → Ptr → List Ptr → Type 0
Selected q p rest =
    (c : QueueEnum) × (r : List Ptr) × (next_queue q ≡ some c)
    × (q.heads c ≡ p ∷ r)
    × (waiting (rendered q c p r) ≡ rest)
    × (is_waiting c ≡ true)

module _ (q : RequestQueue) (v : IsValid q) where
  selected : (p : Ptr) (rest : List Ptr) → waiting q ≡ p ∷ rest → Selected q p rest
  unfolding next_queue rendered QueueEnum-discrete
  selected p rest e = elim (List-cases (q.heads queue_request_prio)) [
    | inr (x, r, a0) ↦ (
      queue_request_prio,
      r,
      ground (arith, v.counted queue_request_prio),
      ground arith,
      ground arith,
      refl,
    )
    | inl a0 ↦ elim (List-cases (q.heads queue_request)) [
      | inr (x, r, a1) ↦ (
        queue_request,
        r,
        ground (arith, v.counted queue_request_prio, v.counted queue_request),
        ground arith,
        ground arith,
        refl,
      )
      | inl a1 ↦ elim (List-cases (q.heads queue_request_low)) [
        | inr (x, r, a2) ↦ (
          queue_request_low,
          r,
          ground (
            arith,
            v.counted queue_request_prio,
            v.counted queue_request,
            v.counted queue_request_low,
          ),
          ground arith,
          ground arith,
          refl,
        )
        | inl a2 ↦ elim (List-cases (q.heads queue_dirty)) [
          | inr (x, r, a3) ↦ (
            queue_dirty,
            r,
            ground (
              arith,
              v.counted queue_request_prio,
              v.counted queue_request,
              v.counted queue_request_low,
              v.counted queue_dirty,
            ),
            ground arith,
            ground arith,
            refl,
          )
          | inl a3 ↦ elim (List-cases (q.heads queue_request_bulk)) [
            | inr (x, r, a4) ↦ (
              queue_request_bulk,
              r,
              ground (
                arith,
                v.counted queue_request_prio,
                v.counted queue_request,
                v.counted queue_request_low,
                v.counted queue_dirty,
                v.counted queue_request_bulk,
              ),
              ground arith,
              ground arith,
              refl,
            )
            | inl a4 ↦ ground arith
          ]
        ]
      ]
    ]
  ]

  none_selected : waiting q ≡ [] → next_queue q ≡ none
  unfolding next_queue
  none_selected e0 =
      let (a0, e1) = append-eq-nil (q.heads queue_request_prio) _ e0 in
      let (a1, e2) = append-eq-nil (q.heads queue_request) _ e1 in
      let (a2, e3) = append-eq-nil (q.heads queue_request_low) _ e2 in
      let (a3, a4) = append-eq-nil (q.heads queue_dirty) _ e3 in
      ground (
        arith,
        v.counted queue_request_prio,
        v.counted queue_request,
        v.counted queue_request_low,
        v.counted queue_dirty,
        v.counted queue_request_bulk,
      )

-- What a fetch should do to the list of those that wait.
abbrev pub TakesFirst : List Ptr → RequestQueue → Fetched → Type 0
TakesFirst [] q r = r ≡ blocked
TakesFirst (p ∷ rest) q r =
    (q' : RequestQueue) × (r ≡ fetched p q')
    × (waiting q' ≡ rest)
    × (q'.heads queue_render ≡ p ∷ q.heads queue_render)
    × (q'.heap.in_queue p ≡ queue_render)

takes_first :
    (q : RequestQueue) (v : IsValid q) (l : List Ptr)
    → waiting q ≡ l
    → TakesFirst l q (request_queue_fetch_request q)
unfolding request_queue_fetch_request render_next
takes_first q v [] e = ground (arith, none_selected q v e)
takes_first q v (p ∷ rest) e =
    let (c, r, s, h, w, _) = selected q v p rest e in
    (
      rendered q c p r,
      ground arith,
      w,
      unfold rendered QueueEnum-discrete in ground arith,
      unfold rendered in ground arith,
    )

-- A fetch blocks exactly if nothing waits. Otherwise it takes the oldest item of the first
-- non-empty queue in the order priority, normal, low, dirty, bulk, leaves the others waiting in
-- their order, and puts the item at the front of the render queue.
pub fetch-TakesFirst :
    (q : RequestQueue) → IsValid q → TakesFirst (waiting q) q (request_queue_fetch_request q)
fetch-TakesFirst q v = takes_first q v (waiting q) refl
