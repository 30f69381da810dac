-- ===== src/Renderd/Connected.antt =====
-- src/renderd.c: the readers that the queues still know. Nothing that is queued, or waits for what is
-- queued, has a descriptor outside a set of descriptors; the steps of the daemon keep it so.
use mod_tile.Base.{
  ◌≢◌, ◌<◌, ◌≡◌, refl, ℤ, true, false, Bool, List, [], ◌∷◌, count, arith, Option, Option-cases,
  none, some, inl, inr, ◌⊎◌, if◌then◌else◌, count-append, count-erase, if_both, erase,
}
use mod_tile.Protocol.{ProtoCmd, Protocol, cmd_dirty, eq_cmd}
use mod_tile.TilePath.{clear_low}
use mod_tile.Item.{Ptr, QueueEnum, queue_dirty}
use mod_tile.RequestQueue.{
  RequestQueue, rendered, enqueue, attach_duplicate, drop_request, free_item, add_new, choose_queue,
  request_queue_add_request, request_queue_clear_requests_by_fd, request_queue_remove_request,
  fd_invalid,
}
use mod_tile.RequestQueue.Invariant.{IsValid, IsFresh, links, is_waiting}
use mod_tile.RequestQueue.History.{read_item, read-IsValid, read-IsFresh}
use mod_tile.RequestQueue.AddValid.{add_cases}
use mod_tile.RequestQueue.FetchValid.{links_same}
use mod_tile.RequestQueue.Clear.{clear_silences}
use mod_tile.Renderd.{receive, send_response, serve, upgrade}
use mod_tile.Renderd.Respond.{respond_all-Responded}
use mod_tile.Renderd.Owned.{links_same as responded_links}
use mod_tile.Renderd.Accept.{read_fd}
use mod_tile.Renderd.Steps.{IsSound, rx_request_cases}

abbrev pub AllOpen : (ℤ → Bool) → RequestQueue → Type 0
AllOpen ok q =
    (t d : Ptr) → 0 < links q t → 0 < count d (t ∷ q.heap.duplicates t) → ok (q.heap.fd d) ≡ true

module _ (ok : ℤ → Bool) (invalid : ok fd_invalid ≡ true) (q : RequestQueue) (v : IsValid q)
    (a : AllOpen ok q) where
  read-AllOpen :
      (p : Ptr) (r : Protocol) (mx my fd : ℤ)
      → q.heap.allocated p ≡ false
      → ok fd ≡ true
      → AllOpen ok (read_item q p r mx my fd)
  unfolding read_item
  read-AllOpen p r mx my fd free mine t d h k = ground (arith, v.live (q.heap.in_queue t) t, a t d)

  module _ (p : Ptr) (f : IsFresh q p) (mine : ok (q.heap.fd p) ≡ true) where
    enqueue-AllOpen : (c : QueueEnum) → AllOpen ok (enqueue q p c)
    unfolding enqueue
    enqueue-AllOpen c t d h k = ground (
      arith,
      f.alone,
      f.unlinked (q.heap.in_queue t),
      count-append t (q.heads (q.heap.in_queue t)) (p ∷ []),
      a t d,
    )

    attach-AllOpen :
        (s : Ptr)
        → 0 < links q s
        → q.heap.in_queue s ≢ queue_dirty
        → AllOpen ok (attach_duplicate q p s)
    unfolding attach_duplicate
    attach-AllOpen s linked n t d h k = ground (
      arith,
      f.unlinked (q.heap.in_queue s),
      f.unlinked (q.heap.in_queue t),
      v.no_duplicate,
      a t d,
    )

    new-AllOpen : AllOpen ok (add_new q p).1
    unfolding add_new drop_request free_item
    new-AllOpen = elim (Option-cases (choose_queue q (q.heap.req p).cmd)) [
      | inl e ↦ rw (e, add_new) a
      | inr (c, e) ↦ rw (e, add_new) (enqueue-AllOpen c)
    ]

    add-AllOpen : AllOpen ok (request_queue_add_request q p).1
    unfolding free_item
    add-AllOpen = add_cases q p v f (λ r. AllOpen ok r.1) (λ n. new-AllOpen) attach-AllOpen a

  pub rendered-AllOpen :
      (c : QueueEnum) (s : Ptr) (rest : List Ptr)
      → is_waiting c ≡ true
      → q.heads c ≡ s ∷ rest
      → AllOpen ok (rendered q c s rest)
  unfolding rendered
  rendered-AllOpen c s rest w e t d h k = a t d (rw (links_same q c s rest v w e t) at h) k

  pub response-AllOpen :
      (p : Ptr) (rsp : ProtoCmd) (time : ℤ) → AllOpen ok (send_response q p rsp time).1
  unfolding send_response request_queue_remove_request
  response-AllOpen p rsp time t d h k =
      let r =
        respond_all-Responded rsp (p ∷ q.heap.duplicates p)
          (request_queue_remove_request q p time) in
      let h' : 0 < count t (erase p (q.heads (q.heap.in_queue t))) =
        rw (responded_links r t) at h in
      rw r.fd (
        a t d (ground (arith, count-erase t p (q.heads (q.heap.in_queue t))))
          (rw r.duplicates at k))

  pub clear-AllOpen :
      (gone : ℤ)
      → gone ≢ fd_invalid
      → (ok' : ℤ → Bool) → ok' fd_invalid ≡ true
      → ((x : ℤ) → x ≢ gone → ok x ≡ true → ok' x ≡ true)
      → AllOpen ok' (request_queue_clear_requests_by_fd q gone)
  clear-AllOpen gone n ok' invalid' keeps t d h k = cleared _ (clear_silences q gone t d v n h' k')
    where
      h' : 0 < links q t
      h' = unfold request_queue_clear_requests_by_fd in h

      k' : 0 < count d (t ∷ q.heap.duplicates t)
      k' = unfold request_queue_clear_requests_by_fd in k

      cleared :
          (x : ℤ)
          → (x ≢ gone) × ((x ≡ q.heap.fd d) ⊎ ((q.heap.fd d ≡ gone) × (x ≡ fd_invalid)))
          → ok' x ≡ true
      cleared x (ne, inl same) = keeps x ne (rw same (a t d h' k'))
      cleared x (ne, inr (g, e)) = rw e invalid'

pub serve-AllOpen :
    (ok : ℤ → Bool) (malloc : Option Ptr) (q : RequestQueue) (req : Protocol) (fd : ℤ)
    → ok fd_invalid ≡ true
    → ok fd ≡ true
    → IsSound q
    → ((p : Ptr) → malloc ≡ some p → q.heap.allocated p ≡ false)
    → AllOpen ok q
    → AllOpen ok (serve malloc q req fd).1
unfolding serve receive
serve-AllOpen ok none q req fd invalid mine s free a =
    rx_request_cases (AllOpen ok) q req fd a none a
serve-AllOpen ok (some p) q req fd invalid mine s free a =
    let r = upgrade req in
    let d : ℤ = if eq_cmd r.cmd cmd_dirty then fd_invalid else fd in
    rx_request_cases (AllOpen ok) q req fd a (some p) (
      add-AllOpen ok invalid _ (read-IsValid q s.valid p r _ _ d (free p refl))
        (read-AllOpen ok invalid q s.valid a p r _ _ d (free p refl)
          (if_both (λ x. ok x ≡ true) (eq_cmd r.cmd cmd_dirty) invalid mine))
        p (read-IsFresh q s.valid p r _ _ d (free p refl))
        (rw (read_fd q p r (clear_low r.x) (clear_low r.y) d)
          (if_both (λ x. ok x ≡ true) (eq_cmd r.cmd cmd_dirty) invalid mine)))
