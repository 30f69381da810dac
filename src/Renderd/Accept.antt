-- ===== src/Renderd/Accept.antt =====
-- src/renderd.c, `rx_request`: what its status promises to a client.
use mod_tile.Base.{
  subst, ◌≡◌, refl, ◌∙◌, ap, ℤ, pos, ltb_ℤ, false, not, arith, Option-cases, some, inl, inr, ◌⊎◌,
  if_both,
}
use mod_tile.Protocol.{
  ProtoCmd, Protocol, cmd_ignore, cmd_not_done, cmd_dirty, eq_cmd, cmd_render, cmd_done,
  cmd_render_prio, cmd_render_bulk, cmd_render_low,
}
use mod_tile.Item.{Ptr}
use mod_tile.TilePath.{clear_low}
use mod_tile.RequestQueue.{
  RequestQueue, enqueue, attach_duplicate, drop_request, free_item, add_new, choose_queue,
  request_queue_add_request,
}
use mod_tile.RequestQueue.Invariant.{IsValid, IsFresh}
use mod_tile.RequestQueue.History.{read_item, read-IsValid, read-IsFresh}
use mod_tile.RequestQueue.AddValid.{add_cases}
use mod_tile.RequestQueue.Answer.{Promise, Silenced, add-Promise}
use mod_tile.Renderd.{receive, rx_request, upgrade, upgrade_name, upgrade_rest, valid_command}
use mod_tile.Renderd.Steps.{IsSound}
use mod_tile.Renderd.Pending.{IsPending}

-- Adding an item changes no request.
add_keeps_req :
    (q : RequestQueue) (p : Ptr)
    → IsValid q
    → IsFresh q p
    → (request_queue_add_request q p).1.heap.req ≡ q.heap.req
unfolding attach_duplicate free_item add_new
add_keeps_req q p v f =
    add_cases q p v f (λ r. r.1.heap.req ≡ q.heap.req) (λ e. new) (λ t h n. refl) refl
  where
    new : (add_new q p).1.heap.req ≡ q.heap.req
    new = elim (Option-cases (choose_queue q (q.heap.req p).cmd)) [
      | inl e ↦ unfold drop_request free_item in rw (e, add_new) refl
      | inr (c, e) ↦ unfold enqueue in rw (e, add_new) refl
    ]

-- Accepted, the request waits for its reader; refused, it leaves the queue as it was, or the reader is
-- no longer waited for.
abbrev pub Keeps : RequestQueue → Ptr → ℤ → Protocol → ProtoCmd × RequestQueue → Type 0
Keeps q p fd req (cmd_ignore, q') = IsPending q' p fd req
Keeps q p fd req (cmd_not_done, q') = (q' ≡ q) ⊎ Silenced q' p
Keeps q p fd req (_, q') = ⊥

Promise-Keeps :
    (q : RequestQueue) (p : Ptr) (fd : ℤ) (req : Protocol) (r : ProtoCmd × RequestQueue)
    → r.1.heap.req p ≡ req
    → Promise fd p r
    → Keeps q p fd req r
Promise-Keeps q p fd req (cmd_ignore, q') e (same, inl (h, n)) = record {
  reader = same;
  content = e;
  stands = (p, h, n, ground arith);
}
Promise-Keeps q p fd req (cmd_ignore, q') e (same, inr (t, h, n, k)) = record {
  reader = same;
  content = e;
  stands = (t, h, n, ground arith);
}
Promise-Keeps q p fd req (cmd_not_done, q') e h = inr h
Promise-Keeps q p fd req (cmd_render, q') e h = h
Promise-Keeps q p fd req (cmd_dirty, q') e h = h
Promise-Keeps q p fd req (cmd_done, q') e h = h
Promise-Keeps q p fd req (cmd_render_prio, q') e h = h
Promise-Keeps q p fd req (cmd_render_bulk, q') e h = h
Promise-Keeps q p fd req (cmd_render_low, q') e h = h

module _ (q : RequestQueue) (p : Ptr) (req : Protocol) (mx my fd : ℤ) where
  pub read_req : (read_item q p req mx my fd).heap.req p ≡ req
  unfolding read_item
  read_req = ground arith

  pub read_fd : (read_item q p req mx my fd).heap.fd p ≡ fd
  unfolding read_item
  read_fd = ground arith

receive-Keeps :
    (q : RequestQueue) (p : Ptr) (req : Protocol) (fd : ℤ)
    → IsSound q
    → q.heap.allocated p ≡ false
    → eq_cmd req.cmd cmd_dirty ≡ false
    → Keeps q p fd req (receive (some p) q req fd)
unfolding receive
receive-Keeps q p req fd s free loud = rw loud (
    Promise-Keeps q p fd req
      (request_queue_add_request (read_item q p req (clear_low req.x) (clear_low req.y) fd) p)
      (ap (λ (g : Ptr → Protocol). g p)
          (add_keeps_req (read_item q p req (clear_low req.x) (clear_low req.y) fd) p (v fd) (f fd))
        ∙ read_req q p req _ _ fd)
      (subst
        (λ x.
          Promise x p (
            request_queue_add_request (read_item q p req (clear_low req.x) (clear_low req.y) fd) p))
        (read_fd q p req _ _ fd)
        (add-Promise (read_item q p req (clear_low req.x) (clear_low req.y) fd) p (v fd) (f fd))))
  where
    v : (d : ℤ) → IsValid (read_item q p req (clear_low req.x) (clear_low req.y) d)
    v d = read-IsValid q s.valid p req (clear_low req.x) (clear_low req.y) d free

    f : (d : ℤ) → IsFresh (read_item q p req (clear_low req.x) (clear_low req.y) d) p
    f d = read-IsFresh q s.valid p req (clear_low req.x) (clear_low req.y) d free

upgrade_cmd : (req : Protocol) → (upgrade req).cmd ≡ req.cmd
unfolding upgrade upgrade_name upgrade_rest
upgrade_cmd req = ground arith

-- For sound queues, an address that is not allocated and a request that is not for a dirty tile:
-- `rx_request` returns `cmdIgnore` or `cmdNotDone`. With `cmdIgnore` the request, upgraded to
-- version 3, stands in a list whose items are answered, or waits for an item there, with its reader's
-- descriptor. With `cmdNotDone` the queues are as before, or the request's item is freed, or is kept
-- without a reader.
pub rx_request-Keeps :
    (q : RequestQueue) (p : Ptr) (req : Protocol) (fd : ℤ)
    → IsSound q
    → q.heap.allocated p ≡ false
    → eq_cmd req.cmd cmd_dirty ≡ false
    → Keeps q p fd (upgrade req) (rx_request (some p) q req fd)
unfolding rx_request
rx_request-Keeps q p req fd s free loud =
    if_both (Keeps q p fd (upgrade req)) (ltb_ℤ (pos 3) req.ver) {x = (cmd_not_done, q)} (inl refl)
      (if_both (Keeps q p fd (upgrade req)) (not (valid_command req.cmd)) {x = (cmd_not_done, q)}
        (inl refl) (receive-Keeps q p (upgrade req) fd s free (rw (upgrade_cmd req) loud)))
