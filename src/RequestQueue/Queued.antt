-- ===== src/RequestQueue/Queued.antt =====
-- src/request_queue.c, `request_queue_no_requests_queued`: the answer is what is really queued.
use mod_tile.Base.{ℤ, pos, negsuc, ◌≡◌, refl, ap, length}
use mod_tile.Protocol.{
  ProtoCmd, cmd_render, cmd_dirty, cmd_render_prio, cmd_render_bulk, cmd_render_low,
}
use mod_tile.Item.{
  queue_request, queue_request_prio, queue_request_bulk, queue_dirty, queue_request_low,
}
use mod_tile.RequestQueue.{RequestQueue, request_queue_no_requests_queued}
use mod_tile.RequestQueue.Invariant.{IsValid}

-- The number that a valid queue should give for a command.
abbrev pub queued : RequestQueue → ProtoCmd → ℤ
queued q cmd_render_prio = pos (length (q.heads queue_request_prio))
queued q cmd_render = pos (length (q.heads queue_request))
queued q cmd_render_low = pos (length (q.heads queue_request_low))
queued q cmd_dirty = pos (length (q.heads queue_dirty))
queued q cmd_render_bulk = pos (length (q.heads queue_request_bulk))
queued q _ = negsuc 0

-- In valid queues the number that is reported for a command is the length of its list, and -1 for a
-- command that has none.
pub no_requests_queued_lem :
    (q : RequestQueue) (cmd : ProtoCmd)
    → IsValid q
    → request_queue_no_requests_queued q cmd ≡ queued q cmd
unfolding request_queue_no_requests_queued
no_requests_queued_lem q cmd_render v = ap pos (v.counted queue_request refl)
no_requests_queued_lem q cmd_dirty v = ap pos (v.counted queue_dirty refl)
no_requests_queued_lem q cmd_render_prio v = ap pos (v.counted queue_request_prio refl)
no_requests_queued_lem q cmd_render_bulk v = ap pos (v.counted queue_request_bulk refl)
no_requests_queued_lem q cmd_render_low v = ap pos (v.counted queue_request_low refl)
no_requests_queued_lem q _ v = refl
