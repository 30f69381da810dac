-- ===== src/Renderd.antt =====
-- src/renderd.c: the daemon's answers and its reception of requests. One thread runs `process_loop`;
-- any number of others fetch items, render them and call `send_response`. What `rx_request` does
-- before it takes the queue's lock touches only an item that no other thread knows, so the whole call
-- is one step. `send_response` is taken as one step too: once it has removed the item, the item and its
-- duplicates are in no list, and no other call reads or changes them. What a call between its removal
-- and its sends can change is who owns the descriptors (Renderd.Daemon).
pub mod Respond
pub mod Owned
pub mod Steps
pub mod Pending
pub mod Accept
pub mod Connected
pub mod Connections
pub mod Daemon
pub mod Slave
mod Tests
use mod_tile.Base.{
  ℕ, suc, ◌+◌, ◌-◌, ℤ, pos, negsuc, ltb_ℤ, eq_ℤ, ◌+ℤ◌, ◌-ℤ◌, Bool, true, false, not, ◌&&◌, ◌||◌,
  List, [], ◌∷◌, ◌++◌, Option, none, some, ◌==◌, ltb, if◌then◌else◌, length,
}
use mod_tile.Protocol.{
  ProtoCmd, Protocol, cmd_ignore, cmd_render, cmd_dirty, cmd_not_done, cmd_render_prio,
  cmd_render_bulk, cmd_render_low, eq_cmd,
}
use mod_tile.Item.{Ptr, Heap, update}
use mod_tile.RequestQueue.{
  RequestQueue, free_item, request_queue_add_request, request_queue_remove_request,
  request_queue_clear_requests_by_fd, fd_invalid,
}
use mod_tile.RequestQueue.History.{read_item}
use mod_tile.TilePath.{clear_low}

-- A message and the descriptor that `send_cmd` writes it to.
pub record Message : Type 0 where
  pub to : ℤ
  pub content : Protocol

-- The commands that are answered
unfoldable pub wants_answer : ProtoCmd → Bool
wants_answer cmd_render = true
wants_answer cmd_render_prio = true
wants_answer cmd_render_low = true
wants_answer cmd_render_bulk = true
wants_answer _ = false

-- One round of the loop in `send_response`: the answer, if the item has a reader, and the item's end.
unfoldable pub answered_by : Heap → Ptr → Bool
unfolding wants_answer
answered_by h p = not (eq_ℤ (h.fd p) fd_invalid) && wants_answer (h.req p).cmd

unfoldable pub reply : Heap → ProtoCmd → Ptr → Message
reply h rsp p = record { to = h.fd p; content = record (h.req p) { cmd = rsp } }

unfoldable pub respond_item : ProtoCmd → Ptr → RequestQueue → List Message × RequestQueue
unfolding answered_by reply free_item
respond_item rsp p q =
    if answered_by q.heap p
    then (
      reply q.heap rsp p ∷ [],
      free_item
          (record q { heap = record h { req = update h.req p (record (h.req p) { cmd = rsp }) } })
          p,
    )
    else ([], free_item q p)
  where
    h : Heap
    h = q.heap

-- The loop over the item and its duplicates
unfoldable pub respond_all : ProtoCmd → List Ptr → RequestQueue → List Message × RequestQueue
unfolding respond_item
respond_all rsp [] q = ([], q)
respond_all rsp (p ∷ ps) q =
    let (sent, q1) = respond_item rsp p q in
    let (more, q2) = respond_all rsp ps q1 in (sent ++ more, q2)

-- `send_response`
unfoldable pub send_response : RequestQueue → Ptr → ProtoCmd → ℤ → List Message × RequestQueue
send_response q p rsp render_time =
    respond_all rsp (p ∷ q.heap.duplicates p) (request_queue_remove_request q p render_time)

-- "default" and "image/png"
abbrev pub xmlconfig_default : List ℕ
xmlconfig_default = b'd' ∷ b'e' ∷ b'f' ∷ b'a' ∷ b'u' ∷ b'l' ∷ b't' ∷ []

abbrev pub image_png : List ℕ
image_png = b'i' ∷ b'm' ∷ b'a' ∷ b'g' ∷ b'e' ∷ b'/' ∷ b'p' ∷ b'n' ∷ b'g' ∷ []

-- A request of version 1 or 2 as one of version 3
unfoldable pub upgrade_name : Protocol → Protocol
upgrade_name req = if eq_ℤ req.ver (pos 1) then record req { xmlname = xmlconfig_default } else req

unfoldable pub upgrade_rest : Protocol → Protocol
upgrade_rest req =
    if ltb_ℤ req.ver (pos 3) then record req { mimetype = image_png; options = [] } else req

unfoldable pub upgrade : Protocol → Protocol
unfolding upgrade_name upgrade_rest
upgrade req = upgrade_rest (upgrade_name req)

unfoldable pub valid_command : ProtoCmd → Bool
unfolding wants_answer
valid_command cmd_dirty = true
valid_command cmd = wants_answer cmd

-- `rx_request` once the request is upgraded; `malloc` is the address of the new item, if there is
-- memory for it.
unfoldable pub receive : Option Ptr → RequestQueue → Protocol → ℤ → ProtoCmd × RequestQueue
receive none q req fd = (cmd_not_done, q)
receive (some p) q req fd =
    request_queue_add_request
      (read_item q p req (clear_low req.x) (clear_low req.y)
        (if eq_cmd req.cmd cmd_dirty then fd_invalid else fd))
      p

-- `rx_request`
unfoldable pub rx_request : Option Ptr → RequestQueue → Protocol → ℤ → ProtoCmd × RequestQueue
rx_request malloc q req fd =
    if ltb_ℤ (pos 3) req.ver
    then (cmd_not_done, q)
    else if not (valid_command req.cmd)
    then (cmd_not_done, q)
    else receive malloc q (upgrade req) fd

-- What `process_loop` does with a request that it has read from a connection: `rx_request` has upgraded
-- the loop's own copy of it, and a refusal is sent back in that copy.
unfoldable pub serve : Option Ptr → RequestQueue → Protocol → ℤ → List Message × RequestQueue
serve malloc q req fd =
    let (rsp, q') = rx_request malloc q req fd in
    (
      if eq_cmd rsp cmd_not_done
          then record { to = fd; content = record (upgrade req) { cmd = cmd_not_done } } ∷ []
          else [],
      q',
    )

abbrev pub max_connections : ℕ
max_connections = 2048

-- The state of `process_loop`: the descriptors in the slots behind the two special ones, `num_conns`,
-- and the queue.
pub record Server : Type 0 where
  pub slots : List ℤ
  pub num_conns : ℤ
  pub queue : RequestQueue

-- A new connection takes the first unused slot, or one more if there is room; else it is closed.
unfoldable pub take_slot : ℤ → List ℤ → Option (List ℤ)
take_slot incoming [] = none
take_slot incoming (fd ∷ fds) =
    if eq_ℤ fd fd_invalid
    then some (incoming ∷ fds)
    else elim (take_slot incoming fds) [ none ↦ none | some r ↦ some (fd ∷ r) ]

unfoldable pub new_slot : ℤ → List ℤ → Option (List ℤ)
new_slot incoming fds = elim (take_slot incoming fds) [
  | some r ↦ some r
  | none ↦ if length fds == max_connections then none else some (fds ++ incoming ∷ [])
]

-- The result of `accept`: a failure, or a connection.
unfoldable pub accept_connection : ℤ → Server → Server
unfolding new_slot take_slot
accept_connection incoming s =
    if ltb_ℤ incoming (pos 0) then s else elim (new_slot incoming s.slots) [
      | none ↦ s
      | some fds ↦ record s { slots = fds; num_conns = s.num_conns +ℤ pos 1 }
    ]

unfoldable pub accept_event : Option ℤ → Server → Server
accept_event none s = s
accept_event (some incoming) s = accept_connection incoming s

-- What `poll` and `recv_cmd` give for a connection: nothing to read, the end of the connection or an
-- error, or a message.
pub data Arrival : Type 0 where
  quiet hung_up : Arrival
  arrived : Protocol → Arrival

-- One round of the loop over the slots.
unfoldable pub serve_slot :
    (RequestQueue → Option Ptr) → Arrival → ℤ → Server → List Message × ℤ × Server
unfolding serve
serve_slot malloc quiet fd s = ([], fd, s)
serve_slot malloc hung_up fd s = (
  [],
  fd_invalid,
  record s {
    num_conns = s.num_conns -ℤ pos 1;
    queue = request_queue_clear_requests_by_fd s.queue fd;
  },
)
serve_slot malloc (arrived req) fd s =
    let (sent, q) = serve (malloc s.queue) s.queue req fd in (sent, fd, record s { queue = q })

-- The loop over the slots; `arrivals` tells what there is to read on a descriptor that is not negative.
unfoldable pub serve_slots :
    (RequestQueue → Option Ptr) → (ℤ → Arrival) → List ℤ → Server → List Message × List ℤ × Server
unfolding serve_slot
serve_slots malloc arrivals [] s = ([], [], s)
serve_slots malloc arrivals (fd ∷ fds) s =
    let (sent, fd', s1) =
      serve_slot malloc (if ltb_ℤ fd (pos 0) then quiet else arrivals fd) fd s in
    let (more, fds', s2) = serve_slots malloc arrivals fds s1 in (sent ++ more, fd' ∷ fds', s2)

-- What one call of `poll` leads to: a connection is accepted where one was asked for, and each slot is
-- served.
unfoldable pub poll_round :
    (RequestQueue → Option Ptr) → Option ℤ → (ℤ → Arrival) → Server → List Message × Server
poll_round malloc incoming arrivals s =
    let s1 = accept_event incoming s in
    let (sent, fds, s2) = serve_slots malloc arrivals s1.slots s1 in
    (sent, record s2 { slots = fds })
