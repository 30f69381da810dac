-- ===== src/Renderd/Tests.antt =====
-- Runs of renderd, and its theorems at concrete inputs.
use mod_tile.Base.{
  ltb, ◌<◌, ◌↔◌, count, true, ◌≡◌, refl, ℤ, pos, false, if◌then◌else◌, List, [], ◌∷◌, Option, none,
  some, ◌⊎◌, arith,
}
use mod_tile.Protocol.{eq_cmd, cmd_ignore, cmd_done}
use mod_tile.Item.{Ptr, queue_request, queue_render, QueueEnum-discrete}
use mod_tile.ItemIndex.{calc_hash_key, chain, lookup_item_idx, insert_item_idx, remove_item_idx}
use mod_tile.RequestQueue.{
  request_queue_remove_request, request_queue_clear_requests_by_fd, free_item, RequestQueue,
  rendered, fetched, empty_queue, request_queue_add_request, request_queue_fetch_request,
}
use mod_tile.RequestQueue.Sample.{heap, start, request}
use mod_tile.RequestQueue.History.{read_item}
use mod_tile.Renderd.{
  hung_up, respond_all, respond_item, answered_by, reply, accept_event, serve_slots, serve_slot,
  Server, Arrival, arrived, serve, receive, rx_request, upgrade, upgrade_name, upgrade_rest,
  valid_command, wants_answer, send_response, poll_round,
}
use mod_tile.Renderd.Respond.{replies}
use mod_tile.Renderd.Owned.{FreesLive, send_response_lem}
use mod_tile.Renderd.Steps.{
  IsSound, empty-IsSound, Step-IsSound, Reach-IsSound, here, next, receives, fetches, responds,
}
use mod_tile.Renderd.Pending.{IsPending, IsAnswered, Reach-IsPending}
use mod_tile.Renderd.Accept.{Keeps, rx_request-Keeps}
use mod_tile.Renderd.Connections.{member, IsServing, GivesFree, poll_round-IsServing}
use mod_tile.Renderd.Slave.{broken_pipe, pipe_closed, collect, slave_round, dispatch_retries}
use mod_tile.Renderd.Slave.Left.{AllRetried, FailsHard, slave_round_lem}
use mod_tile.Renderd.Daemon.{AllTo, Run, polls, takes, after, Run-AllTo}

-- A request is read on descriptor 5, and a thread takes it.
abbrev accepted : RequestQueue
accepted = (serve (some 1) start (request 9) (pos 5)).1

abbrev taken : RequestQueue
taken = rendered accepted queue_request 1 []

fetches_it : request_queue_fetch_request accepted ≡ fetched 1 taken
unfolding rendered request_queue_fetch_request serve receive rx_request upgrade upgrade_name
    upgrade_rest valid_command wants_answer request_queue_add_request empty_queue QueueEnum-discrete
    read_item calc_hash_key chain lookup_item_idx insert_item_idx
fetches_it = refl

accepts_it :
    ((rx_request (some 1) start (request 9) (pos 5)).0 ≡ cmd_ignore)
    × (taken.heap.in_queue 1 ≡ queue_render)
    × (taken.heads queue_render ≡ 1 ∷ [])
    × (accepted.heap.fd 1 ≡ pos 5)
    × (accepted.heap.req 1 ≡ request 9)
unfolding rendered serve receive rx_request upgrade upgrade_name upgrade_rest valid_command
    wants_answer request_queue_add_request empty_queue QueueEnum-discrete read_item calc_hash_key
    chain lookup_item_idx insert_item_idx
accepts_it = (refl, refl, refl, refl, refl)

unused : start.heap.allocated 1 ≡ false
unfolding empty_queue
unused = refl

Reach-IsSound_example : IsSound taken
unfolding rendered serve receive rx_request upgrade upgrade_name upgrade_rest valid_command
    wants_answer request_queue_add_request empty_queue QueueEnum-discrete read_item calc_hash_key
    chain lookup_item_idx insert_item_idx
Reach-IsSound_example =
    Reach-IsSound (empty-IsSound heap)
      (next (next here (receives 1 (request 9) (pos 5) unused)) (fetches 1 taken fetches_it))

accepted-IsSound : IsSound accepted
unfolding serve
accepted-IsSound = Step-IsSound (receives 1 (request 9) (pos 5) unused) (empty-IsSound heap)

taken-IsSound : IsSound taken
taken-IsSound = Step-IsSound (fetches 1 taken fetches_it) accepted-IsSound

abbrev answered : List Ptr
answered = 1 ∷ taken.heap.duplicates 1

send_response_example :
    FreesLive answered taken.heap.allocated
    × ((d : Ptr)
        → (send_response taken 1 cmd_done (pos 20)).1.heap.allocated d
          ≡ (if ltb 0 (count d answered) then false else taken.heap.allocated d))
    × ((send_response taken 1 cmd_done (pos 20)).0
        ≡ replies taken.heap.fd taken.heap.req cmd_done answered)
unfolding rendered serve receive rx_request upgrade upgrade_name upgrade_rest valid_command
    wants_answer request_queue_add_request empty_queue QueueEnum-discrete read_item calc_hash_key
    chain lookup_item_idx insert_item_idx
send_response_example =
    send_response_lem taken taken-IsSound.valid taken-IsSound.owned 1 cmd_done (pos 20) refl
      (omega arith)

taken-IsPending : IsPending taken 1 (pos 5) (request 9)
unfolding rendered serve receive rx_request upgrade upgrade_name upgrade_rest valid_command
    wants_answer request_queue_add_request empty_queue QueueEnum-discrete read_item calc_hash_key
    chain lookup_item_idx insert_item_idx
taken-IsPending = record {
  reader = refl;
  content = refl;
  stands = (1, omega arith, (λ e. ground (arith, e)), omega arith);
}

Reach-IsPending_example :
    IsPending (send_response taken 1 cmd_done (pos 20)).1 1 (pos 5) (request 9)
    ⊎ IsAnswered (send_response taken 1 cmd_done (pos 20)).0 (pos 5) (request 9)
unfolding rendered serve receive rx_request upgrade upgrade_name upgrade_rest valid_command
    wants_answer request_queue_add_request empty_queue QueueEnum-discrete read_item calc_hash_key
    chain lookup_item_idx insert_item_idx
Reach-IsPending_example =
    Reach-IsPending refl taken-IsSound taken-IsPending
      (next here (responds 1 cmd_done (pos 20) refl (omega arith))) (tt, tt)

rx_request-Keeps_example :
    Keeps start 1 (pos 5) (upgrade (request 9)) (rx_request (some 1) start (request 9) (pos 5))
unfolding eq_cmd
rx_request-Keeps_example =
    rx_request-Keeps start 1 (request 9) (pos 5) (empty-IsSound heap) unused refl

abbrev malloc : RequestQueue → Option Ptr
malloc q = if q.heap.allocated 1 then none else some 1

malloc-GivesFree : GivesFree malloc
malloc-GivesFree q p e = ground arith

abbrev server : Server
server = record { slots = pos 5 ∷ []; num_conns = pos 1; queue = start }

server-IsServing : IsServing server.slots server
unfolding empty_queue
server-IsServing = record {
  sound = (empty-IsSound heap);
  counted = refl;
  bounded = omega arith;
  connected = λ t d h k. absurd (omega arith);
}

abbrev arrivals : ℤ → Arrival
arrivals fd = arrived (request 9)

abbrev polled : Server
polled = (poll_round malloc (some (pos 6)) arrivals server).1

poll_round-IsServing_example : IsServing polled.slots polled
poll_round-IsServing_example =
    poll_round-IsServing malloc (some (pos 6)) arrivals server malloc-GivesFree server-IsServing

-- The connection of `server` sends the request, and a thread takes it.
abbrev served : Server
served = (poll_round malloc none arrivals server).1

takes_it : request_queue_fetch_request served.queue ≡ fetched 1 taken
unfolding rendered poll_round accept_event serve_slots serve_slot serve receive rx_request upgrade
    upgrade_name upgrade_rest valid_command wants_answer request_queue_add_request empty_queue
    QueueEnum-discrete read_item calc_hash_key chain lookup_item_idx insert_item_idx
    request_queue_fetch_request
takes_it = refl

Run-AllTo_example : AllTo served.slots (send_response taken 1 cmd_done (pos 20)).0
unfolding rendered poll_round accept_event serve_slots serve_slot serve receive rx_request upgrade
    upgrade_name upgrade_rest valid_command wants_answer request_queue_add_request empty_queue
    QueueEnum-discrete read_item calc_hash_key chain lookup_item_idx insert_item_idx
    request_queue_fetch_request
Run-AllTo_example =
    Run-AllTo {t = record served { queue = taken }} malloc-GivesFree server-IsServing
      (after (after Run.start (polls none arrivals)) (takes 1 taken takes_it)) 1 cmd_done (pos 20)
      refl (omega arith)

-- The connection is closed after `send_response` has removed the item and before it sends: the clearing
-- of the queues does not find the item any more, and the answer goes to a descriptor that is closed.
abbrev removed : RequestQueue
removed = request_queue_remove_request taken 1 (pos 20)

abbrev closed : Server
closed = (poll_round malloc none (λ fd. hung_up) (record server { queue = removed })).1

answer_after_close :
    ((respond_all cmd_done (1 ∷ []) closed.queue).0
      ≡ record { to = pos 5; content = record (request 9) { cmd = cmd_done } } ∷ [])
    × (member (pos 5) closed.slots ≡ false)
unfolding rendered poll_round accept_event serve_slots serve_slot serve receive rx_request upgrade
    upgrade_name upgrade_rest valid_command wants_answer request_queue_add_request empty_queue
    QueueEnum-discrete read_item calc_hash_key chain lookup_item_idx insert_item_idx remove_item_idx
    request_queue_remove_request request_queue_clear_requests_by_fd respond_all respond_item
    answered_by reply free_item
answer_after_close = (refl, refl)

-- A slave whose socket breaks at every try, with reconnections that succeed.
slave_round_example :
    (0
      < count 1 (
          (slave_round
              (λ s. cmd_done)
              (λ j. broken_pipe)
              (λ j. true)
              (pipe_closed ∷ [])
              taken
              1).1.heads
            queue_render))
    ↔ (AllRetried dispatch_retries (λ j. broken_pipe) (λ j. true)
        ⊎ FailsHard dispatch_retries (λ j. broken_pipe) (λ j. true))
unfolding rendered serve receive rx_request upgrade upgrade_name upgrade_rest valid_command
    wants_answer collect request_queue_add_request empty_queue QueueEnum-discrete read_item
    calc_hash_key chain lookup_item_idx insert_item_idx
slave_round_example =
    slave_round_lem (λ s. cmd_done) (λ j. broken_pipe) (λ j. true) (pipe_closed ∷ []) taken 1
      taken-IsSound.valid (omega arith) (λ h. cc)
