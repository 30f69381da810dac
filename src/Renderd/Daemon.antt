-- ===== src/Renderd/Daemon.antt =====
-- src/renderd.c: the connections' thread and the rendering threads together. A step is a fetch, one call
-- of `poll` with all that it leads to, or one whole answer. The code holds no lock while it sends an
-- answer, so these are the runs in which no call of `poll` falls between the removal of an item and
-- the end of its answer; Renderd.Tests has a run in which one does.
use mod_tile.Base.{
  subst, sym, ◌≡◌, ◌<◌, refl, ℤ, eq_ℤ, true, not, ◌&&◌, List, [], ◌∷◌, count, arith, Option,
  Bool-cases, inl, inr,
}
use mod_tile.Protocol.{ProtoCmd, Protocol}
use mod_tile.Item.{Ptr, queue_render}
use mod_tile.RequestQueue.{
  RequestQueue, Fetched, blocked, fault, fetched, request_queue_fetch_request, fd_invalid,
}
use mod_tile.RequestQueue.FetchValid.{fetch_cases}
use mod_tile.Renderd.{Message, Server, Arrival, poll_round, send_response, wants_answer}
use mod_tile.Renderd.Respond.{replies}
use mod_tile.Renderd.Owned.{send_response_lem}
use mod_tile.Renderd.Steps.{Step-IsSound, responds, rendered-IsSound}
use mod_tile.Renderd.Connected.{rendered-AllOpen, response-AllOpen}
use mod_tile.Renderd.Connections.{IsServing, GivesFree, poll_round-IsServing, is_open, member}

pub data DaemonStep (malloc : RequestQueue → Option Ptr) (s : Server)
    : List Message → Server → Type 0 where
  polls :
      (incoming : Option ℤ) (arrivals : ℤ → Arrival)
      → DaemonStep malloc s
          (poll_round malloc incoming arrivals s).0
          (poll_round malloc incoming arrivals s).1
  takes :
      (p : Ptr) (q : RequestQueue)
      → request_queue_fetch_request s.queue ≡ fetched p q
      → DaemonStep malloc s [] (record s { queue = q })
  answers :
      (p : Ptr) (rsp : ProtoCmd) (time : ℤ)
      → s.queue.heap.in_queue p ≡ queue_render
      → 0 < count p (s.queue.heads queue_render)
      → DaemonStep malloc s
          (send_response s.queue p rsp time).0
          (record s { queue = (send_response s.queue p rsp time).1 })

pub data Run (malloc : RequestQueue → Option Ptr) (s : Server) : Server → Type 0 where
  start : Run malloc s s
  after :
      {r t : Server} {sent : List Message}
      → Run malloc s r
      → DaemonStep malloc r sent t
      → Run malloc s t

module _ (s : Server) (i : IsServing s.slots s) where
  abbrev Taken : Fetched → Type 0
  Taken blocked = Unit {0}
  Taken fault = ⊥
  Taken (fetched p q) = IsServing s.slots (record s { queue = q })

  fetch-Taken : Taken (request_queue_fetch_request s.queue)
  fetch-Taken =
      fetch_cases s.queue i.sound.valid Taken
        (λ c p rest w e. record {
          sound = rendered-IsSound s.queue c p rest i.sound w e;
          counted = i.counted;
          bounded = i.bounded;
          connected =
              rendered-AllOpen (is_open s.slots) refl s.queue i.sound.valid i.connected c p rest w
                e;
        })
        (λ e. tt)

  response-IsServing :
      (p : Ptr) (rsp : ProtoCmd) (time : ℤ)
      → s.queue.heap.in_queue p ≡ queue_render
      → 0 < count p (s.queue.heads queue_render)
      → IsServing s.slots (record s { queue = (send_response s.queue p rsp time).1 })
  response-IsServing p rsp time t h = record {
    sound = Step-IsSound (responds p rsp time t h) i.sound;
    counted = i.counted;
    bounded = i.bounded;
    connected =
        response-AllOpen (is_open s.slots) refl s.queue i.sound.valid i.connected p rsp time;
  }

DaemonStep-IsServing :
    {malloc : RequestQueue → Option Ptr} {s t : Server} {sent : List Message}
    → GivesFree malloc
    → DaemonStep malloc s sent t
    → IsServing s.slots s
    → IsServing t.slots t
DaemonStep-IsServing {malloc} {s} gives (polls incoming arrivals) i =
    poll_round-IsServing malloc incoming arrivals s gives i
DaemonStep-IsServing {malloc} {s} gives (takes p q e) i = subst (Taken s i) e (fetch-Taken s i)
DaemonStep-IsServing {malloc} {s} gives (answers p rsp time t h) i =
    response-IsServing s i p rsp time t h

Run-IsServing :
    {malloc : RequestQueue → Option Ptr} {s t : Server}
    → GivesFree malloc
    → Run malloc s t
    → IsServing s.slots s
    → IsServing t.slots t
Run-IsServing gives start i = i
Run-IsServing gives (after r m) i = DaemonStep-IsServing gives m (Run-IsServing gives r i)

-- All the messages go to open connections.
abbrev pub AllTo : List ℤ → List Message → Type 0
AllTo slots [] = Unit
AllTo slots (m ∷ ms) = (member m.to slots ≡ true) × AllTo slots ms

replies-AllTo :
    (slots : List ℤ) (fd : Ptr → ℤ) (req : Ptr → Protocol) (rsp : ProtoCmd) (ps : List Ptr)
    → ((d : Ptr) → 0 < count d ps → is_open slots (fd d) ≡ true)
    → AllTo slots (replies fd req rsp ps)
unfolding replies
replies-AllTo slots fd req rsp [] h = tt
replies-AllTo slots fd req rsp (p ∷ ps) h =
    let rest = replies-AllTo slots fd req rsp ps (λ d k. h d (omega (arith, k))) in
    elim (Bool-cases (not (eq_ℤ (fd p) fd_invalid) && wants_answer (req p).cmd)) [
      | inl e ↦ rw e (ground (arith, h p), rest)
      | inr e ↦ rw e rest
    ]

-- For an allocator that gives free addresses: after every run of the daemon from a serving state, in
-- which polls, fetches and whole answers come in any order, the answer to an item that is being
-- rendered goes to connections only that are open then, if no poll comes between the item's removal
-- and the end of the answer.
pub Run-AllTo :
    {malloc : RequestQueue → Option Ptr} {s t : Server}
    → GivesFree malloc
    → IsServing s.slots s
    → Run malloc s t
    → (p : Ptr) (rsp : ProtoCmd) (time : ℤ) → t.queue.heap.in_queue p ≡ queue_render
    → 0 < count p (t.queue.heads queue_render)
    → AllTo t.slots (send_response t.queue p rsp time).0
Run-AllTo {t = t} gives i r p rsp time tag h =
    let j = Run-IsServing gives r i in
    let q = t.queue in
    let (_, _, e) = send_response_lem q j.sound.valid j.sound.owned p rsp time tag h in
    subst (AllTo t.slots) (sym e) (
      replies-AllTo t.slots q.heap.fd q.heap.req rsp (p ∷ q.heap.duplicates p)
        (λ d k. j.connected p d (rw tag h) k))
