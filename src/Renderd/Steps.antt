-- ===== src/Renderd/Steps.antt =====
-- src/renderd.c: every history of the daemon, with any number of rendering threads. A step is a request
-- that `process_loop` has read, a closed connection, an item that a thread fetches, or the end of an
-- item's rendering. A thread answers only an item that it has fetched.
use mod_tile.Base.{
  subst, ◌<◌, ◌≡◌, ℤ, true, false, List, [], ◌∷◌, ◌++◌, count, arith, Option, none, some, if_both,
  ltb_ℤ, pos, not,
}
use mod_tile.Protocol.{ProtoCmd, Protocol, cmd_not_done}
use mod_tile.Item.{Ptr, Heap, QueueEnum, queue_render}
use mod_tile.RequestQueue.{
  RequestQueue, empty_queue, rendered, Fetched, blocked, fault, fetched,
  request_queue_fetch_request, request_queue_clear_requests_by_fd,
}
use mod_tile.RequestQueue.Invariant.{IsValid, is_waiting}
use mod_tile.RequestQueue.Owned.{
  IsOwned, read-IsLoose, read-IsOwned, add-IsOwned, rendered-IsOwned, clear-IsOwned,
}
use mod_tile.RequestQueue.History.{empty-IsValid, read-IsValid, read-IsFresh}
use mod_tile.RequestQueue.AddValid.{add-IsValid}
use mod_tile.RequestQueue.FetchValid.{fetch_cases, rendered-IsValid}
use mod_tile.RequestQueue.Clear.{clear-IsValid}
use mod_tile.Renderd.{Message, serve, rx_request, receive, upgrade, valid_command, send_response}
use mod_tile.Renderd.Owned.{response-IsValid, response-IsOwned}

pub data Step (q : RequestQueue) : List Message → RequestQueue → Type 0 where
  receives :
      (p : Ptr) (req : Protocol) (fd : ℤ)
      → q.heap.allocated p ≡ false
      → Step q (serve (some p) q req fd).0 (serve (some p) q req fd).1
  lacks_memory : (req : Protocol) (fd : ℤ) → Step q (serve none q req fd).0 (serve none q req fd).1
  fetches :
      (p : Ptr) (q' : RequestQueue) → request_queue_fetch_request q ≡ fetched p q' → Step q [] q'
  responds :
      (p : Ptr) (rsp : ProtoCmd) (time : ℤ)
      → q.heap.in_queue p ≡ queue_render
      → 0 < count p (q.heads queue_render)
      → Step q (send_response q p rsp time).0 (send_response q p rsp time).1
  closes : (fd : ℤ) → Step q [] (request_queue_clear_requests_by_fd q fd)

-- The histories, with all that they have sent.
pub data Reach (q : RequestQueue) : List Message → RequestQueue → Type 0 where
  here : Reach q [] q
  next :
      {r s : RequestQueue} {sent more : List Message}
      → Reach q sent r
      → Step r more s
      → Reach q (sent ++ more) s

-- The queues are valid, and no two items share a duplicate.
pub record IsSound (q : RequestQueue) : Type 0 where
  pub valid : IsValid q
  pub owned : IsOwned q

pub empty-IsSound : (h : Heap) → IsSound (empty_queue h)
unfolding empty_queue
empty-IsSound h = record {
  valid = empty-IsValid h;
  owned = record {
    marked = λ p d h k. absurd (omega arith);
    live = λ p d h k. absurd (omega arith);
    once = λ p d h. absurd (omega arith);
    owner = λ s t d hs ht ks kt. absurd (omega arith);
  };
}

-- Every way that `rx_request` takes leaves the queue alone, or adds a new item to it.
module _ {ℓ} (P : RequestQueue → Type ℓ) (q : RequestQueue) (req : Protocol) (fd : ℤ)
    (same : P q) where
  pub rx_request_cases :
      (malloc : Option Ptr)
      → P (receive malloc q (upgrade req) fd).1
      → P (rx_request malloc q req fd).1
  unfolding rx_request
  rx_request_cases malloc new =
      if_both {A = ProtoCmd × RequestQueue} (λ r. P r.1) (ltb_ℤ (pos 3) req.ver)
        {x = (cmd_not_done, q)} same
        (if_both {A = ProtoCmd × RequestQueue} (λ r. P r.1) (not (valid_command req.cmd))
          {x = (cmd_not_done, q)} same new)

receive-IsSound :
    (q : RequestQueue) (p : Ptr) (req : Protocol) (fd : ℤ)
    → IsSound q
    → q.heap.allocated p ≡ false
    → IsSound (receive (some p) q req fd).1
unfolding receive
receive-IsSound q p req fd s free = record {
  valid =
      add-IsValid _ p (read-IsValid q s.valid p req _ _ _ free)
        (read-IsFresh q s.valid p req _ _ _ free);
  owned =
      add-IsOwned _ (read-IsValid q s.valid p req _ _ _ free)
        (read-IsOwned q s.valid s.owned p req _ _ _ free) p
        (read-IsFresh q s.valid p req _ _ _ free) (read-IsLoose q s.valid s.owned p req _ _ _ free);
}

pub rendered-IsSound :
    (q : RequestQueue) (c : QueueEnum) (p : Ptr) (rest : List Ptr)
    → IsSound q
    → is_waiting c ≡ true
    → q.heads c ≡ p ∷ rest
    → IsSound (rendered q c p rest)
rendered-IsSound q c p rest s w e = record {
  valid = rendered-IsValid q c p rest s.valid w e;
  owned = rendered-IsOwned q s.valid s.owned c p rest e w;
}

-- A fetch that faults would break the queues.
abbrev Fine : Fetched → Type 0
Fine blocked = Unit {0}
Fine fault = ⊥
Fine (fetched p q) = IsSound q

fetch-Fine : (q : RequestQueue) → IsSound q → Fine (request_queue_fetch_request q)
fetch-Fine q s =
    fetch_cases q s.valid Fine (λ c p rest w e. rendered-IsSound q c p rest s w e) (λ e. tt)

pub Step-IsSound :
    {q r : RequestQueue} {sent : List Message} → Step q sent r → IsSound q → IsSound r
unfolding serve receive
Step-IsSound {q} (receives p req fd free) s =
    rx_request_cases IsSound q req fd s (some p) (receive-IsSound q p (upgrade req) fd s free)
Step-IsSound {q} (lacks_memory req fd) s = rx_request_cases IsSound q req fd s none s
Step-IsSound {q} (fetches p q' e) s = subst Fine e (fetch-Fine q s)
Step-IsSound {q} (responds p rsp time t h) s = record {
  valid = response-IsValid q s.valid s.owned p rsp time t h;
  owned = response-IsOwned q s.valid s.owned p rsp time t h;
}
Step-IsSound {q} (closes fd) s = record {
  valid = clear-IsValid q fd s.valid;
  owned = clear-IsOwned q s.valid s.owned fd;
}

-- Whatever requests arrive, whichever of them are rendered with what result and in what order, and
-- whichever readers go away, from queues that are valid and share no duplicate the daemon comes to such
-- queues again: so an item that is in a list, or waits for one that is, has not been freed.
pub Reach-IsSound :
    {q r : RequestQueue} {sent : List Message} → IsSound q → Reach q sent r → IsSound r
Reach-IsSound s here = s
Reach-IsSound s (next r t) = Step-IsSound t (Reach-IsSound s r)
