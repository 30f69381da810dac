-- ===== src/Renderd/Respond.antt =====
-- src/renderd.c, `send_response`: what the loop over an item and its duplicates does.
use mod_tile.Base.{
  ◌≤◌, ◌≡◌, refl, ◌∙◌, ap, ℤ, eq_ℤ, false, not, ◌&&◌, List, [], ◌∷◌, count, arith, if◌then◌else◌,
  Bool-cases, inl, inr, ltb, if_both, erase,
}
use mod_tile.Protocol.{ProtoCmd, Protocol}
use mod_tile.Item.{Ptr, QueueEnum, Heap, update}
use mod_tile.RequestQueue.{RequestQueue, free_item, request_queue_remove_request, fd_invalid}
use mod_tile.Renderd.{
  Message, wants_answer, answered_by, reply, respond_item, respond_all, send_response,
}

-- The messages to the readers of these items, in their order.
unfoldable pub replies : (Ptr → ℤ) → (Ptr → Protocol) → ProtoCmd → List Ptr → List Message
replies fd req rsp [] = []
replies fd req rsp (p ∷ ps) =
    if not (eq_ℤ (fd p) fd_invalid) && wants_answer (req p).cmd
    then record { to = fd p; content = record (req p) { cmd = rsp } } ∷ replies fd req rsp ps
    else replies fd req rsp ps

replies-update :
    (fd : Ptr → ℤ) (req : Ptr → Protocol) (rsp : ProtoCmd) (p : Ptr) (r : Protocol) (ps : List Ptr)
    → count p ps ≡ 0
    → replies fd (update req p r) rsp ps ≡ replies fd req rsp ps
unfolding replies
replies-update fd req rsp p r [] h = refl
replies-update fd req rsp p r (x ∷ ps) h = ground (arith, replies-update fd req rsp p r ps)

-- What the loop leaves as it was, and what it changes: the items are freed, and their commands may be
-- overwritten.
pub record Responded (q : RequestQueue) (ps : List Ptr) (q' : RequestQueue) : Type 0 where
  pub heads : q'.heads ≡ q.heads
  pub nums : q'.nums ≡ q.nums
  pub hashidx_size : q'.hashidx_size ≡ q.hashidx_size
  pub item_hashidx : q'.item_hashidx ≡ q.item_hashidx
  pub mx : q'.heap.mx ≡ q.heap.mx
  pub my : q'.heap.my ≡ q.heap.my
  pub fd : q'.heap.fd ≡ q.heap.fd
  pub duplicates : q'.heap.duplicates ≡ q.heap.duplicates
  pub in_queue : q'.heap.in_queue ≡ q.heap.in_queue
  pub allocated :
      (d : Ptr) → q'.heap.allocated d ≡ (if ltb 0 (count d ps) then false else q.heap.allocated d)
  pub req : (d : Ptr) → count d ps ≡ 0 → q'.heap.req d ≡ q.heap.req d

respond_item-Responded :
    (rsp : ProtoCmd) (p : Ptr) (q : RequestQueue) → Responded q (p ∷ []) (respond_item rsp p q).1
unfolding respond_item free_item
respond_item-Responded rsp p q =
    if_both {A = List Message × RequestQueue} (λ r. Responded q (p ∷ []) r.1) (answered_by q.heap p)
      {x = (
        reply q.heap rsp p ∷ [],
        free_item
            (record q { heap = record h { req = update h.req p (record (h.req p) { cmd = rsp }) } })
            p,
      )}
      (record {
        heads = refl;
        nums = refl;
        hashidx_size = refl;
        item_hashidx = refl;
        mx = refl;
        my = refl;
        fd = refl;
        duplicates = refl;
        in_queue = refl;
        allocated = λ d. ground arith;
        req = λ d h. ground arith;
      })
      (record {
        heads = refl;
        nums = refl;
        hashidx_size = refl;
        item_hashidx = refl;
        mx = refl;
        my = refl;
        fd = refl;
        duplicates = refl;
        in_queue = refl;
        allocated = λ d. ground arith;
        req = λ d h. refl;
      })
  where
    h : Heap
    h = q.heap

Responded-trans :
    {q q1 q2 : RequestQueue} {p : Ptr} {ps : List Ptr}
    → Responded q (p ∷ []) q1
    → Responded q1 ps q2
    → Responded q (p ∷ ps) q2
Responded-trans {q} {q1} {q2} {p} {ps} a b = record {
  heads = b.heads ∙ a.heads;
  nums = b.nums ∙ a.nums;
  hashidx_size = b.hashidx_size ∙ a.hashidx_size;
  item_hashidx = b.item_hashidx ∙ a.item_hashidx;
  mx = b.mx ∙ a.mx;
  my = b.my ∙ a.my;
  fd = b.fd ∙ a.fd;
  duplicates = b.duplicates ∙ a.duplicates;
  in_queue = b.in_queue ∙ a.in_queue;
  allocated = λ d. ground (arith, a.allocated d, b.allocated d);
  req = λ d h. ground (arith, a.req d, b.req d);
}

pub respond_all-Responded :
    (rsp : ProtoCmd) (ps : List Ptr) (q : RequestQueue) → Responded q ps (respond_all rsp ps q).1
unfolding respond_all
respond_all-Responded rsp [] q = record {
  heads = refl;
  nums = refl;
  hashidx_size = refl;
  item_hashidx = refl;
  mx = refl;
  my = refl;
  fd = refl;
  duplicates = refl;
  in_queue = refl;
  allocated = λ d. refl;
  req = λ d h. refl;
}
respond_all-Responded rsp (p ∷ ps) q =
    Responded-trans (respond_item-Responded rsp p q)
      (respond_all-Responded rsp ps (respond_item rsp p q).1)

-- Where no item is met twice, the loop sends the messages to their readers.
pub respond_all-messages :
    (rsp : ProtoCmd) (ps : List Ptr) (q : RequestQueue)
    → ((d : Ptr) → count d ps ≤ 1)
    → (respond_all rsp ps q).0 ≡ replies q.heap.fd q.heap.req rsp ps
unfolding respond_all respond_item free_item answered_by reply replies
respond_all-messages rsp [] q h = refl
respond_all-messages rsp (p ∷ ps) q h = elim (Bool-cases (answered_by q.heap p)) [
  | inl e ↦ rw e (
      ap (◌∷◌ (reply q.heap rsp p)) (
        respond_all-messages rsp ps _ tail
        ∙ replies-update q.heap.fd q.heap.req rsp p (record (q.heap.req p) { cmd = rsp }) ps once))
  | inr e ↦ rw e (respond_all-messages rsp ps (free_item q p) tail)
]
  where
    tail : (d : Ptr) → count d ps ≤ 1
    tail d = omega (arith, h d)

    once : count p ps ≡ 0
    once = ground (arith, h p)

-- What an answer leaves of the lists and the counters.
pub send_response-heads :
    (q : RequestQueue) (p : Ptr) (rsp : ProtoCmd) (time : ℤ) (c : QueueEnum)
    → (send_response q p rsp time).1.heads c ≡ erase p (q.heads c)
unfolding send_response request_queue_remove_request
send_response-heads q p rsp time c =
    ap (λ (f : QueueEnum → List Ptr). f c)
      (respond_all-Responded rsp (p ∷ q.heap.duplicates p)
        (request_queue_remove_request q p time)).heads

pub send_response-nums :
    (q : RequestQueue) (p : Ptr) (rsp : ProtoCmd) (time : ℤ)
    → (send_response q p rsp time).1.nums ≡ q.nums
unfolding send_response request_queue_remove_request
send_response-nums q p rsp time =
    (respond_all-Responded rsp (p ∷ q.heap.duplicates p)
      (request_queue_remove_request q p time)).nums
