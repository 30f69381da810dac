-- ===== src/Renderd/Pending.antt =====
-- src/renderd.c: a request that was accepted is not lost. It waits, by itself or as a duplicate, until
-- an answer goes to its reader.
use mod_tile.Base.{
  subst, ap, ◌≢◌, ◌<◌, ◌≡◌, refl, ℤ, eq_ℤ, true, false, Bool, not, ◌&&◌, List, [], ◌∷◌, ◌++◌, count,
  arith, Option-cases, none, ℕ_discrete, some, inl, inr, ◌⊎◌, dec_lt, if◌then◌else◌, count-append,
  sym, ◌∙◌, count-erase,
}
use mod_tile.Protocol.{ProtoCmd, Protocol}
use mod_tile.Item.{Ptr, QueueEnum, queue_dirty, queue_render}
use mod_tile.RequestQueue.{
  RequestQueue, Fetched, fetched, rendered, enqueue, attach_duplicate, drop_request, free_item,
  add_new, choose_queue, request_queue_add_request, request_queue_clear_requests_by_fd,
  request_queue_remove_request, fd_invalid,
}
use mod_tile.RequestQueue.Invariant.{IsValid, IsFresh, links, is_waiting}
use mod_tile.RequestQueue.Owned.{IsOwned, IsLoose, read-IsOwned, read-IsLoose}
use mod_tile.RequestQueue.History.{read_item, read-IsValid, read-IsFresh}
use mod_tile.RequestQueue.AddValid.{add_cases}
use mod_tile.RequestQueue.FetchValid.{fetch_cases, links_same}
use mod_tile.RequestQueue.Clear.{clear_keeps}
use mod_tile.Renderd.{Message, wants_answer, serve, receive, upgrade, send_response}
use mod_tile.Renderd.Respond.{Responded, respond_all-Responded, replies}
use mod_tile.Renderd.Owned.{send_response_lem, links_same as responded_links}
use mod_tile.Renderd.Steps.{
  Step, Reach, IsSound, receives, lacks_memory, fetches, responds, closes, here, next,
  rx_request_cases, Reach-IsSound,
}

-- The item stands in a list whose items are answered, or waits for one that does.
pub record IsPending (q : RequestQueue) (p : Ptr) (fd : ℤ) (req : Protocol) : Type 0 where
  pub reader : q.heap.fd p ≡ fd
  pub content : q.heap.req p ≡ req
  pub stands :
      (t : Ptr) × (0 < links q t)
      × (q.heap.in_queue t ≢ queue_dirty)
      × (0 < count p (t ∷ q.heap.duplicates t))

abbrev pub Sent : Message → List Message → Type 0
Sent m [] = ⊥
Sent m (x ∷ xs) = (m ≡ x) ⊎ Sent m xs

pub Sent-left : (m : Message) (xs ys : List Message) → Sent m xs → Sent m (xs ++ ys)
Sent-left m [] ys s = elim s [ ]
Sent-left m (x ∷ xs) ys (inl e) = inl e
Sent-left m (x ∷ xs) ys (inr s) = inr (Sent-left m xs ys s)

pub Sent-right : (m : Message) (xs ys : List Message) → Sent m ys → Sent m (xs ++ ys)
Sent-right m [] ys s = s
Sent-right m (x ∷ xs) ys s = inr (Sent-right m xs ys s)

abbrev pub IsAnswered : List Message → ℤ → Protocol → Type 0
IsAnswered sent fd req =
    (rsp : ProtoCmd) × Sent (record { to = fd; content = record req { cmd = rsp } }) sent

module _ {fd : ℤ} {req : Protocol} {p : Ptr} (q : RequestQueue) (v : IsValid q)
    (w : IsPending q p fd req) where
  read-IsPending :
      IsOwned q
      → (new : Ptr) (r : Protocol) (mx my d : ℤ) → q.heap.allocated new ≡ false
      → IsPending (read_item q new r mx my d) p fd req
  unfolding read_item
  read-IsPending o new r mx my d free =
      let (t, h, loud, k) = w.stands in
      let apart : new ≢ t = ground (arith, v.live (q.heap.in_queue t) t) in
      let apart' : new ≢ p = ground (arith, v.live (q.heap.in_queue t) t, o.live t p h) in
      record {
        reader = ground (arith, apart', w.reader);
        content = ground (arith, apart', w.content);
        stands = (t, h, loud, ground (arith, apart));
      }

  module _ (new : Ptr) (f : IsFresh q new) where
    enqueue-IsPending :
        IsOwned q → IsLoose q new → (c : QueueEnum) → IsPending (enqueue q new c) p fd req
    unfolding enqueue
    enqueue-IsPending o loose c =
        let (t, h, loud, k) = w.stands in
        let apart : new ≢ t = ground (arith, f.unlinked (q.heap.in_queue t)) in
        let apart' : new ≢ p = ground (arith, f.unlinked (q.heap.in_queue t), loose t h) in
        record {
          reader = ground (arith, apart', w.reader);
          content = w.content;
          stands = (
            t,
            ground (arith, apart, count-append t (q.heads c) (new ∷ [])),
            ground (arith, apart),
            k,
          );
        }

    attach-IsPending :
        (s : Ptr)
        → 0 < links q s
        → q.heap.in_queue s ≢ queue_dirty
        → IsPending (attach_duplicate q new s) p fd req
    unfolding attach_duplicate
    attach-IsPending s linked heard =
        let (t, h, loud, k) = w.stands in
        let apart : new ≢ t = ground (arith, f.unlinked (q.heap.in_queue t)) in
        let apart' : new ≢ s = ground (arith, f.unlinked (q.heap.in_queue s)) in
        record {
          reader = w.reader;
          content = w.content;
          stands = (t, ground (arith, apart), ground (arith, apart), ground (arith, apart, apart'));
        }

    free-IsPending : IsPending (free_item q new) p fd req
    unfolding free_item
    free-IsPending = record { reader = w.reader; content = w.content; stands = w.stands }

    new-IsPending : IsOwned q → IsLoose q new → IsPending (add_new q new).1 p fd req
    unfolding add_new drop_request free_item
    new-IsPending o loose = elim (Option-cases (choose_queue q (q.heap.req new).cmd)) [
      | inl e ↦
          rw (e, add_new) (record { reader = w.reader; content = w.content; stands = w.stands })
      | inr (c, e) ↦ rw (e, add_new) (enqueue-IsPending o loose c)
    ]

    add-IsPending :
        IsOwned q → IsLoose q new → IsPending (request_queue_add_request q new).1 p fd req
    add-IsPending o loose =
        add_cases q new v f (λ r. IsPending r.1 p fd req) (λ n. new-IsPending o loose)
          attach-IsPending free-IsPending

  pub rendered-IsPending :
      (c : QueueEnum) (s : Ptr) (rest : List Ptr)
      → is_waiting c ≡ true
      → q.heads c ≡ s ∷ rest
      → IsPending (rendered q c s rest) p fd req
  unfolding rendered
  rendered-IsPending c s rest waits taken =
      let (t, h, loud, k) = w.stands in
      record {
        reader = w.reader;
        content = w.content;
        stands = (t, rw (links_same q c s rest v waits taken t) h, ground arith, k);
      }

  clear-IsPending :
      (gone : ℤ) → fd ≢ gone → IsPending (request_queue_clear_requests_by_fd q gone) p fd req
  unfolding request_queue_clear_requests_by_fd
  clear-IsPending gone n = record {
    reader = clear_keeps q gone p (λ e. n (sym w.reader ∙ e)) ∙ w.reader;
    content = w.content;
    stands = w.stands;
  }

Sent-if :
    (m : Message) (b : Bool) (x : Message) (xs : List Message)
    → Sent m xs
    → Sent m (if b then x ∷ xs else xs)
Sent-if m true x xs s = inr s
Sent-if m false x xs s = s

replies-Sent :
    (fds : Ptr → ℤ) (reqs : Ptr → Protocol) (rsp : ProtoCmd) (ps : List Ptr) (p : Ptr)
    → (not (eq_ℤ (fds p) fd_invalid) && wants_answer (reqs p).cmd) ≡ true
    → 0 < count p ps
    → Sent
        (record { to = fds p; content = record (reqs p) { cmd = rsp } })
        (replies fds reqs rsp ps)
unfolding replies
replies-Sent fds reqs rsp [] p e h = absurd (omega arith)
replies-Sent fds reqs rsp (x ∷ ps) p e h = elim (ℕ_discrete p x) [
  | yes same ↦ rw (sym same, e) (inl refl)
  | no n ↦
      Sent-if (record { to = fds p; content = record (reqs p) { cmd = rsp } })
        (not (eq_ℤ (fds x) fd_invalid) && wants_answer (reqs x).cmd) _ _
        (replies-Sent fds reqs rsp ps p e (ground arith))
]

unfoldable pub Outcome : Ptr → ℤ → Protocol → List Message × RequestQueue → Type 0
Outcome p fd req (sent, q) = IsPending q p fd req ⊎ IsAnswered sent fd req

rest-IsPending :
    {q q' : RequestQueue} {ps : List Ptr} {p : Ptr} {fd : ℤ} {req : Protocol}
    → Responded q ps q'
    → count p ps ≡ 0
    → IsPending q p fd req
    → IsPending q' p fd req
rest-IsPending {q} {q'} {ps} {p} r n w =
    let (t, h, loud, k) = w.stands in
    record {
      reader = ap (λ (f : Ptr → ℤ). f p) r.fd ∙ w.reader;
      content = r.req p n ∙ w.content;
      stands = (t, rw (responded_links r t) h, rw r.in_queue loud, rw r.duplicates k);
    }

module _ {fd : ℤ} {req : Protocol} {p : Ptr}
    (loud : (not (eq_ℤ fd fd_invalid) && wants_answer req.cmd) ≡ true) where
  module _ (q : RequestQueue) (s : IsSound q) (w : IsPending q p fd req) (r : Ptr) (rsp : ProtoCmd)
      (time : ℤ) (rendering : q.heap.in_queue r ≡ queue_render)
      (taken : 0 < count r (q.heads queue_render)) where
    sent_now :
        0 < count p (r ∷ q.heap.duplicates r) → IsAnswered (send_response q r rsp time).0 fd req
    sent_now h =
        let (_, _, sent) = send_response_lem q s.valid s.owned r rsp time rendering taken in
        (
          rsp,
          subst (Sent (record { to = fd; content = record req { cmd = rsp } })) (sym sent) (
              subst
                (λ (x : ℤ × Protocol).
                  Sent (record { to = x.0; content = record x.1 { cmd = rsp } })
                    (replies q.heap.fd q.heap.req rsp (r ∷ q.heap.duplicates r)))
                (λ i. (w.reader i, w.content i))
                (replies-Sent q.heap.fd q.heap.req rsp (r ∷ q.heap.duplicates r) p
                  (rw (w.reader, w.content) loud) h)),
        )

    removed-IsPending :
        count p (r ∷ q.heap.duplicates r) ≡ 0
        → IsPending (request_queue_remove_request q r time) p fd req
    unfolding request_queue_remove_request
    removed-IsPending n =
        let (t, h, heard, k) = w.stands in
        record {
          reader = w.reader;
          content = w.content;
          stands = (t, ground (arith, count-erase t r (q.heads (q.heap.in_queue t))), heard, k);
        }

    pub response-Outcome : Outcome p fd req (send_response q r rsp time)
    unfolding Outcome
    response-Outcome = elim (dec_lt 0 (count p (r ∷ q.heap.duplicates r))) [
      | yes h ↦ inr (sent_now h)
      | no n ↦
          let away : count p (r ∷ q.heap.duplicates r) ≡ 0 = omega arith in
          inl (
            unfold send_response request_queue_remove_request in
            rest-IsPending
              (respond_all-Responded rsp (r ∷ q.heap.duplicates r)
                (request_queue_remove_request q r time))
              away (removed-IsPending away))
    ]

-- This step, or no step of this history, is the end of the reader's connection.
abbrev pub IsSpared : (fd : ℤ) {q r : RequestQueue} {sent : List Message} → Step q sent r → Type 0
IsSpared fd (closes gone) = fd ≢ gone
IsSpared fd (receives p req d free) = Unit
IsSpared fd (lacks_memory req d) = Unit
IsSpared fd (fetches p q' e) = Unit
IsSpared fd (responds p rsp time t h) = Unit

abbrev pub Stays : (fd : ℤ) {q r : RequestQueue} {sent : List Message} → Reach q sent r → Type 0
Stays fd here = Unit
Stays fd (next r s) = Stays fd r × IsSpared fd s

abbrev FetchedPending : Ptr → ℤ → Protocol → Fetched → Type 0
FetchedPending p fd req (fetched r q) = IsPending q p fd req
FetchedPending p fd req _ = Unit {0}

module _ {fd : ℤ} {req : Protocol} {p : Ptr}
    (loud : (not (eq_ℤ fd fd_invalid) && wants_answer req.cmd) ≡ true) where
  receive-IsPending :
      (q : RequestQueue) (new : Ptr) (r : Protocol) (d : ℤ)
      → IsSound q
      → q.heap.allocated new ≡ false
      → IsPending q p fd req
      → IsPending (receive (some new) q r d).1 p fd req
  unfolding receive
  receive-IsPending q new r d s free w =
      add-IsPending _ (read-IsValid q s.valid new r _ _ _ free)
        (read-IsPending q s.valid w s.owned new r _ _ _ free) new
        (read-IsFresh q s.valid new r _ _ _ free) (read-IsOwned q s.valid s.owned new r _ _ _ free)
        (read-IsLoose q s.valid s.owned new r _ _ _ free)

  move-Outcome :
      {q r : RequestQueue} {sent : List Message}
      → IsSound q
      → IsPending q p fd req
      → (m : Step q sent r) → IsSpared fd m
      → Outcome p fd req (sent, r)
  unfolding Outcome serve receive
  move-Outcome {q} s w (receives new r d free) spared = inl (
      rx_request_cases (λ x. IsPending x p fd req) q r d w (some new)
        (receive-IsPending q new (upgrade r) d s free w))
  move-Outcome {q} s w (lacks_memory r d) spared =
      inl (rx_request_cases (λ x. IsPending x p fd req) q r d w none w)
  move-Outcome {q} s w (fetches r q' e) spared = inl (
      subst (FetchedPending p fd req) e (
        fetch_cases q s.valid (FetchedPending p fd req)
          (λ c x rest a b. rendered-IsPending q s.valid w c x rest a b) (λ n. tt)))
  move-Outcome {q} s w (responds r rsp time t h) spared = response-Outcome loud q s w r rsp time t h
  move-Outcome {q} s w (closes gone) spared = inl (clear-IsPending q s.valid w gone spared)

  -- From sound queues on, a request that stands in a list whose items are answered, or waits for an item
  -- there, with a valid descriptor and a command that asks for an answer: in every history in which its
  -- connection is not closed, it still stands or waits there at the end, or its answer has been sent to
  -- its reader.
  pub Reach-IsPending :
      {q r : RequestQueue} {sent : List Message}
      → IsSound q
      → IsPending q p fd req
      → (h : Reach q sent r) → Stays fd h
      → IsPending r p fd req ⊎ IsAnswered sent fd req
  unfolding Outcome
  Reach-IsPending s w here stays = inl w
  Reach-IsPending s w (next {sent = before} {more = more} h m) (stays, spared) =
      elim (Reach-IsPending s w h stays) [
        | inl still ↦ elim (move-Outcome (Reach-IsSound s h) still m spared) [
          | inl still' ↦ inl still'
          | inr (rsp, done) ↦ inr (rsp, Sent-right _ before more done)
        ]
        | inr (rsp, done) ↦ inr (rsp, Sent-left _ before more done)
      ]
