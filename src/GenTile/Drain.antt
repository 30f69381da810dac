-- ===== src/GenTile/Drain.antt =====
-- src/gen_tile.cpp, `render_thread`: a thread that goes on answers everybody who waits.
use mod_tile.Base.{
  ℕ, zero, suc, ◌+◌, ◌<◌, ◌≡◌, refl, ap, ◌∙◌, ℤ, eq_ℤ, true, not, ◌&&◌, List, [], ◌∷◌, ◌++◌, count,
  length, arith, none, some, inl, inr, erase,
}
use mod_tile.Protocol.{Protocol, ProtoCmd}
use mod_tile.Item.{
  Ptr, QueueEnum, QueueEnum-discrete, queue_request, queue_request_prio, queue_request_bulk,
  queue_dirty, queue_render, queue_duplicate, queue_request_low,
}
use mod_tile.RequestQueue.{
  RequestQueue, rendered, next_queue, request_queue_fetch_request, fd_invalid,
}
use mod_tile.RequestQueue.Invariant.{is_waiting}
use mod_tile.RequestQueue.FetchValid.{fetch_cases}
use mod_tile.Renderd.{Message, wants_answer, send_response}
use mod_tile.Renderd.Respond.{send_response-heads, send_response-nums}
use mod_tile.Renderd.Steps.{IsSound, rendered-IsSound, Step-IsSound, responds}
use mod_tile.Renderd.Pending.{
  IsPending, IsAnswered, Outcome, Sent-left, Sent-right, rendered-IsPending, response-Outcome,
}
use mod_tile.GenTile.Answer.{answer-raises}
use mod_tile.GenTile.{
  World, XmlMapConfig, Answer, raised, Round, waits, faults, dies, went, after_answer, round,
  answer, Rounds, idle, lost, died, busy, then_sent, render_thread,
}

-- The items that wait, by the counters.
abbrev pub waiting : RequestQueue → ℕ
waiting q =
    q.nums queue_request
    + q.nums queue_request_prio
    + q.nums queue_request_bulk
    + q.nums queue_request_low
    + q.nums queue_dirty

-- A request that can be answered.
abbrev pub IsLoud : ℤ → Protocol → Type 0
IsLoud fd req = (not (eq_ℤ fd fd_invalid) && wants_answer req.cmd) ≡ true

-- Whoever waits in the first state has an answer among the messages.
abbrev pub AnswersAll : RequestQueue → List Message → Type 0
AnswersAll q sent =
    (p : Ptr) (fd : ℤ) (req : Protocol)
    → IsLoud fd req
    → IsPending q p fd req
    → IsAnswered sent fd req

-- What a round leaves.
record IsNext (q : RequestQueue) (sent : List Message) (q' : RequestQueue) : Type 0 where
  sound : IsSound q'
  rendering : q'.heads queue_render ≡ []
  fewer : waiting q' + 1 ≡ waiting q
  outcome :
      (p : Ptr) (fd : ℤ) (req : Protocol)
      → IsLoud fd req
      → IsPending q p fd req
      → Outcome p fd req (sent, q')

-- An exception leaves the rendering of some metatile.
abbrev pub Raises : World → Type 0
Raises world = (req : Protocol) × (mx : ℤ) × (my : ℤ) × (world.render req mx my ≡ raised)

abbrev Advances : World → RequestQueue → Round → Type 0
Advances world q waits = waiting q ≡ 0
Advances world q faults = ⊥
Advances world q dies = Raises world
Advances world q (went sent q') = IsNext q sent q'

none_waits : (q : RequestQueue) → next_queue q ≡ none → waiting q ≡ 0
unfolding next_queue
none_waits q e = ground arith

module _ (q : RequestQueue) (s : IsSound q) (empty : q.heads queue_render ≡ []) (c : QueueEnum)
    (p : Ptr) (rest : List Ptr) (w : is_waiting c ≡ true) (e : q.heads c ≡ p ∷ rest) where
  abbrev taken : RequestQueue
  taken = rendered q c p rest

  taken_rendering : taken.heads queue_render ≡ p ∷ []
  unfolding rendered QueueEnum-discrete
  taken_rendering = ap (◌∷◌ p) empty

  taken_tag : taken.heap.in_queue p ≡ queue_render
  unfolding rendered
  taken_tag = ground arith

  counted : q.nums c ≡ suc (length rest)
  counted = s.valid.counted c w ∙ ap length e

  taken_fewer : waiting taken + 1 ≡ waiting q
  unfolding rendered
  taken_fewer = ground (arith, counted)

  erased : erase p (p ∷ []) ≡ []
  erased = ground arith

  response-IsNext :
      (rsp : ProtoCmd) (time : ℤ)
      → IsNext q (send_response taken p rsp time).0 (send_response taken p rsp time).1
  response-IsNext rsp time =
      let here : 0 < count p (taken.heads queue_render) = rw taken_rendering (ground arith) in
      let sound = rendered-IsSound q c p rest s w e in
      record {
        sound = Step-IsSound (responds p rsp time taken_tag here) sound;
        rendering =
            send_response-heads taken p rsp time queue_render
            ∙ ap (erase p) taken_rendering
            ∙ erased;
        fewer = rw (send_response-nums taken p rsp time) taken_fewer;
        outcome = λ x fd req loud k.
            response-Outcome loud taken sound (rendered-IsPending q s.valid k c p rest w e) p rsp
              time taken_tag here;
      }

answer-Advances :
    (world : World) (ms : List XmlMapConfig) (q : RequestQueue) (s : IsSound q)
    (empty : q.heads queue_render ≡ []) (c : QueueEnum) (p : Ptr) (rest : List Ptr)
    (w : is_waiting c ≡ true) (e : q.heads c ≡ p ∷ rest) (a : Answer)
    → answer world ms
        ((rendered q c p rest).heap.req p)
        ((rendered q c p rest).heap.mx p)
        ((rendered q c p rest).heap.my p)
      ≡ a
    → Advances world q (after_answer (rendered q c p rest) p a)
unfolding after_answer
answer-Advances world ms q s empty c p rest w e none k = (_, _, _, answer-raises world _ _ _ ms k)
answer-Advances world ms q s empty c p rest w e (some (rsp, time)) k =
    response-IsNext q s empty c p rest w e rsp time

round-Advances :
    (world : World) (ms : List XmlMapConfig) (q : RequestQueue)
    → IsSound q
    → q.heads queue_render ≡ []
    → Advances world q (round world ms (request_queue_fetch_request q))
unfolding round
round-Advances world ms q s empty =
    fetch_cases q s.valid (λ f. Advances world q (round world ms f))
      (λ c p rest w e.
        answer-Advances world ms q s empty c p rest w e
          (answer world ms ((rendered q c p rest).heap.req p) ((rendered q c p rest).heap.mx p)
            ((rendered q c p rest).heap.my p))
          refl)
      (none_waits q)

abbrev pub Drains : (ℕ → World) → RequestQueue → Rounds → Type 0
Drains worlds q (idle sent q') = IsSound q' × (waiting q' ≡ 0) × AnswersAll q sent
Drains worlds q lost = ⊥
Drains worlds q (died sent) = (k : ℕ) × Raises (worlds k)
Drains worlds q (busy sent q') = ⊥

empty_list : (xs : List Ptr) (t : Ptr) → length xs ≡ 0 → count t xs ≡ 0
empty_list [] t e = refl
empty_list (x ∷ xs) t e = absurd (omega arith)

none_linked :
    (q : RequestQueue)
    → IsSound q
    → waiting q ≡ 0
    → q.heads queue_render ≡ []
    → (c : QueueEnum) (t : Ptr) → count t (q.heads c) ≡ 0
none_linked q s e r queue_request t =
    empty_list _ t (omega (arith, s.valid.counted queue_request refl))
none_linked q s e r queue_request_prio t =
    empty_list _ t (omega (arith, s.valid.counted queue_request_prio refl))
none_linked q s e r queue_request_bulk t =
    empty_list _ t (omega (arith, s.valid.counted queue_request_bulk refl))
none_linked q s e r queue_dirty t = empty_list _ t (omega (arith, s.valid.counted queue_dirty refl))
none_linked q s e r queue_render t = ap (count t) r
none_linked q s e r queue_duplicate t = ap (count t) s.valid.no_duplicate
none_linked q s e r queue_request_low t =
    empty_list _ t (omega (arith, s.valid.counted queue_request_low refl))

none-IsPending :
    (q : RequestQueue) (p : Ptr) (fd : ℤ) (req : Protocol)
    → IsSound q
    → waiting q ≡ 0
    → q.heads queue_render ≡ []
    → ¬ IsPending q p fd req
none-IsPending q p fd req s e r w =
    let (t, h, n, k) = w.stands in omega (arith, none_linked q s e r (q.heap.in_queue t) t)

module _ (q : RequestQueue) (sent : List Message) (q' : RequestQueue) (n : IsNext q sent q') where
  answers_more : (more : List Message) → AnswersAll q' more → AnswersAll q (sent ++ more)
  unfolding Outcome
  answers_more more a p fd req loud w = elim (n.outcome p fd req loud w) [
    | inl w' ↦ let (rsp, m) = a p fd req loud w' in (rsp, Sent-right _ sent more m)
    | inr (rsp, m) ↦ (rsp, Sent-left _ sent more m)
  ]

  then-Drains :
      (worlds : ℕ → World) (r : Rounds) → Drains worlds q' r → Drains worlds q (then_sent sent r)
  unfolding then_sent
  then-Drains worlds (idle more r) (s, e, a) = (s, e, answers_more more a)
  then-Drains worlds lost d = elim d [ ]
  then-Drains worlds (died more) d = d
  then-Drains worlds (busy more r) d = elim d [ ]

then_all :
    (worlds : ℕ → World) (n : ℕ) (q : RequestQueue)
    → IsSound q
    → q.heads queue_render ≡ []
    → waiting q < suc n
    → (next : RequestQueue → Rounds)
    → ((r : RequestQueue)
        → IsSound r
        → r.heads queue_render ≡ []
        → waiting r < n
        → Drains worlds r (next r))
    → (r : Round) → Advances (worlds n) q r
    → Drains worlds q (elim r [
      | waits ↦ idle [] q
      | faults ↦ lost
      | dies ↦ died []
      | went sent q' ↦ then_sent sent (next q')
    ])
then_all worlds n q s empty h next ih waits e =
    (s, e, λ p fd req loud w. absurd (none-IsPending q p fd req s e empty w))
then_all worlds n q s empty h next ih faults a = elim a [ ]
then_all worlds n q s empty h next ih dies a = (n, a)
then_all worlds n q s empty h next ih (went sent q') a =
    then-Drains q sent q' a worlds (next q') (ih q' a.sound a.rendering (omega (arith, a.fewer)))

-- For sound queues in which nothing is being rendered, and more rounds than items that wait: a
-- rendering thread that no other call comes between takes no list's head for an item, and comes to its
-- wait unless an exception leaves the rendering of a metatile, which ends the process. At its wait the
-- queues are sound and no item waits any more, and every request that was to be answered has its answer
-- among the messages that were sent to its reader, whether Mapnik rendered or failed with an exception
-- that is caught, and whatever the stores did.
pub render_thread-Drains :
    (n : ℕ) (worlds : ℕ → World) (ms : List XmlMapConfig) (q : RequestQueue)
    → IsSound q
    → q.heads queue_render ≡ []
    → waiting q < n
    → Drains worlds q (render_thread n worlds ms q)
unfolding render_thread
render_thread-Drains zero worlds ms q s empty h = absurd (omega arith)
render_thread-Drains (suc n) worlds ms q s empty h =
    then_all worlds n q s empty h (render_thread n worlds ms) (render_thread-Drains n worlds ms)
      (round (worlds n) ms (request_queue_fetch_request q)) (round-Advances (worlds n) ms q s empty)
