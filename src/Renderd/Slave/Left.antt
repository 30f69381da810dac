-- ===== src/Renderd/Slave/Left.antt =====
-- src/renderd.c, `slave_thread`: which items it leaves without an answer.
use mod_tile.Base.{
  subst, ℕ, zero, suc, ◌≤◌, ◌<◌, ◌≡◌, ◌≢◌, ◌↔◌, ◌⊎◌, inl, inr, refl, sym, ap, Bool, true, false,
  List, [], Option, Option-cases, none, some, count, count-erase, arith, negsuc,
}
use mod_tile.Protocol.{ProtoCmd}
use mod_tile.Item.{Ptr, queue_render}
use mod_tile.RequestQueue.{RequestQueue}
use mod_tile.RequestQueue.Invariant.{IsValid}
use mod_tile.Renderd.{Message, send_response}
use mod_tile.Renderd.Respond.{send_response-heads}
use mod_tile.Renderd.Slave.{
  SendTry, sent, broken_pipe, send_error, Dispatch, delivered, unreachable, exhausted, stopped,
  after_try, dispatch, dispatch_retries, Recv, SlaveReply, still_waiting, connection_lost,
  incomplete, complete, collect, reply_retries, slave_answer, slave_round,
}

-- A try that fails with EPIPE and is followed by a reconnection
abbrev pub Retried : (ℕ → SendTry) → (ℕ → Bool) → ℕ → Type 0
Retried sends connects j = (sends j ≡ broken_pipe) × (connects j ≡ true)

abbrev pub AllRetried : ℕ → (ℕ → SendTry) → (ℕ → Bool) → Type 0
AllRetried n sends connects = (j : ℕ) → j ≤ n → Retried sends connects j

-- A try that fails with another error, after tries that are all followed by a reconnection
abbrev pub FailsHard : ℕ → (ℕ → SendTry) → (ℕ → Bool) → Type 0
FailsHard n sends connects =
    (k : ℕ) × (k ≤ n) × ((j : ℕ) → j < k → Retried sends connects j) × (sends k ≡ send_error)

try_exhausted :
    (t : SendTry) (c : Bool) (more : Dispatch)
    → after_try t c more ≡ exhausted
    → (t ≡ broken_pipe) × (c ≡ true) × (more ≡ exhausted)
unfolding after_try
try_exhausted sent c more h = absurd (cc)
try_exhausted send_error c more h = absurd (cc)
try_exhausted broken_pipe true more h = (refl, refl, h)
try_exhausted broken_pipe false more h = absurd (cc)

try_stopped :
    (t : SendTry) (c : Bool) (more : Dispatch)
    → after_try t c more ≡ stopped
    → (t ≡ send_error) ⊎ ((t ≡ broken_pipe) × (c ≡ true) × (more ≡ stopped))
unfolding after_try
try_stopped sent c more h = absurd (cc)
try_stopped send_error c more h = inl refl
try_stopped broken_pipe true more h = inr (refl, refl, h)
try_stopped broken_pipe false more h = absurd (cc)

module _ (P : ℕ → Type 0) where
  from_first : (n : ℕ) → P 0 → ((j : ℕ) → j ≤ n → P (suc j)) → (j : ℕ) → j ≤ suc n → P j
  from_first n p f zero h = p
  from_first n p f (suc j) h = f j (omega (arith, h))

  before_first : (n : ℕ) → P 0 → ((j : ℕ) → j < n → P (suc j)) → (j : ℕ) → j < suc n → P j
  before_first n p f zero h = p
  before_first n p f (suc j) h = f j (omega (arith, h))

  only_first : P 0 → (j : ℕ) → j ≤ 0 → P j
  only_first p zero h = p
  only_first p (suc j) h = absurd (omega (arith, h))

exhausted_lem :
    (n : ℕ) (sends : ℕ → SendTry) (connects : ℕ → Bool)
    → dispatch n sends connects ≡ exhausted
    → AllRetried n sends connects
unfolding dispatch
exhausted_lem zero sends connects h =
    let (a, b, _) = try_exhausted (sends 0) (connects 0) exhausted h in
    only_first (Retried sends connects) (a, b)
exhausted_lem (suc n) sends connects h =
    let (a, b, c) = try_exhausted (sends 0) (connects 0) _ h in
    from_first (Retried sends connects) n (a, b)
      (exhausted_lem n (λ k. sends (suc k)) (λ k. connects (suc k)) c)

stopped_lem :
    (n : ℕ) (sends : ℕ → SendTry) (connects : ℕ → Bool)
    → dispatch n sends connects ≡ stopped
    → FailsHard n sends connects
unfolding dispatch
stopped_lem zero sends connects h = elim (try_stopped (sends 0) (connects 0) exhausted h) [
  | inl e ↦ (0, omega arith, (λ j l. absurd (omega (arith, l))), e)
  | inr (_, _, e) ↦ absurd (cc)
]
stopped_lem (suc n) sends connects h = elim (try_stopped (sends 0) (connects 0) _ h) [
  | inl e ↦ (0, omega arith, (λ j l. absurd (omega (arith, l))), e)
  | inr (a, b, c) ↦
      let (k, l, f, g) = stopped_lem n (λ k. sends (suc k)) (λ k. connects (suc k)) c in
      (suc k, omega (arith, l), before_first (Retried sends connects) k (a, b) f, g)
]

exhausts :
    (n : ℕ) (sends : ℕ → SendTry) (connects : ℕ → Bool)
    → AllRetried n sends connects
    → dispatch n sends connects ≡ exhausted
unfolding dispatch after_try
exhausts zero sends connects f = let (a, b) = f 0 (omega arith) in rw (a, b) refl
exhausts (suc n) sends connects f =
    let (a, b) = f 0 (omega arith) in
    rw (a, b)
      (exhausts n (λ k. sends (suc k)) (λ k. connects (suc k))
        (λ j l. f (suc j) (omega (arith, l))))

stops :
    (n : ℕ) (sends : ℕ → SendTry) (connects : ℕ → Bool)
    → FailsHard n sends connects
    → dispatch n sends connects ≡ stopped
unfolding dispatch after_try
stops zero sends connects (zero, l, f, g) = rw g refl
stops zero sends connects (suc k, l, f, g) = absurd (omega (arith, l))
stops (suc n) sends connects (zero, l, f, g) = rw g refl
stops (suc n) sends connects (suc k, l, f, g) =
    let (a, b) = f 0 (omega arith) in
    rw (a, b)
      (stops n (λ j. sends (suc j)) (λ j. connects (suc j))
        (k, omega (arith, l), (λ j m. f (suc j) (omega (arith, m))), g))

unanswered :
    (decode : List ℕ → ProtoCmd) (d : Dispatch) (r : SlaveReply)
    → slave_answer decode d r ≡ none
    → r ≢ still_waiting
    → (d ≡ exhausted) ⊎ (d ≡ stopped)
unfolding slave_answer
unanswered decode delivered still_waiting e n = absurd (n refl)
unanswered decode delivered connection_lost e n = absurd (cc)
unanswered decode delivered incomplete e n = absurd (cc)
unanswered decode delivered (complete s) e n = absurd (cc)
unanswered decode unreachable r e n = absurd (cc)
unanswered decode exhausted r e n = inl refl
unanswered decode stopped r e n = inr refl

module _ (decode : List ℕ → ProtoCmd) (sends : ℕ → SendTry) (connects : ℕ → Bool)
    (recvs : List Recv) (q : RequestQueue) (p : Ptr) where
  abbrev answer : Option ProtoCmd
  answer =
      slave_answer decode (dispatch dispatch_retries sends connects)
        (collect reply_retries [] recvs)

  abbrev Left : Type 0
  Left = 0 < count p ((slave_round decode sends connects recvs q p).1.heads queue_render)

  answered_gone :
      IsValid q
      → (rsp : ProtoCmd) → count p ((send_response q p rsp (negsuc 0)).1.heads queue_render) ≡ 0
  answered_gone v rsp =
      rw (send_response-heads q p rsp (negsuc 0) queue_render)
        (ground (arith, count-erase p p (q.heads queue_render), v.linked_once queue_render p))

  round_none : answer ≡ none → slave_round decode sends connects recvs q p ≡ ([], q)
  unfolding slave_round
  round_none e = rw (e, slave_round) refl

  round_some :
      (rsp : ProtoCmd)
      → answer ≡ some rsp
      → slave_round decode sends connects recvs q p ≡ send_response q p rsp (negsuc 0)
  unfolding slave_round
  round_some rsp e = rw (e, slave_round) refl

  abbrev in_render : List Message × RequestQueue → ℕ
  in_render r = count p (r.1.heads queue_render)

  no_dispatch :
      (d : Dispatch)
      → dispatch dispatch_retries sends connects ≡ d
      → (d ≡ exhausted) ⊎ (d ≡ stopped)
      → answer ≡ none
  unfolding slave_answer
  no_dispatch exhausted e h = rw e refl
  no_dispatch stopped e h = rw e refl
  no_dispatch delivered e (inl h) = absurd (cc)
  no_dispatch delivered e (inr h) = absurd (cc)
  no_dispatch unreachable e (inl h) = absurd (cc)
  no_dispatch unreachable e (inr h) = absurd (cc)

  -- For valid queues, an item that the thread has fetched, and a reply that comes or fails in the end: the
  -- item stays in the list of those being rendered, so that nobody is answered, exactly if all three
  -- tries to send fail with EPIPE and each is followed by a reconnection, or if after such tries one
  -- fails with another error.
  pub slave_round_lem :
      IsValid q
      → 0 < count p (q.heads queue_render)
      → collect reply_retries [] recvs ≢ still_waiting
      → Left
        ↔ (AllRetried dispatch_retries sends connects ⊎ FailsHard dispatch_retries sends connects)
  slave_round_lem v taken ends = (left, stays)
    where
      left :
          0 < count p ((slave_round decode sends connects recvs q p).1.heads queue_render)
          → AllRetried dispatch_retries sends connects ⊎ FailsHard dispatch_retries sends connects
      left h = elim (Option-cases answer) [
        | inl e ↦
            elim (unanswered decode (dispatch dispatch_retries sends connects)
              (collect reply_retries [] recvs) e ends) [
                | inl x ↦ inl (exhausted_lem dispatch_retries sends connects x)
                | inr x ↦ inr (stopped_lem dispatch_retries sends connects x)
              ]
        | inr (rsp, e) ↦
            absurd (omega (arith, answered_gone v rsp, ap in_render (round_some rsp e), h))
      ]

      unchanged :
          answer ≡ none
          → 0 < count p ((slave_round decode sends connects recvs q p).1.heads queue_render)
      unchanged e = subst (λ r. 0 < in_render r) (sym (round_none e)) taken

      stays :
          AllRetried dispatch_retries sends connects ⊎ FailsHard dispatch_retries sends connects
          → 0 < count p ((slave_round decode sends connects recvs q p).1.heads queue_render)
      stays (inl f) =
          unchanged (no_dispatch _ refl (inl (exhausts dispatch_retries sends connects f)))
      stays (inr f) = unchanged (no_dispatch _ refl (inr (stops dispatch_retries sends connects f)))
