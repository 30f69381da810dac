-- ===== src/RequestTile/Reassembly.antt =====
-- src/mod_tile.c, `request_tile`: the answer is put together from the pieces that arrive.
use mathlib.Core.List.{append_assoc}
use mathlib.Core.Bool.{false≢true}
use mod_tile.Base.{
  subst, sym, take++drop, length-take, ℕ, suc, ◌-◌, ◌≤◌, ◌<◌, ◌≡◌, refl, sym, ◌∙◌, ap, Bool, true,
  false, List, [], ◌∷◌, ◌++◌, arith, length, length-append, take, drop, take-append, take_all, ltb,
  ◌==◌, if◌then◌else◌, Bool-cases, inl, inr,
}
use mod_tile.Protocol.{Protocol}
use mod_tile.StoreFile.{get32}
use mod_tile.RequestTile.{
  Event, timeout, poll_error, recv_error, interrupted, ready, want, answer, wait_loop, request_cmd,
  Renderd, send_loop, request_tile,
}

-- The rounds that move bytes, up to the first failure.
unfoldable pub readies : List Event → ℕ
readies [] = 0
readies (interrupted ∷ es) = readies es
readies (ready n ∷ es) = suc (readies es)
readies (_ ∷ es) = 0

get32-append : (xs ys : List ℕ) → 4 ≤ length xs → get32 (xs ++ ys) ≡ get32 xs
unfolding get32
get32-append [] ys h = absurd (omega arith)
get32-append (a ∷ []) ys h = absurd (omega arith)
get32-append (a ∷ b ∷ []) ys h = absurd (omega arith)
get32-append (a ∷ b ∷ c ∷ []) ys h = absurd (omega arith)
get32-append (a ∷ b ∷ c ∷ d ∷ xs) ys h = refl

-- The wanted length is known from the fourth byte on, and is 64 before.
want-append :
    (xs ys : List ℕ)
    → 64 ≤ length (xs ++ ys)
    → want xs ≡ (if ltb (length xs) 4 then 64 else want (xs ++ ys))
unfolding want
want-append xs ys h = ground (arith, get32-append xs ys, length-append xs ys)

want-le : (xs : List ℕ) → 64 ≤ want xs
unfolding want
want-le xs = ground arith

module _ (cmd : Protocol) (message : List ℕ) (complete : length message ≡ want message) where
  want-prefix :
      (xs ys : List ℕ)
      → xs ++ ys ≡ message
      → want xs ≡ (if ltb (length xs) 4 then 64 else length message)
  want-prefix xs ys e =
      want-append xs ys (omega (arith, ap length e, complete, want-le message))
      ∙ ap (λ w. if ltb (length xs) 4 then 64 else w) (ap want e ∙ sym complete)

  prefix_all : (xs ys : List ℕ) → xs ++ ys ≡ message → length xs ≡ length message → xs ≡ message
  prefix_all xs ys e h =
      sym (take-append (length xs) xs ys refl)
      ∙ ap (take (length xs)) e
      ∙ take_all (length xs) message (omega (arith, h))

  -- One round moves something, and not more than there is.
  moved :
      (n : ℕ) (bytes stream : List ℕ)
      → bytes ++ stream ≡ message
      → 0 < length stream
      → let room = want bytes - length bytes in
        let k = if ltb n room then suc n else room in (0 < k) × (k ≤ length stream)
  moved n bytes stream e h = ground (
    arith,
    want-prefix bytes stream e,
    length-append bytes stream,
    ap length e,
    complete,
    want-le message,
  )

  done_or_not :
      (bytes' rest : List ℕ)
      → bytes' ++ rest ≡ message
      → (length bytes' == want bytes') ≡ (length rest == 0)
  done_or_not bytes' rest e = ground (
    arith,
    want-prefix bytes' rest e,
    length-append bytes' rest,
    ap length e,
    complete,
    want-le message,
  )

  read_on :
      (es : List Event) (bytes stream : List ℕ)
      → bytes ++ stream ≡ message
      → 0 < length stream
      → length stream ≤ readies es
      → wait_loop cmd es bytes stream ≡ answer cmd message
  unfolding wait_loop readies
  read_on [] bytes stream e h r = absurd (omega arith)
  read_on (timeout ∷ es) bytes stream e h r = absurd (omega arith)
  read_on (poll_error ∷ es) bytes stream e h r = absurd (omega arith)
  read_on (recv_error ∷ es) bytes stream e h r = absurd (omega arith)
  read_on (interrupted ∷ es) bytes stream e h r = read_on es bytes stream e h r
  read_on (ready n ∷ es) bytes [] e h r = absurd (omega arith)
  read_on (ready n ∷ es) bytes (b ∷ stream) e h r =
      let s = b ∷ stream in
      let room = want bytes - length bytes in
      let k = if ltb n room then suc n else room in
      let bytes' = bytes ++ take k s in
      let whole : bytes' ++ drop k s ≡ message =
        append_assoc bytes (take k s) (drop k s) ∙ ap (λ t. bytes ++ t) (take++drop k s) ∙ e in
      elim (Bool-cases (length bytes' == want bytes')) [
        | inl f ↦ rw f (
            ap (answer cmd) (
              prefix_all bytes' (drop k s) whole (
                ground (
                  arith,
                  f,
                  done_or_not bytes' (drop k s) whole,
                  length-append bytes' (drop k s),
                  ap length whole,
                ))))
        | inr f ↦ rw f (
            read_on es bytes' (drop k s) whole
              (ground (arith, f, done_or_not bytes' (drop k s) whole))
              (fewer k (moved n bytes s e h)))
      ]
    where
      fewer :
          (k : ℕ) → (0 < k) × (k ≤ suc (length stream)) → length (drop k (b ∷ stream)) ≤ readies es
      fewer k (p, q) = omega (
        arith,
        r,
        p,
        q,
        length-append (take k (b ∷ stream)) (drop k (b ∷ stream)),
        ap length (take++drop k (b ∷ stream)),
        length-take k (b ∷ stream) q,
      )

wait_loop_lem :
    (cmd : Protocol) (message : List ℕ) (es : List Event)
    → length message ≡ want message
    → length message ≤ readies es
    → wait_loop cmd es [] message ≡ answer cmd message
wait_loop_lem cmd message es h r =
    read_on cmd message h es [] message refl (omega (arith, want-le message, h)) r

-- A request that is waited for and has been sent, at once or after a reconnection, and a complete
-- answer, of the length that its version asks for: however the answer is split up, and however often
-- `recv` is interrupted, where the pieces come before the timeout the result of `request_tile` is the
-- verdict on the whole answer (the same tile, and done).
pub request_tile_lem :
    (r : Renderd) (enable_bulk_mode : Bool) (cmd : Protocol) (priority : ℕ)
    → r.connects ≡ true
    → send_loop r.first_send r.first_again r.last_send r.last_again ≡ true
    → 0 < priority
    → length r.stream ≡ want r.stream
    → length r.stream ≤ readies r.events
    → request_tile r enable_bulk_mode cmd priority ≡ answer cmd r.stream
unfolding request_tile answer
request_tile_lem r bulk cmd priority c h p l n =
    rw (c, h, not_zero)
      (wait_loop_lem (record cmd { cmd = request_cmd bulk priority cmd.cmd }) r.stream r.events l n)
  where
    not_zero : (priority == 0) ≡ false
    not_zero = ground arith

-- What the loop of the waiting needs for success: a whole answer among the bytes, with its verdict.
abbrev pub IsReceived : Protocol → List ℕ → Type 0
IsReceived cmd bytes =
    (message : List ℕ) × (rest : List ℕ) × (bytes ≡ message ++ rest)
    × (length message ≡ want message)
    × (answer cmd message ≡ true)

wait_loop-IsReceived :
    (cmd : Protocol) (es : List Event) (bytes stream : List ℕ)
    → wait_loop cmd es bytes stream ≡ true
    → IsReceived cmd (bytes ++ stream)
unfolding wait_loop
wait_loop-IsReceived cmd [] bytes stream e = absurd (false≢true e)
wait_loop-IsReceived cmd (timeout ∷ es) bytes stream e = absurd (false≢true e)
wait_loop-IsReceived cmd (poll_error ∷ es) bytes stream e = absurd (false≢true e)
wait_loop-IsReceived cmd (recv_error ∷ es) bytes stream e = absurd (false≢true e)
wait_loop-IsReceived cmd (interrupted ∷ es) bytes stream e =
    wait_loop-IsReceived cmd es bytes stream e
wait_loop-IsReceived cmd (ready n ∷ es) bytes [] e = absurd (false≢true e)
wait_loop-IsReceived cmd (ready n ∷ es) bytes (b ∷ stream) e =
    let s = b ∷ stream in
    let room = want bytes - length bytes in
    let k = if ltb n room then suc n else room in
    let bytes' = bytes ++ take k s in
    let whole : bytes' ++ drop k s ≡ bytes ++ s =
      append_assoc bytes (take k s) (drop k s) ∙ ap (λ t. bytes ++ t) (take++drop k s) in
    elim (Bool-cases (length bytes' == want bytes')) [
      | inl f ↦ (bytes', drop k s, sym whole, ground (arith, f), rw f at e)
      | inr f ↦
          subst (IsReceived cmd) whole (wait_loop-IsReceived cmd es bytes' (drop k s) (rw f at e))
    ]

-- A tile counts as rendered only where the request was sent, and a whole answer came with the verdict.
pub request_tile-IsReceived :
    (r : Renderd) (enable_bulk_mode : Bool) (cmd : Protocol) (priority : ℕ)
    → request_tile r enable_bulk_mode cmd priority ≡ true
    → (r.connects ≡ true)
      × (send_loop r.first_send r.first_again r.last_send r.last_again ≡ true)
      × IsReceived cmd r.stream
unfolding request_tile answer
request_tile-IsReceived r bulk cmd priority e = elim (Bool-cases r.connects) [
  | inr c ↦ absurd (false≢true (rw c at e))
  | inl c ↦ elim (Bool-cases (send_loop r.first_send r.first_again r.last_send r.last_again)) [
    | inr h ↦ absurd (false≢true (rw (c, h) at e))
    | inl h ↦ elim (Bool-cases (priority == 0)) [
      | inl z ↦ absurd (false≢true (rw (c, h, z) at e))
      | inr p ↦ (
        c,
        h,
        wait_loop-IsReceived (record cmd { cmd = request_cmd bulk priority cmd.cmd }) r.events []
            r.stream (rw (c, h, p) at e),
      )
    ]
  ]
]
