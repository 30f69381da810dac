-- ===== src/RequestTile.antt =====
-- src/mod_tile.c, `request_tile`: the Apache module sends a request to renderd and waits for the
-- answer. The sizes are those of the structures where an `int` has four bytes: 64 bytes for
-- `struct protocol_v2` and 144 for `struct protocol`.
pub mod Reassembly
mod Tests
use mod_tile.Base.{
  ℕ, zero, suc, ◌+◌, ◌-◌, ◌*◌, ◌^◌, ℤ, pos, negsuc, eq_ℤ, Bool, true, false, not, ◌&&◌, ◌||◌, List,
  [], ◌∷◌, ◌++◌, Option, none, some, ltb, ◌==◌, if◌then◌else◌, eq_list, length, take, drop,
}
use mod_tile.Protocol.{
  ProtoCmd, Protocol, cmd_dirty, cmd_render_low, cmd_render, cmd_render_prio, cmd_render_bulk,
}
use mod_tile.StoreFile.{get32}

abbrev pub size_v2 : ℕ
size_v2 = 64

abbrev pub size_v3 : ℕ
size_v3 = 144

-- The command for a priority, which bulk mode overrides
unfoldable pub request_cmd : (enable_bulk_mode : Bool) → ℕ → ProtoCmd → ProtoCmd
request_cmd enable_bulk_mode priority cmd =
    if enable_bulk_mode
    then cmd_render_bulk
    else if priority == 0
    then cmd_dirty
    else if priority == 1
    then cmd_render_low
    else if priority == 2
    then cmd_render
    else if priority == 3
    then cmd_render_prio
    else cmd

-- A call of `send` moves so many bytes, or fails with EPIPE or otherwise.
pub data SendCall : Type 0 where
  sent : ℕ → SendCall
  broken_pipe send_error : SendCall

-- The loop of the sends, with the calls of `send` and the outcomes of `socket_init` after a failure
-- with EPIPE, in their order: the first send, and one more. The answer is whether the function goes
-- on. After a partial send `errno` is taken not to be EPIPE; a version other than 2 and 3 sends
-- nothing, which counts as 0 bytes.
unfoldable pub sent_all : ℕ → Bool
sent_all n = (n == size_v2) || (n == size_v3)

unfoldable pub send_last : SendCall → (reconnects : Bool) → Bool
unfolding sent_all
send_last (sent n) reconnects = sent_all n
send_last send_error reconnects = false
send_last broken_pipe reconnects = reconnects

unfoldable pub send_loop : SendCall → Bool → SendCall → Bool → Bool
unfolding sent_all send_last
send_loop (sent n) first_again last again = sent_all n
send_loop send_error first_again last again = false
send_loop broken_pipe first_again last again = if first_again then send_last last again else false

-- An `int` in the bytes of the answer, and the text at a place, up to the zero behind it; what was not
-- read of the structure is zero.
abbrev pub int_at : ℕ → List ℕ → ℤ
int_at k bytes = to_int (get32 (drop k bytes))
  where
    to_int : ℕ → ℤ
    to_int n = if ltb n (2 ^ 31) then pos n else negsuc (2 ^ 32 - 1 - n)

unfoldable pub text : List ℕ → List ℕ
text [] = []
text (zero ∷ bytes) = []
text (suc c ∷ bytes) = suc c ∷ text bytes

-- The verdict on a complete answer: it is about the tile that was asked for, and the tile is done.
unfoldable pub answer : Protocol → List ℕ → Bool
unfolding get32 text
answer cmd bytes =
    eq_ℤ cmd.x (int_at 8 bytes)
    && eq_ℤ cmd.y (int_at 12 bytes)
    && eq_ℤ cmd.z (int_at 16 bytes)
    && eq_list cmd.xmlname (text (drop 20 bytes))
    && eq_ℤ (int_at 4 bytes) (pos 3)

-- How many bytes are wanted in all, by what was read: the version stands in the first four bytes.
unfoldable pub want : List ℕ → ℕ
unfolding get32
want bytes = if ltb (length bytes) 4 then size_v2 else if get32 bytes == 3 then size_v3 else size_v2

-- A round of the waiting: `poll` fails or times out, or `recv` fails, is interrupted, or moves at most
-- so many bytes and one more.
pub data Event : Type 0 where
  timeout poll_error recv_error interrupted : Event
  ready : ℕ → Event

-- The loop of the waiting, with the bytes that were read and those that are still to come; when no
-- event is left the `poll` times out. The end of the stream is an error.
unfoldable pub wait_loop : Protocol → List Event → List ℕ → List ℕ → Bool
wait_loop cmd [] bytes stream = false
wait_loop cmd (timeout ∷ es) bytes stream = false
wait_loop cmd (poll_error ∷ es) bytes stream = false
wait_loop cmd (recv_error ∷ es) bytes stream = false
wait_loop cmd (interrupted ∷ es) bytes stream = wait_loop cmd es bytes stream
wait_loop cmd (ready n ∷ es) bytes [] = false
wait_loop cmd (ready n ∷ es) bytes (b ∷ stream) =
    let room = want bytes - length bytes in
    let k = if ltb n room then suc n else room in
    let bytes' = bytes ++ take k (b ∷ stream) in
    let rest = wait_loop cmd es bytes' (drop k (b ∷ stream)) in
    if length bytes' == want bytes' then answer cmd bytes' else rest

-- What the other side does with one request
pub record Renderd : Type 0 where
  pub connects : Bool
  pub first_send : SendCall
  pub first_again : Bool
  pub last_send : SendCall
  pub last_again : Bool
  pub events : List Event
  pub stream : List ℕ

-- `request_tile`: whether the tile has been rendered. A request with the priority 0 is not waited for.
unfoldable pub request_tile : Renderd → (enable_bulk_mode : Bool) → Protocol → ℕ → Bool
request_tile r enable_bulk_mode cmd priority =
    if not r.connects
    then false
    else if not (send_loop r.first_send r.first_again r.last_send r.last_again)
    then false
    else if priority == 0
    then false
    else wait_loop (record cmd { cmd = request_cmd enable_bulk_mode priority cmd.cmd }) r.events []
        r.stream
