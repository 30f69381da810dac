-- ===== src/Renderd/Slave.antt =====
-- src/renderd.c, `slave_thread`: a thread that has another renderd render the items that it fetches.
-- What `send_cmd`, `client_socket_init` and `recv` return is given. The thread waits for a first
-- connection before it fetches an item, and after a failure pauses, which changes no state.
pub mod Left
use mod_tile.Base.{
  ℕ, zero, suc, ◌+◌, ◌-◌, ℤ, negsuc, Bool, true, false, List, [], ◌∷◌, ◌++◌, Option, none, some,
  leb, ◌==◌, if◌then◌else◌, take, length,
}
use mod_tile.Protocol.{ProtoCmd, cmd_not_done}
use mod_tile.Item.{Ptr}
use mod_tile.RequestQueue.{RequestQueue}
use mod_tile.RequestTile.{size_v3}
use mod_tile.Renderd.{Message, send_response}

-- One try to send the request: the whole message went, or it did not and `errno` is EPIPE or another.
pub data SendTry : Type 0 where
  sent broken_pipe send_error : SendTry

-- How the loop of tries ends: the request is sent, there is no connection any more, all tries are used
-- up, or the thread ends.
pub data Dispatch : Type 0 where
  delivered unreachable exhausted stopped : Dispatch

unfoldable pub after_try : SendTry → Bool → Dispatch → Dispatch
after_try sent connects more = delivered
after_try send_error connects more = stopped
after_try broken_pipe true more = more
after_try broken_pipe false more = unreachable

-- The tries, with so many after the next one; `connects` tells which reconnections succeed.
unfoldable pub dispatch : ℕ → (ℕ → SendTry) → (ℕ → Bool) → Dispatch
unfolding after_try
dispatch zero sends connects = after_try (sends 0) (connects 0) exhausted
dispatch (suc n) sends connects =
    after_try (sends 0) (connects 0) (dispatch n (λ k. sends (suc k)) (λ k. connects (suc k)))

abbrev pub dispatch_retries : ℕ
dispatch_retries = 2

-- One call of `recv`: an error EINTR, EPIPE or another, the end of the connection, or some bytes.
pub data Recv : Type 0 where
  interrupted pipe_closed recv_error end_of_file : Recv
  bytes : List ℕ → Recv

-- How the loop of calls ends, if it does with the calls that there are.
pub data SlaveReply : Type 0 where
  still_waiting connection_lost incomplete : SlaveReply
  complete : List ℕ → SlaveReply

unfoldable pub collect : ℕ → List ℕ → List Recv → SlaveReply
collect retry held [] =
    if leb size_v3 (length held)
    then complete held
    else if retry == 0
    then incomplete
    else still_waiting
collect retry held (r ∷ rs) =
    let again = collect retry held rs in
    let fewer = collect (retry - 1) held rs in
    let longer = λ (s : List ℕ). collect retry (held ++ take (size_v3 - length held) s) rs in
    if leb size_v3 (length held) then complete held else if retry == 0 then incomplete else elim r [
      | interrupted ↦ again
      | pipe_closed ↦ connection_lost
      | recv_error ↦ fewer
      | end_of_file ↦ connection_lost
      | bytes s ↦ longer s
    ]

abbrev pub reply_retries : ℕ
reply_retries = 10

-- The answer that the thread gives, if it gives one; `decode` reads the command of a reply.
unfoldable pub slave_answer : (List ℕ → ProtoCmd) → Dispatch → SlaveReply → Option ProtoCmd
slave_answer decode delivered (complete s) = some (decode s)
slave_answer decode delivered still_waiting = none
slave_answer decode delivered connection_lost = some cmd_not_done
slave_answer decode delivered incomplete = some cmd_not_done
slave_answer decode unreachable r = some cmd_not_done
slave_answer decode exhausted r = none
slave_answer decode stopped r = none

-- What becomes of an item that the thread has fetched.
unfoldable pub slave_round :
    (List ℕ → ProtoCmd)
    → (ℕ → SendTry)
    → (ℕ → Bool)
    → List Recv
    → RequestQueue
    → Ptr
    → List Message × RequestQueue
unfolding dispatch collect slave_answer
slave_round decode sends connects recvs q p =
    elim (slave_answer decode (dispatch dispatch_retries sends connects)
      (collect reply_retries [] recvs)) [
        | none ↦ ([], q)
        | some rsp ↦ send_response q p rsp (negsuc 0)
      ]
