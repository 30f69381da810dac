-- ===== src/ProtocolHelper.antt =====
-- src/protocol_helper.c: a message on its way through a socket. The memory of `struct protocol` is its
-- 144 bytes, of which 20 are those of `struct protocol_v1` and 64 those of `struct protocol_v2`.
pub mod Transfer
mod Tests
use mod_tile.Base.{
  ℕ, zero, suc, ◌+◌, ◌-◌, ℤ, pos, negsuc, ltb_ℤ, eq_ℤ, Bool, true, false, not, ◌&&◌, ◌||◌, List, [],
  ◌∷◌, ◌++◌, Option, none, some, ltb, ◌==◌, if◌then◌else◌, length, take, drop, replicate,
}
use mod_tile.RequestTile.{int_at, size_v2, size_v3}

abbrev pub size_v1 : ℕ
size_v1 = 20

-- The version of a message
abbrev pub ver : List ℕ → ℤ
ver memory = int_at 0 memory

abbrev pub unknown_version : ℤ → Bool
unknown_version v = ltb_ℤ (pos 3) v || ltb_ℤ v (pos 1)

-- How many bytes of the structure a version uses
unfoldable pub expected_len : ℤ → ℕ
expected_len v =
    if eq_ℤ v (pos 1)
    then size_v1
    else if eq_ℤ v (pos 2)
    then size_v2
    else if eq_ℤ v (pos 3)
    then size_v3
    else 0

-- `send_cmd`: its result and what goes into the socket. `is_socket` tells whether `getsockopt`
-- succeeds, and `moved` is the result of `send`.
unfoldable pub send_cmd : (is_socket : Bool) → (moved : List ℕ → ℤ) → (fd : ℤ) → List ℕ → ℤ × List ℕ
send_cmd is_socket moved fd memory =
    if ltb_ℤ fd (pos 0)
    then (negsuc 0, [])
    else if unknown_version (ver memory)
    then (negsuc 0, [])
    else if not is_socket
    then (negsuc 0, [])
    else (moved bytes, on_wire (moved bytes))
  where
    bytes : List ℕ
    bytes = take (expected_len (ver memory)) memory

    on_wire : ℤ → List ℕ
    on_wire (pos n) = take n bytes
    on_wire (negsuc n) = []

-- A call of `recv` fails, or moves at most so many of the bytes that are there.
pub data Recv : Type 0 where
  recv_fails : Recv
  recvs : ℕ → Recv

unfoldable pub recv : Recv → ℕ → List ℕ → Option (List ℕ)
recv recv_fails len stream = none
recv (recvs n) len stream = some (take (if ltb n len then n else len) stream)

-- The structure after bytes were read to its beginning, the rest being zero from `memset`
unfoldable pub zero_filled : List ℕ → List ℕ
zero_filled bytes = bytes ++ replicate (size_v3 - length bytes) 0

-- The test of the number of bytes at the end
unfoldable pub whole : List ℕ → ℤ × List ℕ
whole bytes =
    if (length bytes == size_v3) || (length bytes == size_v1) || (length bytes == size_v2)
    then (pos (length bytes), zero_filled bytes)
    else (pos 0, zero_filled bytes)

-- The second read, of what the version has behind the first 20 bytes. Its failure leaves nothing.
unfoldable pub second_read : List ℕ → Option (List ℕ) → ℤ × List ℕ
second_read head none = (negsuc 0, zero_filled head)
second_read head (some []) = (negsuc 0, zero_filled head)
second_read head (some (b ∷ bytes)) = whole (head ++ b ∷ bytes)

unfoldable pub read_rest : Recv → List ℕ → List ℕ → ℤ × List ℕ
read_rest again head stream =
    if unknown_version (ver head)
    then (negsuc 0, zero_filled head)
    else if eq_ℤ (ver head) (pos 1)
    then whole head
    else second_read head (recv again (expected_len (ver head) - size_v1) stream)

unfoldable pub first_read : Recv → Option (List ℕ) → List ℕ → ℤ × List ℕ
first_read again none stream = (negsuc 0, zero_filled [])
first_read again (some []) stream = (negsuc 0, zero_filled [])
first_read again (some (b ∷ bytes)) stream =
    if ltb (length (b ∷ bytes)) size_v1
    then (pos 0, zero_filled (b ∷ bytes))
    else read_rest again (b ∷ bytes) (drop (length (b ∷ bytes)) stream)

-- `recv_cmd`: its result and the structure. A blocking call is one where `recv` moves all that it is
-- asked for if it is there.
unfoldable pub recv_cmd : Recv → Recv → List ℕ → ℤ × List ℕ
recv_cmd first again stream = first_read again (recv first size_v1 stream) stream
