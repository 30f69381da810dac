-- ===== src/ProtocolHelper/Tests.antt =====
-- A message of version 2 through a socket, and one that is cut short.
use mod_tile.Base.{ℕ, ◌≡◌, refl, pos, negsuc, length, true, List, ◌∷◌, replicate, take}
use mod_tile.StoreFile.{get32}
use mod_tile.ProtocolHelper.{
  ver, expected_len, send_cmd, recv_cmd, recv, recvs, recv_fails, zero_filled, whole, second_read,
  read_rest, first_read,
}
use mod_tile.ProtocolHelper.Transfer.{recv_cmd-send_cmd}

abbrev message : ℕ → List ℕ
message v = v ∷ 0 ∷ 0 ∷ 0 ∷ 1 ∷ 0 ∷ 0 ∷ 0 ∷ 5 ∷ replicate 135 9

recv_cmd-send_cmd_example :
    let (status, wire) = send_cmd true (λ bytes. pos (length bytes)) (pos 4) (message 2) in
    (status ≡ pos (expected_len (ver (message 2))))
    × (recv_cmd (recvs 20) (recvs 124) wire ≡ (
      pos (expected_len (ver (message 2))),
      zero_filled (take (expected_len (ver (message 2))) (message 2)),
    ))
unfolding get32
recv_cmd-send_cmd_example = recv_cmd-send_cmd 4 (message 2) refl refl

-- An error, and a message of version 3 of which 44 bytes come behind the first 20: its length is that
-- of version 2, so it is taken for a complete message.
cut_short :
    ((recv_cmd recv_fails recv_fails (message 3)).0 ≡ negsuc 0)
    × ((recv_cmd (recvs 20) recv_fails (message 3)).0 ≡ negsuc 0)
    × ((recv_cmd (recvs 19) recv_fails (message 3)).0 ≡ pos 0)
    × ((recv_cmd (recvs 20) (recvs 44) (message 3)).0 ≡ pos 64)
unfolding recv_cmd recv first_read read_rest second_read whole get32 expected_len zero_filled
cut_short = (refl, refl, refl, refl)
