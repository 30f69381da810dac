-- ===== src/RequestTile/Tests.antt =====
-- A request and its answer in pieces.
use mod_tile.Base.{ℕ, ◌≡◌, refl, pos, true, false, List, [], ◌∷◌, replicate, arith}
use mod_tile.Protocol.{Protocol, cmd_render}
use mod_tile.StoreFile.{get32}
use mod_tile.RequestTile.{
  ready, interrupted, answer, Renderd, request_tile, sent, broken_pipe, send_loop, want, text,
  sent_all, send_last,
}
use mod_tile.RequestTile.Reassembly.{readies, request_tile_lem}

abbrev request : Protocol
request = record {
  ver = pos 2;
  cmd = cmd_render;
  x = pos 5;
  y = pos 6;
  z = pos 7;
  xmlname = b'o' ∷ [];
  mimetype = [];
  options = [];
}

-- Version 2, `cmdDone`, and the tile that was asked for.
abbrev done : List ℕ
done =
    2
    ∷ 0
    ∷ 0
    ∷ 0
    ∷ 3
    ∷ 0
    ∷ 0
    ∷ 0
    ∷ 5
    ∷ 0
    ∷ 0
    ∷ 0
    ∷ 6
    ∷ 0
    ∷ 0
    ∷ 0
    ∷ 7
    ∷ 0
    ∷ 0
    ∷ 0
    ∷ b'o'
    ∷ replicate 43 0

-- The first connection is broken, and the answer comes in pieces of one byte and of ten.
abbrev renderd : Renderd
renderd = record {
  connects = true;
  first_send = broken_pipe;
  first_again = true;
  last_send = sent 64;
  last_again = true;
  events = ready 0 ∷ interrupted ∷ replicate 63 (ready 9);
  stream = done;
}

request_tile_lem_example : request_tile renderd false request 1 ≡ answer request done
unfolding send_loop send_last sent_all want get32 readies
request_tile_lem_example =
    request_tile_lem renderd false request 1 refl refl (omega arith) refl (omega arith)

done_is_done : answer request done ≡ true
unfolding answer get32 text
done_is_done = refl
