-- ===== src/RequestQueue/Sample.antt =====
-- Empty queues and requests for runs of the request queue.
use mod_tile.Base.{ℕ, pos, negsuc, false, [], ◌∷◌}
use mod_tile.Protocol.{Protocol, cmd_render}
use mod_tile.Item.{Heap, queue_request}
use mod_tile.RequestQueue.{RequestQueue, empty_queue}

abbrev pub no_request : Protocol
no_request = record {
  ver = pos 3;
  cmd = cmd_render;
  x = pos 0;
  y = pos 0;
  z = pos 0;
  xmlname = [];
  mimetype = [];
  options = [];
}

abbrev pub heap : Heap
heap = record {
  req = λ p. no_request;
  mx = λ p. pos 0;
  my = λ p. pos 0;
  fd = λ p. negsuc 0;
  duplicates = λ p. [];
  in_queue = λ p. queue_request;
  originated_queue = λ p. queue_request;
  allocated = λ p. false;
}

abbrev pub start : RequestQueue
start = empty_queue heap

abbrev pub request : ℕ → Protocol
request x = record no_request { x = pos x; z = pos 12; xmlname = 111 ∷ 115 ∷ 109 ∷ [] }
