-- ===== src/ItemIndex/Tests.antt =====
-- The hash index at concrete items.
use mod_tile.Base.{◌*◌, pos, negsuc, [], ◌∷◌, some, true}
use mod_tile.Protocol.{Protocol, cmd_render}
use mod_tile.Item.{Heap, queue_request}
use mod_tile.ItemIndex.{ItemIdx}

abbrev request : Protocol
request = record {
  ver = pos 3;
  cmd = cmd_render;
  x = pos 0;
  y = pos 0;
  z = pos 3;
  xmlname = b'o' ∷ [];
  mimetype = [];
  options = [];
}

-- Each item is for a metatile of its own.
abbrev heap : Heap
heap = record {
  req = λ p. request;
  mx = λ p. pos (8 * p);
  my = λ p. pos 0;
  fd = λ p. negsuc 0;
  duplicates = λ p. [];
  in_queue = λ p. queue_request;
  originated_queue = λ p. queue_request;
  allocated = λ p. true;
}

abbrev bucket : ItemIdx
bucket = record { item = some 1; next = 2 ∷ 3 ∷ [] }
