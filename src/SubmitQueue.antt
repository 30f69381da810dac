-- ===== src/SubmitQueue.antt =====
-- src/render_submit_queue.c and includes/render_submit_queue.h: the requests that the command line
-- tools hand to their worker threads, which send them to renderd. A call of `enqueue` or `fetch` holds
-- `qLock` from its first access to its last but for its waits, so each is one step. Addresses of items
-- are numbers, and the fields of `struct qItem` functions of the address.
pub mod Fifo
pub mod Stats
pub mod Address
mod Tests
use mod_tile.Base.{
  ℕ, ◌+◌, ◌-◌, ℤ, pos, Bool, true, false, ◌||◌, List, [], ◌∷◌, Option, none, some, ◌==◌, ltb,
  if◌then◌else◌, take, set, get_or,
}
use mod_tile.Protocol.{ProtoCmd, cmd_render_bulk, cmd_done, eq_cmd}
use mod_tile.Item.{Ptr, update}

pub record QItems : Type 0 where
  pub mapname : Ptr → List ℕ
  pub x : Ptr → ℤ
  pub y : Ptr → ℤ
  pub z : Ptr → ℤ
  pub next : Ptr → Option Ptr

-- `qHead`, `qTail`, `qLen`, `qMaxLen` and `work_complete`, with the memory of the items.
pub record SubmitQueue : Type 0 where
  pub items : QItems
  pub q_head : Option Ptr
  pub q_tail : Option Ptr
  pub q_len : ℕ
  pub q_max_len : ℕ
  pub work_complete : Bool

-- What `fetch` fills in of a message. It leaves `mimetype` and `options` as they are, which renderd
-- sets itself for version 2.
pub record BulkRequest : Type 0 where
  pub ver : ℤ
  pub cmd : ProtoCmd
  pub x : ℤ
  pub y : ℤ
  pub z : ℤ
  pub xmlname : List ℕ

abbrev pub xmlconfig_max : ℕ
xmlconfig_max = 41

unfoldable pub request_of : QItems → Ptr → BulkRequest
request_of m e = record {
  ver = pos 2;
  cmd = cmd_render_bulk;
  x = m.x e;
  y = m.y e;
  z = m.z e;
  xmlname = take (xmlconfig_max - 1) (m.mapname e);
}

-- `waits` is a wait for `qCondNotEmpty`, `finished` the null result; `fails` ends the program.
pub data Fetch : Type 0 where
  waits finished fails : Fetch
  got : BulkRequest → SubmitQueue → Fetch

unfoldable pub unlink_head : SubmitQueue → Ptr → SubmitQueue
unlink_head q e =
    if q.q_len - 1 == 0
    then record q { q_head = none; q_tail = none; q_len = q.q_len - 1 }
    else record q { q_head = q.items.next e; q_len = q.q_len - 1 }

unfoldable pub fetch : SubmitQueue → Fetch
unfolding request_of unlink_head
fetch q =
    if q.q_len == 0
    then (if q.work_complete then finished else waits)
    else elim q.q_head [ none ↦ fails | some e ↦ got (request_of q.items e) (unlink_head q e) ]

-- The new item at its address
unfoldable pub new_item : QItems → Ptr → List ℕ → ℤ → ℤ → ℤ → QItems
new_item m e xmlname x y z = record {
  mapname = update m.mapname e xmlname;
  x = update m.x e x;
  y = update m.y e y;
  z = update m.z e z;
  next = update m.next e none;
}

-- `qTail->next = e`, or `qHead = e` where there is no tail
unfoldable pub append_item : SubmitQueue → Ptr → SubmitQueue
append_item q e = elim q.q_tail [
  | some t ↦ record q {
    items = record q.items { next = update q.items.next t (some e) };
    q_tail = some e;
    q_len = q.q_len + 1;
  }
  | none ↦ record q { q_head = some e; q_tail = some e; q_len = q.q_len + 1 }
]

-- `enqueue` at an address that `malloc` returned; `none` is a wait for `qCondNotFull`.
unfoldable pub enqueue : SubmitQueue → Ptr → List ℕ → ℤ → ℤ → ℤ → Option SubmitQueue
unfolding new_item append_item
enqueue q e xmlname x y z =
    if q.q_len == q.q_max_len
    then none
    else some (append_item (record q { items = new_item q.items e xmlname x y z }) e)

-- The first call of `spawn_workers`, once the threads run: room for as many requests as there are
-- workers. `work_complete` is never reset, so there is no other call.
unfoldable pub spawn_workers : QItems → ℕ → SubmitQueue
spawn_workers m num = record {
  items = m;
  q_head = none;
  q_tail = none;
  q_len = 0;
  q_max_len = num;
  work_complete = false;
}

-- `finish_workers`, up to its wait for the threads
unfoldable pub finish_workers : SubmitQueue → SubmitQueue
finish_workers q = record q { work_complete = true }

-- `struct speed_stat`, and the update of it for one request that was rendered in `t1` milliseconds.
pub record SpeedStat : Type 0 where
  pub time_min : ℕ
  pub time_max : ℕ
  pub time_total : ℕ
  pub no_rendered : ℕ

abbrev pub no_speed : SpeedStat
no_speed = record { time_min = 0; time_max = 0; time_total = 0; no_rendered = 0 }

unfoldable pub count_rendered : SpeedStat → ℕ → SpeedStat
count_rendered s t1 = record {
  time_min = if ltb t1 s.time_min || (s.time_min == 0) then t1 else s.time_min;
  time_max = if ltb s.time_max t1 then t1 else s.time_max;
  time_total = s.time_total + t1;
  no_rendered = s.no_rendered + 1;
}

-- The result of `recv_cmd` for the answer: nothing came, or an answer came after some milliseconds.
pub data Reply : Type 0 where
  lost : Reply
  replied : ProtoCmd → ℕ → Reply

-- A write at a zoom that is outside the array is left out here. `process` of a request at a zoom: whether it returns at least 1, and the statistics of all zooms.
unfoldable pub process : ℕ → Reply → List SpeedStat → Bool × List SpeedStat
unfolding count_rendered
process z lost stats = (false, stats)
process z (replied cmd t1) stats =
    if eq_cmd cmd cmd_done
    then (true, set stats z (count_rendered (get_or stats z no_speed) t1))
    else (true, stats)
