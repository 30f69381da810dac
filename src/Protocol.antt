-- ===== src/Protocol.antt =====
-- includes/protocol.h: the commands and the message between a client and renderd.
use mod_tile.Base.{ℕ, List, ℤ, Bool, ◌==◌}

pub data ProtoCmd : Type 0 where
  cmd_ignore cmd_render cmd_dirty cmd_done cmd_not_done : ProtoCmd
  cmd_render_prio cmd_render_bulk cmd_render_low : ProtoCmd

-- A C string is the list of its bytes before the terminating zero.
pub record Protocol : Type 0 where
  pub ver : ℤ
  pub cmd : ProtoCmd
  pub x : ℤ
  pub y : ℤ
  pub z : ℤ
  pub xmlname : List ℕ
  pub mimetype : List ℕ
  pub options : List ℕ

-- The value of a command as a C `enum`.
unfoldable pub cmd_value : ProtoCmd → ℕ
cmd_value cmd_ignore = 0
cmd_value cmd_render = 1
cmd_value cmd_dirty = 2
cmd_value cmd_done = 3
cmd_value cmd_not_done = 4
cmd_value cmd_render_prio = 5
cmd_value cmd_render_bulk = 6
cmd_value cmd_render_low = 7

unfoldable pub eq_cmd : ProtoCmd → ProtoCmd → Bool
unfolding cmd_value
eq_cmd a b = cmd_value a == cmd_value b
