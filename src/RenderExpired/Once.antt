-- ===== src/RenderExpired/Once.antt =====
-- src/render_expired.c, `main`: which metatiles are looked at, and how often.
use mod_tile.Base.{ℕ, ◌+◌, ◌≤◌, ◌≡◌, Bool, true, List, if◌then◌else◌, count, length, map}
use mod_tile.RenderExpired.{
  do_render, ExpireConf, Expired, metatile_key, tile_is_requested, Action, metatile_delete,
  metatile_expire, enqueue,
}

abbrev pub action_key : Action → ℕ
action_key (metatile_delete z x y) = metatile_key z x y
action_key (metatile_expire z x y) = metatile_key z x y
action_key (enqueue z x y) = metatile_key z x y

-- Each of some metatiles was looked at once and no other was; on each there was one call at most; and
-- the counters tell how many were looked at, and how many deleted, touched and enqueued.
pub record IsOnce (c : ExpireConf) (s : Expired) (ks : List ℕ) : Type 0 where
  pub once : (k : ℕ) → count k s.requested ≡ (if tile_is_requested ks k then 1 else 0)
  pub acted : (k : ℕ) → count k (map action_key s.actions) ≤ count k s.requested
  pub looked : s.num_all ≡ length s.requested
  pub done : length s.actions ≡ s.num_unlink + s.num_touch + s.num_render
  pub existing : do_render c ≡ true → s.num_all ≡ s.num_ignore + length s.actions

abbrev flag : Bool → ℕ
flag b = if b then 1 else 0
