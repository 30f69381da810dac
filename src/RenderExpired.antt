-- ===== src/RenderExpired.antt =====
-- src/render_expired.c: the tiles read from the input, and what becomes of the metatiles that they lie
-- in. The zooms of the configuration are those after the checks of the options and the raise of
-- `min_zoom`. What `tile_stat` finds is given, and may depend on all that was done before. Progress
-- messages and the names of the metatiles in them are left out.
pub mod Requested
pub mod Levels
pub mod Once
mod Tests
use mod_tile.Base.{
  ℕ, zero, suc, ◌+◌, ◌-◌, ◌*◌, ◌/◌, ◌^◌, ℤ, pos, negsuc, pos_part, residue, ltb_ℤ, ◌-ℤ◌, Bool, true,
  false, ◌&&◌, ◌||◌, List, [], ◌∷◌, Option, none, some, ltb, leb, ◌==◌, if◌then◌else◌,
}
use mod_tile.TileTranslate.{to_int}

-- `>>` and `<< 1` on signed numbers
abbrev pub shr : ℤ → ℕ → ℤ
shr (pos n) k = pos (n / 2 ^ k)
shr (negsuc n) k = negsuc (n / 2 ^ k)

abbrev pub doubled : ℤ → ℤ
doubled (pos n) = pos (2 * n)
doubled (negsuc n) = negsuc (2 * n + 1)

-- What the loop over METATILE, which is 8, counts.
abbrev pub excess_zoomlevels : ℕ
excess_zoomlevels = 3

-- `tile_key` of a zoom that is not negative: the three numbers lie in bits of their own.
unfoldable pub tile_key : ℕ → ℤ → ℤ → ℕ
tile_key z x y = z * 2 ^ 48 + residue x (2 ^ 24) * 2 ^ 24 + residue y (2 ^ 24)

-- The hash table is the list of the keys that were added, the last one first.
unfoldable pub tile_is_requested : List ℕ → ℕ → Bool
tile_is_requested [] key = false
tile_is_requested (k ∷ ks) key = k == key || tile_is_requested ks key

-- The options `--delete-from` and `--touch-from` are given or not.
pub record ExpireConf : Type 0 where
  pub min_zoom : ℕ
  pub max_zoom : ℕ
  pub delete_from : Option ℕ
  pub touch_from : Option ℕ

-- `min_zoom` after the raise
unfoldable pub raised_min_zoom : ℕ → ℕ
raised_min_zoom z = if ltb z excess_zoomlevels then excess_zoomlevels else z

-- Whether an option is given and below, or at most, a zoom
abbrev pub given_above : ℕ → Option ℕ → Bool
given_above z none = false
given_above z (some from) = ltb z from

abbrev pub given_from : ℕ → Option ℕ → Bool
given_from z none = false
given_from z (some from) = leb from z

abbrev pub is_given : Option ℕ → Bool
is_given none = false
is_given (some from) = true

unfoldable pub do_render : ExpireConf → Bool
do_render c =
    given_above c.min_zoom c.touch_from
    || given_above c.min_zoom c.delete_from
    || (if is_given c.touch_from || is_given c.delete_from then false else true)

-- A call of the store, or of `enqueue`, for the metatile of a tile
pub data Action : Type 0 where
  metatile_delete metatile_expire enqueue : ℕ → ℤ → ℤ → Action

pub record Expired : Type 0 where
  pub requested : List ℕ
  pub actions : List Action
  pub num_read : ℕ
  pub num_all : ℕ
  pub num_unlink : ℕ
  pub num_touch : ℕ
  pub num_render : ℕ
  pub num_ignore : ℕ

-- Whether a tile exists, after some actions, the last one first
abbrev pub TileStat : Type 0
TileStat = List Action → ℕ → ℤ → ℤ → Bool

-- What is done with a tile that exists.
unfoldable pub expire_tile : ExpireConf → ℕ → ℤ → ℤ → Expired → Expired
unfolding do_render
expire_tile c z x y s =
    if given_from z c.delete_from
    then record s { actions = metatile_delete z x y ∷ s.actions; num_unlink = s.num_unlink + 1 }
    else if given_from z c.touch_from
    then record s { actions = metatile_expire z x y ∷ s.actions; num_touch = s.num_touch + 1 }
    else if do_render c
    then record s { actions = enqueue z x y ∷ s.actions; num_render = s.num_render + 1 }
    else s

abbrev pub metatile_key : ℕ → ℤ → ℤ → ℕ
metatile_key z x y =
    tile_key (z - excess_zoomlevels) (shr x excess_zoomlevels) (shr y excess_zoomlevels)

abbrev pub set_tile_requested : ℕ → ℤ → ℤ → Expired → Expired
set_tile_requested z x y s = record s {
  requested = metatile_key z x y ∷ s.requested;
  num_all = s.num_all + 1;
}

-- The body of the loop for a metatile that was not requested before.
unfoldable pub visit : ExpireConf → TileStat → ℕ → ℤ → ℤ → Expired → Expired
unfolding tile_key expire_tile
visit c tile_stat z x y s =
    if tile_stat s.actions z x y
    then expire_tile c z x y (set_tile_requested z x y s)
    else record (set_tile_requested z x y s) { num_ignore = s.num_ignore + 1 }

-- The loop over the zooms, from this one down; `min_zoom` is 3 at least, so zoom 0 is never reached.
unfoldable pub zoom_levels : ExpireConf → TileStat → ℕ → ℤ → ℤ → Expired → Expired
unfolding tile_is_requested visit
zoom_levels c tile_stat zero x y s = s
zoom_levels c tile_stat (suc z) x y s =
    let lower = zoom_levels c tile_stat z (shr x 1) (shr y 1) (visit c tile_stat (suc z) x y s) in
    if ltb (suc z) c.min_zoom
    then s
    else if tile_is_requested s.requested (metatile_key (suc z) x y)
    then s
    else lower

-- The tile of zoom `max_zoom` that an input stands for: so many rounds of the first or second loop.
unfoldable pub shrink : ℕ → ℤ → ℤ
shrink zero x = x
shrink (suc n) x = shrink n (shr x 1)

unfoldable pub expand : ℕ → ℤ → ℤ
unfolding to_int
expand zero x = x
expand (suc n) x = expand n (to_int (doubled x))

unfoldable pub at_max_zoom : ExpireConf → ℤ → ℤ → ℤ
unfolding shrink expand
at_max_zoom c z x =
    if ltb_ℤ (pos c.max_zoom) z
    then shrink (pos_part (z -ℤ pos c.max_zoom)) x
    else expand (pos_part (pos c.max_zoom -ℤ z)) x

-- A line of the input: the numbers z, x and y, or something else.
pub data Line : Type 0 where
  tile : ℤ → ℤ → ℤ → Line
  invalid : Line

unfoldable pub read_line : ExpireConf → TileStat → Line → Expired → Expired
unfolding at_max_zoom zoom_levels
read_line c tile_stat invalid s = s
read_line c tile_stat (tile z x y) s =
    zoom_levels c tile_stat c.max_zoom (at_max_zoom c z x) (at_max_zoom c z y)
      (record s { num_read = s.num_read + 1 })

unfoldable pub read_lines : ExpireConf → TileStat → List Line → Expired → Expired
unfolding read_line
read_lines c tile_stat [] s = s
read_lines c tile_stat (l ∷ ls) s = read_lines c tile_stat ls (read_line c tile_stat l s)

abbrev pub no_tiles : Expired
no_tiles = record {
  requested = [];
  actions = [];
  num_read = 0;
  num_all = 0;
  num_unlink = 0;
  num_touch = 0;
  num_render = 0;
  num_ignore = 0;
}
