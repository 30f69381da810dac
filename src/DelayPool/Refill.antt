-- ===== src/DelayPool/Refill.antt =====
-- src/mod_tile.c, `delay_allowed`, the fillup: how much time turns into tokens.
use native.Mathlib.Omega.{div_any}
use native.Mathlib.Nat.{mod-lt}
use mod_tile.Base.{
  ℕ, ◌+◌, ◌-◌, ◌*◌, ◌/◌, ◌≤◌, ◌<◌, ◌≡◌, refl, pos, ◌+ℤ◌, ◌-ℤ◌, quot, scale, arith, ap, ◌∙◌,
}
use mod_tile.DelayPool.{Delaypool, Throttling, fillup}

quot-elapsed :
    (last now rate : ℕ) → last ≤ now → quot (pos now -ℤ pos last) rate ≡ pos ((now - last) / rate)
quot-elapsed last now rate h =
    ap (λ t. quot t rate) {x = pos now -ℤ pos last} {y = pos (now - last)} (ground arith)

-- A clock that has not gone back: the time that turned into tiles is a whole number of top-up
-- intervals, and what remains of the time since the last fillup is kept and is less than one interval.
pub fillup-keeps_time :
    (cfg : Throttling) (d : Delaypool) (last now : ℕ)
    → d.last_tile_fillup ≡ pos last
    → last ≤ now
    → 0 < cfg.delaypool_tile_rate
    → (n : ℕ) × ((fillup cfg (pos now) d).last_tile_fillup ≡ pos n)
      × (n ≤ now)
      × (now - n < cfg.delaypool_tile_rate)
      × (n ≡ last + cfg.delaypool_tile_rate * ((now - last) / cfg.delaypool_tile_rate))
unfolding fillup
fillup-keeps_time cfg d last now e h r =
    let rate = cfg.delaypool_tile_rate in
    let k = (now - last) / rate in
    (
      last + rate * k,
      ap (λ l. l +ℤ scale rate (quot (pos now -ℤ l) rate)) e
          ∙ ap (λ t. pos last +ℤ scale rate t) (quot-elapsed last now rate h)
          ∙ ground arith,
      omega (arith, div_any (now - last) rate),
      omega (arith, div_any (now - last) rate, mod-lt (now - last) r),
      refl,
    )
