-- ===== src/RenderExpired/Levels.antt =====
-- src/render_expired.c, `main`: the coordinates of a tile at other zooms, said without the program's loops.
use native.Mathlib.Nat.{div-div-eq-div-mul, pow-succ', mul_assoc, mul_left_comm, pow-le-pow_right}
use mod_tile.Base.{
  true, false, subst, ℕ, zero, suc, ◌-◌, ◌*◌, ◌/◌, ◌^◌, ◌≤◌, ◌<◌, ◌≡◌, refl, ◌∙◌, ap, sym, ℤ, pos,
  negsuc, List, [], ◌∷◌, arith, ltb, leb, if◌then◌else◌, dec_le, ltb_ℤ, pos_part, ◌-ℤ◌,
}
use mod_tile.TileTranslate.Accepts.{to_int-small}
use mod_tile.RenderExpired.{
  ExpireConf, Line, tile, invalid, shr, shrink, expand, at_max_zoom, tile_key, metatile_key,
}
use mod_tile.RenderExpired.Requested.{AllSmall, Small}

-- The metatiles of a tile at all zooms from this one down to the least, before others.
abbrev pub level_keys : ExpireConf → ℕ → ℤ → ℤ → List ℕ → List ℕ
level_keys c zero x y ks = ks
level_keys c (suc z) x y ks =
    if ltb (suc z) c.min_zoom
    then ks
    else level_keys c z (shr x 1) (shr y 1) (metatile_key (suc z) x y ∷ ks)

-- The metatiles, at all zooms, of the tiles of the greatest zoom that stand for the lines of the input
abbrev pub wanted : ExpireConf → List Line → List ℕ → List ℕ
wanted c [] ks = ks
wanted c (invalid ∷ ls) ks = wanted c ls ks
wanted c (tile z x y ∷ ls) ks =
    wanted c ls (level_keys c c.max_zoom (at_max_zoom c z x) (at_max_zoom c z y) ks)

-- The coordinate at zoom `k` of the tile, or of the first of the tiles, where zoom `z` has `x`
abbrev pub tile_at : ℕ → ℕ → ℕ → ℕ
tile_at z k x = if leb k z then x / 2 ^ (z - k) else x * 2 ^ (k - z)

down : (n x : ℕ) → x / 2 ^ n / 2 ≡ x / 2 ^ suc n
down n x = div-div-eq-div-mul x (2 ^ n) 2 ∙ ap (λ p. x / p) (omega (arith, pow-succ' 2 n))

up : (n x : ℕ) → x * 2 ^ suc n / 2 ≡ x * 2 ^ n
up n x =
    let twice : x * 2 ^ suc n ≡ 2 * (x * 2 ^ n) =
      ap (λ p. x * p) (pow-succ' 2 n) ∙ mul_left_comm x 2 (2 ^ n) in
    omega (arith, twice)

pub halved : (z k x : ℕ) → tile_at z (suc k) x / 2 ≡ tile_at z k x
halved z k x = elim (dec_le (suc k) z) [
  | yes below ↦
      let high : leb (suc k) z ≡ true = ground arith in
      let low : leb k z ≡ true = ground arith in
      rw (high, low)
        (down (z - suc k) x ∙ ap (λ n. x / 2 ^ n) {x = suc (z - suc k)} {y = z - k} (omega arith))
  | no above ↦ elim (dec_le k z) [
    | yes here ↦
        let high : leb (suc k) z ≡ false = ground arith in
        let low : leb k z ≡ true = ground arith in
        rw (high, low)
          (ap (λ n. x * 2 ^ n / 2) {x = suc k - z} {y = 1} (omega arith)
            ∙ up 0 x
            ∙ same
            ∙ ap (λ n. x / 2 ^ n) {x = 0} {y = z - k} (omega arith))
    | no over ↦
        let high : leb (suc k) z ≡ false = ground arith in
        let low : leb k z ≡ false = ground arith in
        rw (high, low)
          (ap (λ n. x * 2 ^ n / 2) {x = suc k - z} {y = suc (k - z)} (omega arith) ∙ up (k - z) x)
  ]
]
  where
    same : x * 2 ^ 0 ≡ x / 2 ^ 0
    same = omega arith

shrink_lem : (n x : ℕ) → shrink n (pos x) ≡ pos (x / 2 ^ n)
unfolding shrink
shrink_lem zero x = ap pos (omega arith)
shrink_lem (suc n) x =
    shrink_lem n (x / 2)
    ∙ ap pos (div-div-eq-div-mul x 2 (2 ^ n) ∙ ap (λ p. x / p) (sym (pow-succ' 2 n)))

power_pos : (n : ℕ) → 0 < 2 ^ n
power_pos n =
    let two : 0 < 2 = omega arith in
    let least : 0 ≤ n = omega arith in
    let one : 2 ^ 0 ≤ 2 ^ n = pow-le-pow_right two least in omega (arith, one)

times_more : (x p : ℕ) → 0 < p → x ≤ x * p
times_more x zero h = absurd (omega (arith, h))
times_more x (suc p) h = omega arith

expand_lem : (n x : ℕ) → x * 2 ^ n < 2 ^ 27 → expand n (pos x) ≡ pos (x * 2 ^ n)
unfolding expand
expand_lem zero x h = ap pos (omega arith)
expand_lem (suc n) x h =
    ap (expand n) (to_int-small (2 * x) small)
    ∙ expand_lem n (2 * x) (omega (arith, h, twice))
    ∙ ap pos twice
  where
    twice : 2 * x * 2 ^ n ≡ x * 2 ^ suc n
    twice =
        mul_assoc 2 x (2 ^ n) ∙ mul_left_comm 2 x (2 ^ n) ∙ ap (λ p. x * p) (sym (pow-succ' 2 n))

    small : 2 * x < 2 ^ 31
    small = omega (arith, h, twice, times_more (2 * x) (2 ^ n) (power_pos n))

-- The coordinates at the greatest zoom that the program computes
pub at_max_zoom_lem :
    (c : ExpireConf) (z x : ℕ)
    → tile_at z c.max_zoom x < 2 ^ 27
    → at_max_zoom c (pos z) (pos x) ≡ pos (tile_at z c.max_zoom x)
unfolding at_max_zoom
at_max_zoom_lem c z x h = elim (dec_le z c.max_zoom) [
  | no beyond ↦
      let a : ltb_ℤ (pos c.max_zoom) (pos z) ≡ true = ground arith in
      let b : leb c.max_zoom z ≡ true = ground arith in
      let d : pos_part (pos z -ℤ pos c.max_zoom) ≡ z - c.max_zoom = ground arith in
      rw (a, b, d) (shrink_lem (z - c.max_zoom) x)
  | yes in_reach ↦
      let a : ltb_ℤ (pos c.max_zoom) (pos z) ≡ false = ground arith in
      let d : pos_part (pos c.max_zoom -ℤ pos z) ≡ c.max_zoom - z = ground arith in
      elim (dec_le c.max_zoom z) [
        | yes here ↦
            let b : leb c.max_zoom z ≡ true = ground arith in
            rw (a, b, d)
              (ap (λ n. expand n (pos x)) {x = c.max_zoom - z} {y = 0} (omega arith)
                ∙ ap pos same
                ∙ ap (λ n. pos (x / 2 ^ n)) {x = 0} {y = z - c.max_zoom} (omega arith))
        | no over ↦
            let b : leb c.max_zoom z ≡ false = ground arith in
            rw (a, b, d) (expand_lem (c.max_zoom - z) x (rw b at h))
      ]
]
  where
    same : x ≡ x / 2 ^ 0
    same = omega arith

-- The coordinates of the input are not negative, and small at the greatest zoom.
abbrev pub AllTiles : ExpireConf → List Line → Type 0
AllTiles c [] = Unit
AllTiles c (invalid ∷ ls) = AllTiles c ls
AllTiles c (tile (pos z) (pos x) (pos y) ∷ ls) =
    (tile_at z c.max_zoom x < 2 ^ 27) × (tile_at z c.max_zoom y < 2 ^ 27) × AllTiles c ls
AllTiles c (tile z x y ∷ ls) = ⊥

-- The metatile, of 8 by 8 tiles, in which a line's tile lies at zoom `k`
abbrev pub metatile_at : ℕ → ℕ → ℕ → ℕ → ℕ
metatile_at z x y k = tile_key (k - 3) (pos (tile_at z k x / 8)) (pos (tile_at z k y / 8))

-- Those of a line at the zooms from `k` down to the least
abbrev pub levels_at : ExpireConf → ℕ → ℕ → ℕ → ℕ → List ℕ → List ℕ
levels_at c z x y zero ks = ks
levels_at c z x y (suc k) ks =
    if ltb (suc k) c.min_zoom then ks else levels_at c z x y k (metatile_at z x y (suc k) ∷ ks)

-- Those of all lines
abbrev pub asked : ExpireConf → List Line → List ℕ → List ℕ
asked c [] ks = ks
asked c (tile (pos z) (pos x) (pos y) ∷ ls) ks = asked c ls (levels_at c z x y c.max_zoom ks)
asked c (_ ∷ ls) ks = asked c ls ks

level_keys_lem :
    (c : ExpireConf) (z x y k : ℕ) (ks : List ℕ)
    → level_keys c k (pos (tile_at z k x)) (pos (tile_at z k y)) ks ≡ levels_at c z x y k ks
level_keys_lem c z x y zero ks = refl
level_keys_lem c z x y (suc k) ks =
    let more = metatile_at z x y (suc k) ∷ ks in
    ap (λ t. if ltb (suc k) c.min_zoom then ks else t)
      (ap (λ n. level_keys c k (pos n) (pos (tile_at z (suc k) y / 2)) more) (halved z k x)
        ∙ ap (λ n. level_keys c k (pos (tile_at z k x)) (pos n) more) (halved z k y)
        ∙ level_keys_lem c z x y k more)

pub wanted-asked :
    (c : ExpireConf) (ls : List Line) (ks : List ℕ) → AllTiles c ls → wanted c ls ks ≡ asked c ls ks
wanted-asked c [] ks h = refl
wanted-asked c (invalid ∷ ls) ks h = wanted-asked c ls ks h
wanted-asked c (tile (pos z) (pos x) (pos y) ∷ ls) ks (a, b, h) =
    ap (λ n. wanted c ls (level_keys c c.max_zoom n (at_max_zoom c (pos z) (pos y)) ks))
      (at_max_zoom_lem c z x a)
    ∙ ap (λ n. wanted c ls (level_keys c c.max_zoom (pos (tile_at z c.max_zoom x)) n ks))
        (at_max_zoom_lem c z y b)
    ∙ ap (wanted c ls) (level_keys_lem c z x y c.max_zoom ks)
    ∙ wanted-asked c ls _ h
wanted-asked c (tile (negsuc z) x y ∷ ls) ks h = absurd h
wanted-asked c (tile (pos z) (negsuc x) y ∷ ls) ks h = absurd h
wanted-asked c (tile (pos z) (pos x) (negsuc y) ∷ ls) ks h = absurd h

pub AllTiles-AllSmall : (c : ExpireConf) (ls : List Line) → AllTiles c ls → AllSmall c ls
AllTiles-AllSmall c [] h = tt
AllTiles-AllSmall c (invalid ∷ ls) h = AllTiles-AllSmall c ls h
AllTiles-AllSmall c (tile (pos z) (pos x) (pos y) ∷ ls) (a, b, h) = (
  subst Small (sym (at_max_zoom_lem c z x a)) a,
  subst Small (sym (at_max_zoom_lem c z y b)) b,
  AllTiles-AllSmall c ls h,
)
AllTiles-AllSmall c (tile (negsuc z) x y ∷ ls) h = absurd h
AllTiles-AllSmall c (tile (pos z) (negsuc x) y ∷ ls) h = absurd h
AllTiles-AllSmall c (tile (pos z) (pos x) (negsuc y) ∷ ls) h = absurd h
