-- ===== src/RenderExpired/Requested.antt =====
-- src/render_expired.c, `main`: the loop over the zooms ends at the first metatile that was requested
-- before. Since all that lies above it was then requested too, the end loses nothing.
use mod_tile.Base.{
  ℕ, zero, suc, ◌+◌, ◌-◌, ◌/◌, ◌^◌, ◌<◌, ◌≤◌, ◌≡◌, refl, ◌∙◌, ap, ℤ, pos, negsuc, true, List, [],
  ◌∷◌, ◌⊎◌, inl, inr, arith, ltb, ◌==◌, if◌then◌else◌, Bool-cases, subst, sym,
}
use mod_tile.RenderExpired.{
  ExpireConf, Expired, TileStat, Line, tile, invalid, shr, tile_key, metatile_key,
  tile_is_requested, visit, zoom_levels, at_max_zoom, read_lines, no_tiles,
}

-- The same with no end before `min_zoom`: each zoom is looked at.
unfoldable pub all_levels : ExpireConf → TileStat → ℕ → ℤ → ℤ → Expired → Expired
all_levels c tile_stat zero x y s = s
all_levels c tile_stat (suc z) x y s =
    let seen = all_levels c tile_stat z (shr x 1) (shr y 1) s in
    let unseen = all_levels c tile_stat z (shr x 1) (shr y 1) (visit c tile_stat (suc z) x y s) in
    if ltb (suc z) c.min_zoom
    then s
    else if tile_is_requested s.requested (metatile_key (suc z) x y)
    then seen
    else unseen

unfoldable pub all_line : ExpireConf → TileStat → Line → Expired → Expired
unfolding all_levels
all_line c tile_stat invalid s = s
all_line c tile_stat (tile z x y) s =
    all_levels c tile_stat c.max_zoom (at_max_zoom c z x) (at_max_zoom c z y)
      (record s { num_read = s.num_read + 1 })

unfoldable pub all_lines : ExpireConf → TileStat → List Line → Expired → Expired
unfolding all_line
all_lines c tile_stat [] s = s
all_lines c tile_stat (l ∷ ls) s = all_lines c tile_stat ls (all_line c tile_stat l s)

abbrev pub coordinate_limit : ℕ
coordinate_limit = 2 ^ 27

-- Tiles of such coordinates have keys of their own.
pub same_key :
    (z z' m n m' n' : ℕ)
    → m < coordinate_limit
    → n < coordinate_limit
    → m' < coordinate_limit
    → n' < coordinate_limit
    → metatile_key z (pos m) (pos n) ≡ metatile_key z' (pos m') (pos n')
    → (z - 3 ≡ z' - 3) × (m / 2 ^ 3 ≡ m' / 2 ^ 3) × (n / 2 ^ 3 ≡ n' / 2 ^ 3)
unfolding tile_key
same_key z z' m n m' n' h k h' k' e = (omega arith, omega arith, omega arith)

visit_requested :
    (c : ExpireConf) (tile_stat : TileStat) (z : ℕ) (x y : ℤ) (s : Expired)
    → (visit c tile_stat z x y s).requested ≡ metatile_key z x y ∷ s.requested
unfolding visit
visit_requested c tile_stat z x y s = ground arith

-- Where a metatile is requested, so is the one above it.
abbrev Has : List ℕ → ℕ → Type 0
Has ks k = tile_is_requested ks k ≡ true

Has-cons : (k j : ℕ) (ks : List ℕ) → Has ks j → Has (k ∷ ks) j
unfolding tile_is_requested
Has-cons k j ks h = ground arith

Has-head : (k j : ℕ) (ks : List ℕ) → j ≡ k → Has (k ∷ ks) j
unfolding tile_is_requested
Has-head k j ks e = ground arith

Has-cases : (k j : ℕ) (ks : List ℕ) → Has (k ∷ ks) j → (k ≡ j) ⊎ Has ks j
unfolding tile_is_requested
Has-cases k j ks h = elim (Bool-cases (k == j)) [
  | inl e ↦ inl (ground arith)
  | inr e ↦ inr (rw e at h)
]

abbrev key : ℕ → ℕ → ℕ → ℕ
key z m n = metatile_key z (pos m) (pos n)

parent_key :
    (z m n m' n' : ℕ)
    → m / 2 ^ 3 ≡ m' / 2 ^ 3
    → n / 2 ^ 3 ≡ n' / 2 ^ 3
    → key z (m' / 2) (n' / 2) ≡ key z (m / 2) (n / 2)
unfolding tile_key
parent_key z m n m' n' h k = omega arith

-- The tiles of the greatest zoom have coordinates that are not negative and below the limit.
abbrev pub Small : ℤ → Type 0
Small (pos n) = n < coordinate_limit
Small (negsuc n) = ⊥

abbrev pub AllSmall : ExpireConf → List Line → Type 0
AllSmall c [] = Unit
AllSmall c (invalid ∷ ls) = AllSmall c ls
AllSmall c (tile z x y ∷ ls) = Small (at_max_zoom c z x) × Small (at_max_zoom c z y) × AllSmall c ls

nothing_requested : (k : ℕ) → Has [] k → ⊥
unfolding tile_is_requested
nothing_requested k h = cc

module _ (c : ExpireConf) where
  abbrev Closed : List ℕ → Type 0
  Closed ks =
      (z m n : ℕ)
      → m < coordinate_limit
      → n < coordinate_limit
      → c.min_zoom ≤ z
      → Has ks (key (suc z) m n)
      → Has ks (key z (m / 2) (n / 2))

  -- The same but for one metatile.
  abbrev ClosedBut : List ℕ → ℕ → ℕ → ℕ → Type 0
  ClosedBut ks z m n =
      (z' m' n' : ℕ)
      → m' < coordinate_limit
      → n' < coordinate_limit
      → c.min_zoom ≤ z'
      → Has ks (key (suc z') m' n')
      → Has ks (key z' (m' / 2) (n' / 2)) ⊎ ((z' ≡ z) × (key z' (m' / 2) (n' / 2) ≡ key z m n))

  Closed-but : (ks : List ℕ) (z m n : ℕ) → Closed ks → ClosedBut ks z m n
  Closed-but ks z m n h z' m' n' a b l r = inl (h z' m' n' a b l r)

  Closed-below : (ks : List ℕ) (z m n : ℕ) → z < c.min_zoom → ClosedBut ks z m n → Closed ks
  Closed-below ks z m n low h z' m' n' a b l r = elim (h z' m' n' a b l r) [
    | inl k ↦ k
    | inr k ↦ absurd (omega (arith, k.0))
  ]

  Closed-again : (ks : List ℕ) (z m n : ℕ) → Has ks (key z m n) → ClosedBut ks z m n → Closed ks
  Closed-again ks z m n has h z' m' n' a b l r = elim (h z' m' n' a b l r) [
    | inl k ↦ k
    | inr k ↦ subst (λ j. Has ks j) (sym (k.1)) has
  ]

  Closed-cons :
      (ks : List ℕ) (z m n : ℕ)
      → 3 ≤ c.min_zoom
      → c.min_zoom ≤ suc z
      → m < coordinate_limit
      → n < coordinate_limit
      → ClosedBut ks (suc z) m n
      → ClosedBut (key (suc z) m n ∷ ks) z (m / 2) (n / 2)
  Closed-cons ks z m n three low hm hn h z' m' n' a b l r =
      elim (Has-cases (key (suc z) m n) (key (suc z') m' n') ks r) [
        | inl e ↦
            let (p, q, t) = same_key (suc z) (suc z') m n m' n' hm hn a b e in
            let zz : z' ≡ z = omega arith in
            inr (zz, ap (λ i. key i (m' / 2) (n' / 2)) zz ∙ parent_key z m n m' n' q t)
        | inr old ↦ elim (h z' m' n' a b l old) [
          | inl k ↦ inl (Has-cons (key (suc z) m n) _ ks k)
          | inr k ↦ inl (Has-head (key (suc z) m n) (key z' (m' / 2) (n' / 2)) ks (k.1))
        ]
      ]

  module _ (tile_stat : TileStat) where
    all_levels-below :
        (z : ℕ) (x y : ℤ) (s : Expired) → z < c.min_zoom → all_levels c tile_stat z x y s ≡ s
    unfolding all_levels
    all_levels-below zero x y s h = refl
    all_levels-below (suc z) x y s h = ground arith

    all_levels-requested :
        (z m n : ℕ) (s : Expired)
        → m < coordinate_limit
        → n < coordinate_limit
        → Closed s.requested
        → Has s.requested (key z m n)
        → all_levels c tile_stat z (pos m) (pos n) s ≡ s
    unfolding all_levels
    all_levels-requested zero m n s hm hn closed has = refl
    all_levels-requested (suc z) m n s hm hn closed has =
        elim (Bool-cases (ltb (suc z) c.min_zoom)) [
          | inl low ↦ rw low refl
          | inr high ↦
              rw (high, has)
                (elim (Bool-cases (ltb z c.min_zoom)) [
                  | inl low ↦ all_levels-below z (pos (m / 2)) (pos (n / 2)) s (ground arith)
                  | inr still ↦
                      all_levels-requested z (m / 2) (n / 2) s (omega arith) (omega arith) closed
                        (closed z m n hm hn (ground arith) has)
                ])
        ]

    zoom_levels-all :
        (z m n : ℕ) (s : Expired)
        → 3 ≤ c.min_zoom
        → m < coordinate_limit
        → n < coordinate_limit
        → ClosedBut s.requested z m n
        → (zoom_levels c tile_stat z (pos m) (pos n) s ≡ all_levels c tile_stat z (pos m) (pos n) s)
          × Closed (zoom_levels c tile_stat z (pos m) (pos n) s).requested
    unfolding zoom_levels all_levels
    zoom_levels-all zero m n s three hm hn h =
        (refl, Closed-below s.requested zero m n (omega arith) h)
    zoom_levels-all (suc z) m n s three hm hn h = elim (Bool-cases (ltb (suc z) c.min_zoom)) [
      | inl low ↦ rw low (refl, Closed-below s.requested (suc z) m n (ground arith) h)
      | inr high ↦ elim (Bool-cases (tile_is_requested s.requested (key (suc z) m n))) [
        | inl has ↦
            let closed = Closed-again s.requested (suc z) m n has h in
            let same = all_levels-requested (suc z) m n s hm hn closed has in
            let level = rw (high, has) at same in rw (high, has) (sym level, closed)
        | inr new ↦
            rw (high, new)
              (zoom_levels-all z (m / 2) (n / 2) (visit c tile_stat (suc z) (pos m) (pos n) s) three
                (omega arith) (omega arith)
                (subst (λ ks. ClosedBut ks z (m / 2) (n / 2))
                  (sym (visit_requested c tile_stat (suc z) (pos m) (pos n) s))
                  (Closed-cons s.requested z m n three (ground arith) hm hn h)))
      ]
    ]

    levels_from :
        (x y : ℤ) (s : Expired)
        → 3 ≤ c.min_zoom
        → Small x
        → Small y
        → Closed s.requested
        → (zoom_levels c tile_stat c.max_zoom x y s ≡ all_levels c tile_stat c.max_zoom x y s)
          × Closed (zoom_levels c tile_stat c.max_zoom x y s).requested
    levels_from (pos m) (pos n) s three hm hn h =
        zoom_levels-all c.max_zoom m n s three hm hn (Closed-but s.requested c.max_zoom m n h)
    levels_from (pos m) (negsuc n) s three hm hn h = absurd hn
    levels_from (negsuc m) y s three hm hn h = absurd hm

    lines_from :
        (ls : List Line) (s : Expired)
        → 3 ≤ c.min_zoom
        → AllSmall c ls
        → Closed s.requested
        → read_lines c tile_stat ls s ≡ all_lines c tile_stat ls s
    unfolding read_lines all_lines
    lines_from [] s three h closed = refl
    lines_from (invalid ∷ ls) s three h closed = lines_from ls s three h closed
    lines_from (tile z x y ∷ ls) s three h closed =
        let here =
          levels_from (at_max_zoom c z x) (at_max_zoom c z y)
            (record s { num_read = s.num_read + 1 }) three h.0 h.1 closed in
        lines_from ls _ three h.2 here.1 ∙ ap (all_lines c tile_stat ls) here.0

    -- With coordinates below 2^27 at the greatest zoom, and a least zoom of 3 at least: the metatiles
    -- that are looked at, what is done with them, in which order, and all counters are what they would
    -- be if the loop over the zooms did not end at the first metatile that was requested before.
    pub read_lines-all_lines :
        (ls : List Line)
        → 3 ≤ c.min_zoom
        → AllSmall c ls
        → read_lines c tile_stat ls no_tiles ≡ all_lines c tile_stat ls no_tiles
    read_lines-all_lines ls three h =
        lines_from ls no_tiles three h (λ z m n a b l r. absurd (nothing_requested _ r))
