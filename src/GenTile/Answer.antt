-- ===== src/GenTile/Answer.antt =====
-- src/gen_tile.cpp, `render_thread`: what its answer to a request means.
use mod_tile.Base.{
  ℕ, ◌*◌, ◌^◌, ◌≡◌, ◌≢◌, refl, ◌↔◌, ◌⊎◌, ap, sym, ◌∙◌, Option, ℤ, negsuc, pos_part, Bool, true,
  false, List, [], ◌∷◌, Option-cases, none, some, arith, inl, inr, eq_list, Bool-cases,
}
use mod_tile.Base.Bounds.{Within, NotAbove, axis_lem}
use mod_tile.Protocol.{Protocol, ProtoCmd, cmd_done, cmd_ignore, cmd_not_done}
use mod_tile.GenTile.{
  World, XmlMapConfig, Answer, Rendering, rendered, failed, raised, after_render, check_xyz,
  render_metatile, answer,
}
use mod_tile.GenTile.Projection.{ProjectionConfig}

-- The first style of a name
pub data FirstStyle (name : List ℕ) (m : XmlMapConfig) : List XmlMapConfig → Type 0 where
  head_style :
      {n : XmlMapConfig} {ms : List XmlMapConfig}
      → n ≡ m
      → eq_list n.xmlname name ≡ true
      → FirstStyle name m (n ∷ ms)
  later_style :
      {n : XmlMapConfig} {ms : List XmlMapConfig}
      → eq_list n.xmlname name ≡ false
      → FirstStyle name m ms
      → FirstStyle name m (n ∷ ms)

-- The zoom is one of the style, and the coordinates name a tile of that zoom.
abbrev pub InBounds : XmlMapConfig → ProjectionConfig → ℤ → ℤ → ℤ → Type 0
InBounds m prj x y z =
    NotAbove m.minzoom z
    × NotAbove z m.maxzoom
    × Within x (2 ^ pos_part z * prj.aspect_x)
    × Within y (2 ^ pos_part z * prj.aspect_y)

check_xyz_lem :
    (m : XmlMapConfig) (prj : ProjectionConfig) (x y z : ℤ)
    → (check_xyz x y z m.minzoom m.maxzoom prj ≡ true) ↔ InBounds m prj x y z
unfolding check_xyz
check_xyz_lem m prj x y z =
    ground (
      arith,
      axis_lem x (2 ^ pos_part z * prj.aspect_x),
      axis_lem y (2 ^ pos_part z * prj.aspect_y),
    )

-- The command of an answer
abbrev pub cmd_of : Answer → Option ProtoCmd
cmd_of none = none
cmd_of (some (cmd, time)) = some cmd

saved_lem :
    (r : Rendering) (s : Bool) (t : ℤ)
    → (cmd_of (after_render r s t) ≡ some cmd_done) ↔ ((r ≡ rendered) × (s ≡ true))
unfolding after_render
saved_lem rendered true t = ((λ h. (refl, refl)), λ h. refl)
saved_lem rendered false t = ((λ h. absurd (cc)), λ h. absurd (cc))
saved_lem failed s t = ((λ h. absurd (cc)), λ h. absurd (cc))
saved_lem raised s t = ((λ h. absurd (cc)), λ h. absurd (cc))

saved-not-ignored :
    (r : Rendering) (s : Bool) (t : ℤ) → cmd_of (after_render r s t) ≢ some cmd_ignore
unfolding after_render
saved-not-ignored rendered true t h = cc
saved-not-ignored rendered false t h = cc
saved-not-ignored failed s t h = cc
saved-not-ignored raised s t h = cc

some-none : {a : ProtoCmd × ℤ} → some a ≡ none → ⊥
some-none e = cc

outside : {b : Bool} → b ≡ false → b ≢ true
outside e h = cc

module _ (world : World) (req : Protocol) (mx my : ℤ) where
  -- What a style has to be for an answer of one of two kinds.
  pub record IsRendered (ms : List XmlMapConfig) (m : XmlMapConfig) (prj : ProjectionConfig)
      : Type 0 where
    pub first : FirstStyle req.xmlname m ms
    pub loaded : m.prj ≡ some prj
    pub bounds : InBounds m prj mx my req.z
    pub by_mapnik : world.render req mx my ≡ rendered
    pub saved : world.save req mx my ≡ true

  pub record IsOutside (ms : List XmlMapConfig) (m : XmlMapConfig) (prj : ProjectionConfig)
      : Type 0 where
    pub first : FirstStyle req.xmlname m ms
    pub loaded : m.prj ≡ some prj
    pub outside : ¬ InBounds m prj mx my req.z

  by_style : XmlMapConfig → Answer
  by_style m = elim m.prj [
    | none ↦ some (cmd_not_done, negsuc 0)
    | some prj ↦ render_metatile world m prj req mx my
  ]

  first_answer :
      (ms : List XmlMapConfig) (m : XmlMapConfig)
      → FirstStyle req.xmlname m ms
      → answer world ms req mx my ≡ by_style m
  unfolding answer by_style
  first_answer [] m f = elim f [ ]
  first_answer (n ∷ ms) m (head_style e h) = rw h (λ i. by_style (e i))
  first_answer (n ∷ ms) m (later_style h f) = rw h (first_answer ms m f)

  find_style :
      (ms : List XmlMapConfig)
      → ((m : XmlMapConfig) × FirstStyle req.xmlname m ms)
        ⊎ (answer world ms req mx my ≡ some (cmd_not_done, negsuc 0))
  unfolding answer
  find_style [] = inr refl
  find_style (n ∷ ms) = elim (Bool-cases (eq_list n.xmlname req.xmlname)) [
    | inl e ↦ inl (n, head_style refl e)
    | inr e ↦ elim (find_style ms) [ inl (m, f) ↦ inl (m, later_style e f) | inr f ↦ inr (rw e f) ]
  ]

  metatile_lem :
      (m : XmlMapConfig) (prj : ProjectionConfig)
      → ((cmd_of (render_metatile world m prj req mx my) ≡ some cmd_done) ↔ (
          InBounds m prj mx my req.z
          × (world.render req mx my ≡ rendered)
          × (world.save req mx my ≡ true)))
        × ((cmd_of (render_metatile world m prj req mx my) ≡ some cmd_ignore)
            ↔ (¬ InBounds m prj mx my req.z))
  unfolding render_metatile
  metatile_lem m prj =
      let (to, from) = check_xyz_lem m prj mx my req.z in
      elim (Bool-cases (check_xyz mx my req.z m.minzoom m.maxzoom prj)) [
        | inl e ↦
            let b = to e in
            rw e (
              (
                λ h.
                    let (r, s) =
                      (saved_lem (world.render req mx my) (world.save req mx my) _).0 h in
                    (b, r, s),
                λ (_, r, s). (saved_lem (world.render req mx my) (world.save req mx my) _).1 (r, s),
              ),
              (
                λ h. absurd (saved-not-ignored (world.render req mx my) (world.save req mx my) _ h),
                λ n. absurd (n b),
              ),
            )
        | inr e ↦ rw e (
          (λ h. absurd (cc), λ (b, _, _). absurd (outside e (from b))),
          (λ h b. outside e (from b), λ n. refl),
        )
      ]

  style_cases :
      (m : XmlMapConfig)
      → ((prj : ProjectionConfig) × (m.prj ≡ some prj)
          × (by_style m ≡ render_metatile world m prj req mx my))
        ⊎ (by_style m ≡ some (cmd_not_done, negsuc 0))
  unfolding by_style
  style_cases m = elim (Option-cases m.prj) [
    | inl e ↦ inr (rw e refl)
    | inr (prj, e) ↦ inl (prj, e, rw e refl)
  ]

  -- Either the first style of the request's name is loaded and decides, or the answer is a refusal.
  answer_cases :
      (ms : List XmlMapConfig)
      → ((m : XmlMapConfig) × (prj : ProjectionConfig) × FirstStyle req.xmlname m ms
          × (m.prj ≡ some prj)
          × (answer world ms req mx my ≡ render_metatile world m prj req mx my))
        ⊎ (answer world ms req mx my ≡ some (cmd_not_done, negsuc 0))
  answer_cases ms = elim (find_style ms) [
    | inr e ↦ inr e
    | inl (m, f) ↦ elim (style_cases m) [
      | inr e ↦ inr (first_answer ms m f ∙ e)
      | inl (prj, e, k) ↦ inl (m, prj, f, e, first_answer ms m f ∙ k)
    ]
  ]

  loaded_answer :
      (ms : List XmlMapConfig) (m : XmlMapConfig) (prj : ProjectionConfig)
      → FirstStyle req.xmlname m ms
      → m.prj ≡ some prj
      → answer world ms req mx my ≡ render_metatile world m prj req mx my
  unfolding by_style
  loaded_answer ms m prj f e = first_answer ms m f ∙ rw e refl

  -- No answer is left out but by an exception that `render` raises.
  raised_lem : (r : Rendering) (s : Bool) (t : ℤ) → after_render r s t ≡ none → r ≡ raised
  unfolding after_render
  raised_lem rendered s t h = absurd (cc)
  raised_lem failed s t h = absurd (cc)
  raised_lem raised s t h = refl

  metatile-raises :
      (m : XmlMapConfig) (prj : ProjectionConfig)
      → render_metatile world m prj req mx my ≡ none
      → world.render req mx my ≡ raised
  unfolding render_metatile
  metatile-raises m prj h = elim (Bool-cases (check_xyz mx my req.z m.minzoom m.maxzoom prj)) [
    | inl e ↦ raised_lem (world.render req mx my) (world.save req mx my) _ (rw e at h)
    | inr e ↦ absurd (some-none (rw e at h))
  ]

  pub answer-raises :
      (ms : List XmlMapConfig) → answer world ms req mx my ≡ none → world.render req mx my ≡ raised
  answer-raises ms h = elim (answer_cases ms) [
    | inr e ↦ absurd (some-none (sym e ∙ h))
    | inl (m, prj, f, e, k) ↦ metatile-raises m prj (sym k ∙ h)
  ]

  -- A rendering thread answers `cmdDone` exactly when the first style of the request's name is loaded,
  -- the metatile is in the bounds of its zooms and projection, and it is rendered and saved. It answers
  -- `cmdIgnore` exactly when that style is loaded and the metatile is outside of its bounds.
  pub answer_lem :
      (ms : List XmlMapConfig)
      → ((cmd_of (answer world ms req mx my) ≡ some cmd_done)
          ↔ ((m : XmlMapConfig) × (prj : ProjectionConfig) × IsRendered ms m prj))
        × ((cmd_of (answer world ms req mx my) ≡ some cmd_ignore)
            ↔ ((m : XmlMapConfig) × (prj : ProjectionConfig) × IsOutside ms m prj))
  answer_lem ms = (
    (
      done,
      λ (m, prj, r).
          (ap cmd_of (loaded_answer ms m prj r.first r.loaded)
            ∙ (metatile_lem m prj).0.1 (r.bounds, r.by_mapnik, r.saved)),
    ),
    (
      ignored,
      λ (m, prj, r).
          (ap cmd_of (loaded_answer ms m prj r.first r.loaded)
            ∙ (metatile_lem m prj).1.1 r.outside),
    ),
  )
    where
      done :
          cmd_of (answer world ms req mx my) ≡ some cmd_done
          → (m : XmlMapConfig) × (prj : ProjectionConfig) × IsRendered ms m prj
      done h = elim (answer_cases ms) [
        | inr e ↦ absurd (cc)
        | inl (m, prj, f, e, k) ↦
            let (b, r, s) = (metatile_lem m prj).0.0 (ap cmd_of (sym k) ∙ h) in
            (m, prj, record { first = f; loaded = e; bounds = b; by_mapnik = r; saved = s })
      ]

      ignored :
          cmd_of (answer world ms req mx my) ≡ some cmd_ignore
          → (m : XmlMapConfig) × (prj : ProjectionConfig) × IsOutside ms m prj
      ignored h = elim (answer_cases ms) [
        | inr e ↦ absurd (cc)
        | inl (m, prj, f, e, k) ↦ (
          m,
          prj,
          record {
            first = f;
            loaded = e;
            outside = (metatile_lem m prj).1.0 (ap cmd_of (sym k) ∙ h);
          },
        )
      ]
