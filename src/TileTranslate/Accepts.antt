-- ===== src/TileTranslate/Accepts.antt =====
-- src/mod_tile.c, `tile_translate`: what is known of a request that it accepts.
use mod_tile.Base.{
  pos, ◌<◌, subst, ℕ, suc, ◌+◌, ◌*◌, ◌^◌, ◌≡◌, refl, ℤ, pos_part, Bool, true, false, List, [], ◌∷◌,
  Option, Option-cases, none, some, arith, inl, inr, Bool-cases, if_both, eq_list, eq_list→eq,
  length, drop,
}
use mod_tile.Base.Bounds.{Within, NotAbove, axis_lem}
use mod_tile.Protocol.{Protocol}
use mod_tile.GenTile.Projection.{is_prefix}
use mod_tile.TileTranslate.{
  TileConfig, Apr, TileHandler, Translation, declined, not_found, internal_server_error,
  tile_mod_stats, tile_metrics, tile_json, accepted, Parts, in_bounds, handler_of, tile_request,
  to_int, tile_serve, tile_status, tile_dirty, status_option, dirty_option, parse_path,
  translate_parts, translate_layer, translate_layers, tile_translate, tile_layer_json, mod_tile_uri,
  metrics_uri,
}

-- The zoom is one of the layer, and the coordinates name a tile of that zoom.
abbrev pub InLayer : TileConfig → ℤ → ℤ → ℤ → Type 0
InLayer c x y z =
    NotAbove c.minzoom z
    × NotAbove z c.maxzoom
    × Within x (2 ^ pos_part z * c.aspect_x)
    × Within y (2 ^ pos_part z * c.aspect_y)

-- The numbers of tiles at the zooms of a layer fit into an `int`.
abbrev pub FitsInt : TileConfig → Type 0
FitsInt c =
    (z : ℤ)
    → NotAbove c.minzoom z
    → NotAbove z c.maxzoom
    → (2 ^ pos_part z * c.aspect_x < 2 ^ 31) × (2 ^ pos_part z * c.aspect_y < 2 ^ 31)

abbrev pub AllFitInt : List TileConfig → Type 0
AllFitInt [] = Unit
AllFitInt (c ∷ cs) = FitsInt c × AllFitInt cs

pub to_int-small : (n : ℕ) → n < 2 ^ 31 → to_int (pos n) ≡ pos n
unfolding to_int
to_int-small n h = ground arith

pub in_bounds_lem :
    (c : TileConfig) (x y z : ℤ) → FitsInt c → in_bounds c x y z ≡ true → InLayer c x y z
unfolding in_bounds
in_bounds_lem c x y z fit e =
    let low : NotAbove c.minzoom z = ground arith in
    let high : NotAbove z c.maxzoom = ground arith in
    let (fx, fy) = fit z low high in
    let e' =
      rw
        (
          to_int-small (2 ^ pos_part z * c.aspect_x) fx,
          to_int-small (2 ^ pos_part z * c.aspect_y) fy,
        )
        at e in
    ground (
      arith,
      e',
      low,
      high,
      axis_lem x (2 ^ pos_part z * c.aspect_x),
      axis_lem y (2 ^ pos_part z * c.aspect_y),
    )

-- What the parts behind the tile ask for
pub data IsHandler (apr : Apr) : List (List ℕ) → TileHandler → Type 0 where
  no_part : IsHandler apr [] tile_serve
  status_part : {o : List ℕ} → apr.cpystrn o 11 ≡ status_option → IsHandler apr (o ∷ []) tile_status
  dirty_part : {o : List ℕ} → apr.cpystrn o 11 ≡ dirty_option → IsHandler apr (o ∷ []) tile_dirty
  more_parts : {o p : List ℕ} {ps : List (List ℕ)} → IsHandler apr (o ∷ p ∷ ps) tile_serve

same_handler : (g h : TileHandler) → some g ≡ some h → g ≡ h
same_handler g h e = cc

no_handler : {h : TileHandler} → none ≡ some h → ⊥
no_handler e = cc

handler_of-IsHandler :
    (apr : Apr) (others : List (List ℕ)) (h : TileHandler)
    → handler_of apr others ≡ some h
    → IsHandler apr others h
unfolding handler_of
handler_of-IsHandler apr [] h e = subst (IsHandler apr []) (same_handler tile_serve h e) no_part
handler_of-IsHandler apr (o ∷ p ∷ ps) h e =
    subst (IsHandler apr (o ∷ p ∷ ps)) (same_handler tile_serve h e) more_parts
handler_of-IsHandler apr (o ∷ []) h e =
    elim (Bool-cases (eq_list (apr.cpystrn o 11) status_option)) [
      | inl s ↦
          subst (IsHandler apr (o ∷ [])) (same_handler tile_status h (rw s at e))
            (status_part (eq_list→eq _ _ s))
      | inr s ↦ elim (Bool-cases (eq_list (apr.cpystrn o 11) dirty_option)) [
        | inl d ↦
            subst (IsHandler apr (o ∷ [])) (same_handler tile_dirty h (rw (s, d) at e))
              (dirty_part (eq_list→eq _ _ d))
        | inr d ↦ absurd (no_handler (rw (s, d) at e))
      ]
    ]

-- The layer with a number is the first one whose base is the beginning of the URL.
pub data IsLayer (uri : List ℕ) (c : TileConfig) : ℕ → List TileConfig → Type 0 where
  first_layer :
      {d : TileConfig} {ds : List TileConfig}
      → d ≡ c
      → is_prefix d.baseuri uri ≡ true
      → IsLayer uri c 0 (d ∷ ds)
  next_layer :
      {d : TileConfig} {ds : List TileConfig} {i : ℕ}
      → is_prefix d.baseuri uri ≡ false
      → IsLayer uri c i ds
      → IsLayer uri c (suc i) (d ∷ ds)

-- What holds of a request at a layer
pub record IsRequest (apr : Apr) (held : List ℕ) (store : Bool) (c : TileConfig) (rest : List ℕ)
    (h : TileHandler) (req : Protocol) : Type 0 where
  pub parts : Parts
  pub parsed : parse_path apr held c.enable_options (apr.strtok rest) ≡ some parts
  pub extension : parts.extension ≡ c.file_extension
  pub bounds : InLayer c req.x req.y req.z
  pub opened : store ≡ true
  pub handler : IsHandler apr parts.others h
  pub content : req ≡ tile_request apr c parts

module _ (apr : Apr) (held uri : List ℕ) (stores : ℕ → Bool) where
  -- The rest of the URL behind the base of a layer
  abbrev pub rest_of : TileConfig → List ℕ
  rest_of c = drop (length c.baseuri) uri

  -- What holds of a translation by the layers from a number on
  abbrev pub AcceptsFrom : ℕ → List TileConfig → Translation → Type 0
  AcceptsFrom k layers (accepted h i req) =
      (c : TileConfig) × (j : ℕ) × (i ≡ k + j)
      × IsLayer uri c j layers
      × IsRequest apr held (stores i) c (rest_of c) h req
  AcceptsFrom k layers _ = Unit {0}

  module _ (c : TileConfig) (fit : FitsInt c) (i : ℕ) where
    abbrev OfLayer : Translation → Type 0
    OfLayer (accepted h k req) = (i ≡ k) × IsRequest apr held (stores i) c (rest_of c) h req
    OfLayer _ = Unit {0}

    translate_parts-OfLayer :
        (p : Parts)
        → parse_path apr held c.enable_options (apr.strtok (rest_of c)) ≡ some p
        → OfLayer (translate_parts apr (stores i) c i p)
    unfolding translate_parts tile_request
    translate_parts-OfLayer p parsed = elim (Bool-cases (eq_list p.extension c.file_extension)) [
      | inr e ↦ rw e tt
      | inl e ↦ rw e (elim (Bool-cases (in_bounds c p.x p.y p.z)) [
        | inr b ↦ rw b tt
        | inl b ↦ rw b (elim (Bool-cases (stores i)) [
          | inr o ↦ rw o tt
          | inl o ↦ rw o (elim (Option-cases (handler_of apr p.others)) [
            | inl n ↦ rw n tt
            | inr (h, k) ↦ rw k (
              refl,
              record {
                parts = p;
                parsed = parsed;
                extension = eq_list→eq p.extension c.file_extension e;
                bounds = in_bounds_lem c p.x p.y p.z fit b;
                opened = o;
                handler = handler_of-IsHandler apr p.others h k;
                content = refl;
              },
            )
          ])
        ])
      ])
    ]

    translate_layer-OfLayer : OfLayer (translate_layer apr held (stores i) c i (rest_of c))
    unfolding translate_layer
    translate_layer-OfLayer =
        if_both OfLayer (is_prefix tile_layer_json (rest_of c)) {x = tile_json i} tt
          (parsed_layer (parse_path apr held c.enable_options (apr.strtok (rest_of c))) refl)
      where
        parsed_layer :
            (o : Option Parts)
            → parse_path apr held c.enable_options (apr.strtok (rest_of c)) ≡ o
            → OfLayer (elim o [ none ↦ declined | some p ↦ translate_parts apr (stores i) c i p ])
        parsed_layer none e = tt
        parsed_layer (some p) e = translate_parts-OfLayer p e

  at_first :
      (c : TileConfig) (fit : FitsInt c) (cs : List TileConfig) (k : ℕ) (t : Translation)
      → is_prefix c.baseuri uri ≡ true
      → OfLayer c fit k t
      → AcceptsFrom k (c ∷ cs) t
  at_first c fit cs k (accepted h i req) e (same, r) = (
    c,
    0,
    omega (arith, same),
    first_layer refl e,
    subst (λ (n : ℕ). IsRequest apr held (stores n) c (rest_of c) h req) same r,
  )
  at_first c fit cs k declined e r = tt
  at_first c fit cs k not_found e r = tt
  at_first c fit cs k internal_server_error e r = tt
  at_first c fit cs k tile_mod_stats e r = tt
  at_first c fit cs k tile_metrics e r = tt
  at_first c fit cs k (tile_json i) e r = tt

  further :
      (c : TileConfig) (cs : List TileConfig) (k : ℕ) (t : Translation)
      → is_prefix c.baseuri uri ≡ false
      → AcceptsFrom (suc k) cs t
      → AcceptsFrom k (c ∷ cs) t
  further c cs k (accepted h i req) e (d, j, same, l, r) =
      (d, suc j, omega (arith, same), next_layer e l, r)
  further c cs k declined e r = tt
  further c cs k not_found e r = tt
  further c cs k internal_server_error e r = tt
  further c cs k tile_mod_stats e r = tt
  further c cs k tile_metrics e r = tt
  further c cs k (tile_json i) e r = tt

  translate_layers-AcceptsFrom :
      (k : ℕ) (cs : List TileConfig)
      → AllFitInt cs
      → AcceptsFrom k cs (translate_layers apr held stores uri k cs)
  unfolding translate_layers
  translate_layers-AcceptsFrom k [] f = tt
  translate_layers-AcceptsFrom k (c ∷ cs) f = elim (Bool-cases (is_prefix c.baseuri uri)) [
    | inl e ↦ rw e (
        at_first c f.0 cs k (translate_layer apr held (stores k) c k (rest_of c)) e
          (translate_layer-OfLayer c f.0 k))
    | inr e ↦ rw e (
        further c cs k (translate_layers apr held stores uri (suc k) cs) e
          (translate_layers-AcceptsFrom (suc k) cs f.1))
  ]

  -- Whatever the functions of APR do, and where the numbers of tiles on the axes of all layers fit into an
  -- `int`: a URL is accepted as one for a tile only by the first layer whose base it begins with, whose
  -- store can be opened, and only with the layer's extension, a zoom of the layer and coordinates of a
  -- tile of that zoom. Without a part behind the tile, or with two or more, the handler is the one that
  -- serves the tile; a single part is "status" or "dirty", for the handler of that name. The request has
  -- the parsed coordinates, and the style and mime type of the layer.
  pub tile_translate-AcceptsFrom :
      (layers : List TileConfig)
      → AllFitInt layers
      → AcceptsFrom 0 layers (tile_translate apr held stores layers uri)
  unfolding tile_translate
  tile_translate-AcceptsFrom layers f =
      if_both (AcceptsFrom 0 layers) (is_prefix mod_tile_uri uri) {x = tile_mod_stats} tt (
        if_both (AcceptsFrom 0 layers) (is_prefix metrics_uri uri) {x = tile_metrics} tt
          (translate_layers-AcceptsFrom 0 layers f))
