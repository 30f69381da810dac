-- ===== src/TileTranslate/Served.antt =====
-- src/mod_tile.c, `tile_translate`: every request that can be accepted is.
use mod_tile.Base.{
  some, ◌*◌, ◌^◌, ℤ, pos_part, refl, subst, ℕ, suc, ◌+◌, ◌≡◌, sym, ◌∙◌, ap, Bool, true, false, List,
  [], ◌∷◌, arith, eq_list, eq_list_refl, length, drop,
}
use mod_tile.Base.Bounds.{axis_lem}
use mod_tile.Protocol.{Protocol}
use mod_tile.GenTile.Projection.{is_prefix}
use mod_tile.TileTranslate.{
  TileConfig, Apr, TileHandler, handler_of, accepted, in_bounds, tile_request, translate_parts,
  translate_layer, translate_layers, tile_translate, tile_layer_json, mod_tile_uri, metrics_uri,
}
use mod_tile.TileTranslate.Accepts.{
  IsLayer, first_layer, next_layer, IsRequest, InLayer, FitsInt, to_int-small, IsHandler, no_part,
  status_part, dirty_part, more_parts,
}

in_bounds-InLayer :
    (c : TileConfig) (x y z : ℤ) → FitsInt c → InLayer c x y z → in_bounds c x y z ≡ true
unfolding in_bounds
in_bounds-InLayer c x y z fit (low, high, k, l) =
    let (fx, fy) = fit z low high in
    rw
      (to_int-small (2 ^ pos_part z * c.aspect_x) fx, to_int-small (2 ^ pos_part z * c.aspect_y) fy)
      (ground (
        arith,
        low,
        high,
        k,
        l,
        axis_lem x (2 ^ pos_part z * c.aspect_x),
        axis_lem y (2 ^ pos_part z * c.aspect_y),
      ))

handler_of-handled :
    (apr : Apr) (others : List (List ℕ)) (h : TileHandler)
    → IsHandler apr others h
    → handler_of apr others ≡ some h
unfolding handler_of
handler_of-handled apr [] h no_part = refl
handler_of-handled apr (o ∷ []) h (status_part e) = rw e refl
handler_of-handled apr (o ∷ []) h (dirty_part e) = rw e refl
handler_of-handled apr (o ∷ p ∷ ps) h more_parts = refl

module _ (apr : Apr) (held uri : List ℕ) (stores : ℕ → Bool) (c : TileConfig) (fit : FitsInt c)
    (h : TileHandler) (req : Protocol) where
  -- The URL is the one of a page of the layer.
  abbrev rest : List ℕ
  rest = drop (length c.baseuri) uri

  parts_served :
      (i : ℕ) (r : IsRequest apr held (stores i) c rest h req)
      → translate_parts apr (stores i) c i r.parts ≡ accepted h i req
  unfolding translate_parts tile_request
  parts_served i r =
      let p = r.parts in
      let e : eq_list p.extension c.file_extension ≡ true =
        rw r.extension (eq_list_refl c.file_extension) in
      let b : in_bounds c p.x p.y p.z ≡ true =
        in_bounds-InLayer c p.x p.y p.z fit
          (subst (λ (q : Protocol). InLayer c q.x q.y q.z) r.content r.bounds) in
      rw (e, b, r.opened, handler_of-handled apr p.others h r.handler)
        (ap (accepted h i) (sym r.content))

  layer_served :
      (i : ℕ)
      → is_prefix tile_layer_json rest ≡ false
      → IsRequest apr held (stores i) c rest h req
      → translate_layer apr held (stores i) c i rest ≡ accepted h i req
  unfolding translate_layer
  layer_served i n r = rw (n, r.parsed) (parts_served i r)

  layers_served :
      (i k : ℕ) (layers : List TileConfig)
      → IsLayer uri c i layers
      → is_prefix tile_layer_json rest ≡ false
      → IsRequest apr held (stores (k + i)) c rest h req
      → translate_layers apr held stores uri k layers ≡ accepted h (k + i) req
  unfolding translate_layers
  layers_served i k [] l n r = elim l [ ]
  layers_served i k (d ∷ ds) (first_layer same e) n r =
      let zero : k + 0 ≡ k = omega arith in
      let here =
        layer_served k n (subst (λ (m : ℕ). IsRequest apr held (stores m) c rest h req) zero r) in
      rw (e, zero)
        (subst
          (λ (g : TileConfig).
            translate_layer apr held (stores k) g k (drop (length g.baseuri) uri)
            ≡ accepted h k req)
          (sym same) here)
  layers_served i k (d ∷ ds) (next_layer {i = j} e l) n r =
      let shift : k + suc j ≡ suc k + j = omega arith in
      rw (e, shift)
        (layers_served j (suc k) ds l n
          (subst (λ (m : ℕ). IsRequest apr held (stores m) c rest h req) shift r))

  -- A URL that is none of the module's own pages, and that begins with the base of a layer and of no
  -- layer before it, where the layer's numbers of tiles fit into an `int`: if it is not the layer's
  -- description, and its parts are three coordinates, with the layer's extension, of a tile at a zoom of
  -- the layer, whose store can be opened, then it is accepted as the request for this tile in the layer's
  -- style: for serving it where there is no part behind the tile, or more than one, and for its status, or
  -- for marking it dirty, where the one part is this word.
  pub tile_translate-accepted :
      (i : ℕ) (layers : List TileConfig)
      → is_prefix mod_tile_uri uri ≡ false
      → is_prefix metrics_uri uri ≡ false
      → IsLayer uri c i layers
      → is_prefix tile_layer_json rest ≡ false
      → IsRequest apr held (stores i) c rest h req
      → tile_translate apr held stores layers uri ≡ accepted h i req
  unfolding tile_translate
  tile_translate-accepted i layers m n l j r =
      let from : i ≡ 0 + i = omega arith in
      let r' = subst (λ (k : ℕ). IsRequest apr held (stores k) c rest h req) from r in
      rw (m, n) (layers_served i 0 layers l j r' ∙ ap (λ (k : ℕ). accepted h k req) (sym from))
