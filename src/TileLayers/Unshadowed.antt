-- ===== src/TileLayers/Unshadowed.antt =====
-- src/mod_tile.c, `load_tile_config` and `tile_translate`, with src/renderd_config.c: a layer of the
-- configuration file is reached by the requests below its URI.
use mod_tile.Base.{
  ℕ, zero, suc, ◌+◌, ◌≤◌, ◌<◌, ◌≡◌, refl, ◌∙◌, ap, sym, subst, pos, Bool, true, false, List, [],
  ◌∷◌, ◌++◌, Option, none, some, ◌==◌, length, take, drop, map, arith, Bool-cases, inl, inr,
  take_all, length-append, ◌⊎◌,
}
use mathlib.Core.List.{append-nil, append_assoc}
use mod_tile.GenTile.Projection.{is_prefix}
use mod_tile.StoreFile.{path_max}
use mod_tile.TileTranslate.{
  Apr, TileConfig, Translation, translate_layer, translate_layers, tile_translate, mod_tile_uri,
  metrics_uri,
}
use mod_tile.RenderdConfig.{ok, Build, Ini, MapSection, ends_in_slash, process_map_sections}
use mod_tile.RenderdConfig.Sections.{
  IsSound, AllSound, NoneBelow, NoneShadowed, >>=-ok, process_map_sections-IsAccepted,
}
use mod_tile.TileLayers.{
  ServerConf, Layer, Layers, args_of, new_layer, layer_uri, slashed_uri, _add_tile_config,
  add_sections, done, load_tile_config,
}

-- Of two starts of one text, one is the start of the other.
prefix_total :
    (x l u : List ℕ)
    → is_prefix x u ≡ true
    → is_prefix l u ≡ true
    → is_prefix x l ≡ false
    → is_prefix l x ≡ true
unfolding is_prefix
prefix_total [] l u h k n = absurd (ground arith)
prefix_total (c ∷ x) [] u h k n = refl
prefix_total (c ∷ x) (d ∷ l) [] h k n = absurd (ground arith)
prefix_total (c ∷ x) (d ∷ l) (e ∷ u) h k n = ground (arith, prefix_total x l u)

abbrev pub uri_of : Layer → List ℕ
uri_of t = t.translated.baseuri

-- The layers at some places, and those that none before is the start of
abbrev pub at : List Layer → ℕ → Option Layer
at [] n = none
at (t ∷ ts) zero = some t
at (t ∷ ts) (suc n) = at ts n

abbrev Apart : List ℕ → List Layer → Type 0
Apart u [] = Unit
Apart u (t ∷ ts) = (is_prefix (uri_of t) u ≡ false) × Apart u ts

-- Where a request goes: to a layer whose URI starts with that of the wanted one, not behind it.
pub record Reaches (apr : Apr) (held : List ℕ) (stores : ℕ → Bool) (uri : List ℕ) (ts : List Layer)
    (i k : ℕ) (t : Layer) (found : Translation) : Type 0 where
  pub index : ℕ
  pub layer : Layer
  pub placed : at ts index ≡ some layer
  pub not_behind : index ≤ k
  pub below : is_prefix (uri_of t) (uri_of layer) ≡ true
  pub taken :
      found
      ≡ translate_layer apr held
          (stores (i + index))
          layer.translated
          (i + index)
          (drop (length (uri_of layer)) uri)

is_prefix_refl : (u : List ℕ) → is_prefix u u ≡ true
unfolding is_prefix
is_prefix_refl [] = refl
is_prefix_refl (c ∷ u) = ground (arith, is_prefix_refl u)

abbrev configs_of : List Layer → List TileConfig
configs_of = map (λ (t : Layer). t.translated)

module _ (apr : Apr) (held : List ℕ) (stores : ℕ → Bool) (uri : List ℕ) (t : Layer)
    (asked : is_prefix (uri_of t) uri ≡ true) where
  layers_reach :
      (i : ℕ) (before after : List Layer)
      → Apart (uri_of t) before
      → Reaches apr held stores uri
          (before ++ t ∷ after)
          i
          (length before)
          t
          (translate_layers apr held stores uri i (configs_of (before ++ t ∷ after)))
  unfolding translate_layers
  layers_reach i [] after h = record {
    index = 0;
    layer = t;
    placed = refl;
    not_behind = omega arith;
    below = is_prefix_refl (uri_of t);
    taken = rw asked (
        ap (λ n. translate_layer apr held (stores n) t.translated n (drop (length (uri_of t)) uri))
          (omega arith));
  }
  layers_reach i (x ∷ before) after h = elim (Bool-cases (is_prefix (uri_of x) uri)) [
    | inl here ↦ record {
      index = 0;
      layer = x;
      placed = refl;
      not_behind = omega arith;
      below = prefix_total (uri_of x) (uri_of t) uri here asked h.0;
      taken = rw here (
          ap
            (λ n. translate_layer apr held (stores n) x.translated n (drop (length (uri_of x)) uri))
            (omega arith));
    }
    | inr other ↦
        let r = layers_reach (suc i) before after h.1 in
        record {
          index = suc r.index;
          layer = r.layer;
          placed = r.placed;
          not_behind = omega (arith, r.not_behind);
          below = r.below;
          taken = rw other (
              r.taken
              ∙ ap
                  (λ n.
                    translate_layer apr held (stores n) r.layer.translated n
                      (drop (length (uri_of r.layer)) uri))
                  (omega arith));
        }
  ]

-- The URIs of the layers are shorter than the space for one.
abbrev pub AllShort : List Layer → Type 0
AllShort [] = Unit
AllShort (t ∷ ts) = (length (uri_of t) < path_max) × AllShort ts

no_slash : ends_in_slash [] ≡ true → ⊥
unfolding ends_in_slash
no_slash h = cc

no_layers : {x : Layer} {xs : List Layer} → [] ≡ x ∷ xs → ⊥
no_layers e = cc

loaded : (k l : Layers) → ok (done k) ≡ ok (done l) → k ≡ l
loaded k l e = cc

nonzero : (n : ℕ) → (suc n == 0) ≡ false
nonzero n = ground arith

-- A URI of a section with space left is that of its layer.
slashed_uri-whole :
    (n : ℕ) (u : List ℕ)
    → take n u ≡ u
    → (ends_in_slash u ≡ true) ⊎ (n ≤ length u)
    → length (slashed_uri n u) < n
    → slashed_uri n u ≡ u
unfolding slashed_uri
slashed_uri-whole n [] whole (inl slash) k = absurd (no_slash slash)
slashed_uri-whole n [] whole (inr full) k = absurd (omega (arith, full, k))
slashed_uri-whole n (c ∷ u) whole closed k = elim (Bool-cases (ends_in_slash (c ∷ u))) [
  | inl slash ↦ rw (whole, nonzero (length u), slash) refl
  | inr plain ↦ elim closed [
    | inl slash ↦ absurd (ground arith)
    | inr full ↦ absurd (
        omega (
          arith,
          full,
          length-append (c ∷ u) (b'/' ∷ []),
          rw (whole, nonzero (length u), plain) at k,
        ))
  ]
]

layer_uri-short :
    (u : List ℕ)
    → length u ≤ path_max
    → (ends_in_slash u ≡ true) ⊎ (path_max ≤ length u)
    → length (layer_uri u) < path_max
    → layer_uri u ≡ u
unfolding layer_uri
layer_uri-short u h closed k = slashed_uri-whole path_max u (take_all path_max u h) closed k

abbrev layer_of : ServerConf → MapSection → Layer
layer_of s m = new_layer s (args_of m)

add_sections-configs :
    (s : ServerConf) (l : Layers) (ms : List MapSection)
    → (add_sections s l ms).configs ≡ l.configs ++ map (layer_of s) ms
unfolding add_sections _add_tile_config
add_sections-configs s l [] = sym (append-nil l.configs)
add_sections-configs s l (m ∷ ms) =
    add_sections-configs s (_add_tile_config s l (args_of m)) ms
    ∙ append_assoc l.configs (layer_of s m ∷ []) (map (layer_of s) ms)

cons-eq : {x y : Layer} {xs ys : List Layer} → x ∷ xs ≡ y ∷ ys → (x ≡ y) × (xs ≡ ys)
cons-eq e = (cc, cc)

uri_of-layer_of :
    (b : Build) (s : ServerConf) (m : MapSection)
    → IsSound b m
    → length (uri_of (layer_of s m)) < path_max
    → uri_of (layer_of s m) ≡ m.xmluri
unfolding new_layer
uri_of-layer_of b s m i short = layer_uri-short m.xmluri i.uri_length i.uri_closed short

module _ (b : Build) (s : ServerConf) (t : Layer) (after : List Layer) where
  not_below :
      (u : List ℕ) (ms : List MapSection) (before : List Layer)
      → map (layer_of s) ms ≡ before ++ t ∷ after
      → AllShort (before ++ t ∷ after)
      → AllSound b ms
      → NoneBelow u ms
      → is_prefix u (uri_of t) ≡ false
  not_below u [] [] e short sound free = absurd (no_layers e)
  not_below u [] (x ∷ before) e short sound free = absurd (no_layers e)
  not_below u (m ∷ ms) [] e short sound free =
      let here = (cons-eq e).0 in
      let same =
        uri_of-layer_of b s m sound.0
          (subst (λ k. length (uri_of k) < path_max) (sym here) short.0) in
      subst (λ k. is_prefix u k ≡ false) (sym same ∙ ap uri_of here) free.0
  not_below u (m ∷ ms) (x ∷ before) e short sound free =
      not_below u ms before (cons-eq e).1 short.1 sound.1 free.1

  Apart-before :
      (ms : List MapSection) (before : List Layer)
      → map (layer_of s) ms ≡ before ++ t ∷ after
      → AllShort (before ++ t ∷ after)
      → AllSound b ms
      → NoneShadowed ms
      → Apart (uri_of t) before
  Apart-before [] [] e short sound free = tt
  Apart-before (m ∷ ms) [] e short sound free = tt
  Apart-before [] (x ∷ before) e short sound free = absurd (no_layers e)
  Apart-before (m ∷ ms) (x ∷ before) e short sound free =
      let (here, rest) = cons-eq e in
      let same =
        uri_of-layer_of b s m sound.0
          (subst (λ k. length (uri_of k) < path_max) (sym here) short.0) in
      (
        subst (λ k. is_prefix k (uri_of t) ≡ false) (sym same ∙ ap uri_of here)
            (not_below m.xmluri ms before rest short.1 sound.1 free.0),
        Apart-before ms before rest short.1 sound.1 free.1,
      )

abbrev pub empty_layers : Layers
empty_layers = record { configs = []; global_max_zoom = pos 0 }

-- Where the configuration file is accepted and is all that the layers come from, and no URI fills the
-- space for it: a request below the URI of a layer, which is not one for the statistics or metrics, goes to
-- this layer, or to a layer before it whose URI lies below its own. No layer is hidden by one before.
pub tile_translate-Reaches :
    (b : Build) (s : ServerConf) (ini : Ini) (l : Layers) (apr : Apr) (held : List ℕ)
    (stores : ℕ → Bool) (uri : List ℕ) (before : List Layer) (t : Layer) (after : List Layer)
    → load_tile_config b s true (some ini) empty_layers ≡ ok (done l)
    → l.configs ≡ before ++ t ∷ after
    → AllShort l.configs
    → is_prefix (uri_of t) uri ≡ true
    → is_prefix mod_tile_uri uri ≡ false
    → is_prefix metrics_uri uri ≡ false
    → Reaches apr held stores uri l.configs 0
        (length before)
        t
        (tile_translate apr held stores (map (λ (x : Layer). x.translated) l.configs) uri)
unfolding tile_translate load_tile_config
tile_translate-Reaches b s ini l apr held stores uri before t after e place short asked n1 n2 =
    let (ms, accepted, e1) = >>=-ok (process_map_sections b (some ini) [] (pos 0)) _ e in
    let made = loaded _ l e1 in
    let a = process_map_sections-IsAccepted b ini [] (pos 0) ms accepted in
    let whole : map (layer_of s) ms ≡ before ++ t ∷ after =
      sym (add_sections-configs s empty_layers ms) ∙ ap (λ (k : Layers). k.configs) made ∙ place in
    let apart =
      Apart-before b s t after ms before whole (subst AllShort place short) a.sound a.apart in
    rw (n1, n2)
      (subst
        (λ ts.
          Reaches apr held stores uri ts 0 (length before) t
            (translate_layers apr held stores uri 0 (configs_of ts)))
        (sym place) (layers_reach apr held stores uri t asked 0 before after apart))
