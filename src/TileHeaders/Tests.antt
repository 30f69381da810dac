-- ===== src/TileHeaders/Tests.antt =====
-- The headers at concrete inputs.
use mod_tile.Base.{◌≢◌, true, ℕ, ◌≡◌, ◌↔◌, false, List, [], ◌∷◌, none, some}
use mod_tile.TileHeaders.{cors_forbidden, add_cors, any_origin}
use mod_tile.TileHeaders.Cors.{Allowed, IsPart, add_cors_lem}

-- "http://a" and "http://a,http://b"
abbrev site : List ℕ
site = b'h' ∷ b't' ∷ b't' ∷ b'p' ∷ b':' ∷ b'/' ∷ b'/' ∷ b'a' ∷ []

abbrev policy : List ℕ
policy =
    b'h' ∷ b't' ∷ b't' ∷ b'p' ∷ b':' ∷ b'/' ∷ b'/' ∷ b'a' ∷ b',' ∷ b'h' ∷ b't' ∷ b't' ∷ b'p' ∷ b':'
    ∷ b'/' ∷ b'/' ∷ b'b' ∷ []

add_cors_example :
    (((add_cors (some site) policy [] false none).0 ≡ cors_forbidden)
      ↔ (¬ Allowed [] false none site policy))
    × (policy ≡ any_origin
        → (add_cors (some site) policy [] false none).1.allow_origin ≡ some any_origin)
    × (policy ≢ any_origin
        → IsPart site policy
        → ((add_cors (some site) policy [] false none).1.allow_origin ≡ some site)
          × ((add_cors (some site) policy [] false none).1.vary ≡ true))
add_cors_example = add_cors_lem [] false none site policy
