-- ===== src/StyleParameters/Tests.antt =====
-- A run of the text of `parameterize_map_language`.
use mod_tile.Base.{◌+◌, ◌≤◌, ◌↔◌, List, ℕ, [], ◌∷◌, refl, arith, length}
use mod_tile.StyleParameters.{languages, pieces, add_piece, replacement, name_replace_size}
use mod_tile.StyleParameters.Room.{replacement-fits}

-- "de,en"
abbrev two_languages : List ℕ
two_languages = b'd' ∷ b'e' ∷ b',' ∷ b'e' ∷ b'n' ∷ []

replacement-fits_example :
    (length (replacement (languages two_languages)) + 1 ≤ name_replace_size)
    ↔ (length (languages two_languages) ≤ 15)
unfolding languages pieces add_piece
replacement-fits_example = replacement-fits two_languages (omega arith) (refl, (refl, tt))
