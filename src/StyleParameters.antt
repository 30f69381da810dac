-- ===== src/StyleParameters.antt =====
-- src/parameterize_style.cpp: the SQL text that `parameterize_map_language` puts into a style's tables.
-- What it does with the layers of a Mapnik map is a call for each of them.
pub mod Room
mod Tests
use mod_tile.Base.{
  ℕ, zero, suc, ◌+◌, ◌-◌, Bool, true, false, List, [], ◌∷◌, ◌++◌, Option, none, some, take, drop,
  length, ◌==◌, if◌then◌else◌, eq_list,
}
use mod_tile.GenTile.Projection.{is_prefix}

-- `strtok` by commas: the pieces between them, the empty ones left out
unfoldable pub add_piece : List ℕ → List (List ℕ) → List (List ℕ)
add_piece [] more = more
add_piece (c ∷ cs) more = (c ∷ cs) ∷ more

unfoldable pub pieces : List ℕ → List ℕ → List (List ℕ)
unfolding add_piece
pieces [] held = add_piece held []
pieces (c ∷ s) held =
    let next = pieces s [] in
    let longer = pieces s (held ++ c ∷ []) in if c == b',' then add_piece held next else longer

unfoldable pub languages : List ℕ → List (List ℕ)
unfolding pieces
languages parameter = pieces parameter []

-- "_", ", coalesce(", "name,", "tags->'name:", "'," and ") as name"
abbrev pub default_language : List ℕ
default_language = b'_' ∷ []

abbrev pub opening : List ℕ
opening = b',' ∷ 32 ∷ b'c' ∷ b'o' ∷ b'a' ∷ b'l' ∷ b'e' ∷ b's' ∷ b'c' ∷ b'e' ∷ b'(' ∷ []

abbrev pub default_column : List ℕ
default_column = b'n' ∷ b'a' ∷ b'm' ∷ b'e' ∷ b',' ∷ []

abbrev pub tag_opening : List ℕ
tag_opening = b't' ∷ b'a' ∷ b'g' ∷ b's' ∷ b'-' ∷ b'>' ∷ 39 ∷ b'n' ∷ b'a' ∷ b'm' ∷ b'e' ∷ b':' ∷ []

abbrev pub tag_closing : List ℕ
tag_closing = 39 ∷ b',' ∷ []

abbrev pub closing : List ℕ
closing = b')' ∷ 32 ∷ b'a' ∷ b's' ∷ 32 ∷ b'n' ∷ b'a' ∷ b'm' ∷ b'e' ∷ []

-- The bytes of a text that `strncat` appends
abbrev pub strncat_max : ℕ
strncat_max = 255

-- The size of the buffer for the text and its terminating zero
abbrev pub name_replace_size : ℕ
name_replace_size = 256

unfoldable pub column : List ℕ → List ℕ
column tok =
    if eq_list tok default_language
    then default_column
    else tag_opening ++ (take strncat_max tok ++ tag_closing)

unfoldable pub columns : List (List ℕ) → List ℕ
unfolding column
columns [] = []
columns (tok ∷ toks) = column tok ++ columns toks

-- The text in the buffer: the last comma is cut off, and the end appended.
unfoldable pub replacement : List (List ℕ) → List ℕ
unfolding columns
replacement toks = let text = opening ++ columns toks in take (length text - 1) text ++ closing

-- The buffer after `parameterize_map_language` has built its text, if there is a language
unfoldable pub name_replace : List ℕ → Option (List ℕ)
unfolding languages replacement
name_replace parameter = elim (languages parameter) [
  | [] ↦ none
  | tok ∷ toks ↦ some (replacement (tok ∷ toks))
]

-- ",name"
abbrev pub name_column : List ℕ
name_column = b',' ∷ b'n' ∷ b'a' ∷ b'm' ∷ b'e' ∷ []

-- The table of a layer with its first ",name" replaced, where it has one
unfoldable pub replace_name : List ℕ → List ℕ → List ℕ
unfolding is_prefix
replace_name text [] = []
replace_name text (c ∷ table) =
    let rest = replace_name text table in
    if is_prefix name_column (c ∷ table) then text ++ drop 5 (c ∷ table) else c ∷ rest

-- `init_parameterization_function`: whether there is one. The name may be null.
abbrev pub language_function : List ℕ
language_function = b'l' ∷ b'a' ∷ b'n' ∷ b'g' ∷ b'u' ∷ b'a' ∷ b'g' ∷ b'e' ∷ []

unfoldable pub init_parameterization_function : Option (List ℕ) → Bool
init_parameterization_function none = false
init_parameterization_function (some name) = eq_list name language_function
