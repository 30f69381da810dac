-- ===== src/GenTile/Projection.antt =====
-- src/gen_tile.cpp, `get_projection`: how many metatiles of zoom 0 lie side by side. The bounds of a
-- projection are floating-point numbers, which only Mapnik reads.
use mod_tile.Base.{ℕ, Bool, true, false, ◌&&◌, ◌||◌, List, [], ◌∷◌, ◌==◌, if◌then◌else◌, eq_list}

pub record ProjectionConfig : Type 0 where
  pub aspect_x : ℕ
  pub aspect_y : ℕ

-- `strstr`
unfoldable pub is_prefix : List ℕ → List ℕ → Bool
is_prefix [] ys = true
is_prefix (x ∷ xs) [] = false
is_prefix (x ∷ xs) (y ∷ ys) = x == y && is_prefix xs ys

unfoldable pub strstr : List ℕ → List ℕ → Bool
unfolding is_prefix
strstr [] needle = is_prefix needle []
strstr (x ∷ xs) needle = is_prefix needle (x ∷ xs) || strstr xs needle

abbrev pub web_mercator : List ℕ
web_mercator =
    b'+' ∷ b'p' ∷ b'r' ∷ b'o' ∷ b'j' ∷ b'=' ∷ b'm' ∷ b'e' ∷ b'r' ∷ b'c' ∷ b' ' ∷ b'+' ∷ b'a' ∷ b'='
    ∷ b'6' ∷ b'3' ∷ b'7' ∷ b'8' ∷ b'1' ∷ b'3' ∷ b'7' ∷ b' ' ∷ b'+' ∷ b'b' ∷ b'=' ∷ b'6' ∷ b'3'
    ∷ b'7' ∷ b'8' ∷ b'1' ∷ b'3' ∷ b'7' ∷ []

abbrev pub plate_carree : List ℕ
plate_carree =
    b'+' ∷ b'p' ∷ b'r' ∷ b'o' ∷ b'j' ∷ b'=' ∷ b'e' ∷ b'q' ∷ b'c' ∷ b' ' ∷ b'+' ∷ b'l' ∷ b'a' ∷ b't'
    ∷ b'_' ∷ b't' ∷ b's' ∷ b'=' ∷ b'0' ∷ b' ' ∷ b'+' ∷ b'l' ∷ b'a' ∷ b't' ∷ b'_' ∷ b'0' ∷ b'='
    ∷ b'0' ∷ b' ' ∷ b'+' ∷ b'l' ∷ b'o' ∷ b'n' ∷ b'_' ∷ b'0' ∷ b'=' ∷ b'0' ∷ b' ' ∷ b'+' ∷ b'x'
    ∷ b'_' ∷ b'0' ∷ b'=' ∷ b'0' ∷ b' ' ∷ b'+' ∷ b'y' ∷ b'_' ∷ b'0' ∷ b'=' ∷ b'0' ∷ b' ' ∷ b'+'
    ∷ b'e' ∷ b'l' ∷ b'l' ∷ b'p' ∷ b's' ∷ b'=' ∷ b'W' ∷ b'G' ∷ b'S' ∷ b'8' ∷ b'4' ∷ b' ' ∷ b'+'
    ∷ b'd' ∷ b'a' ∷ b't' ∷ b'u' ∷ b'm' ∷ b'=' ∷ b'W' ∷ b'G' ∷ b'S' ∷ b'8' ∷ b'4' ∷ b' ' ∷ b'+'
    ∷ b'u' ∷ b'n' ∷ b'i' ∷ b't' ∷ b's' ∷ b'=' ∷ b'm' ∷ b' ' ∷ b'+' ∷ b'n' ∷ b'o' ∷ b'_' ∷ b'd'
    ∷ b'e' ∷ b'f' ∷ b's' ∷ []

abbrev pub bng : List ℕ
bng =
    b'+' ∷ b'p' ∷ b'r' ∷ b'o' ∷ b'j' ∷ b'=' ∷ b't' ∷ b'm' ∷ b'e' ∷ b'r' ∷ b'c' ∷ b' ' ∷ b'+' ∷ b'l'
    ∷ b'a' ∷ b't' ∷ b'_' ∷ b'0' ∷ b'=' ∷ b'4' ∷ b'9' ∷ b' ' ∷ b'+' ∷ b'l' ∷ b'o' ∷ b'n' ∷ b'_'
    ∷ b'0' ∷ b'=' ∷ b'-' ∷ b'2' ∷ b' ' ∷ b'+' ∷ b'k' ∷ b'=' ∷ b'0' ∷ b'.' ∷ b'9' ∷ b'9' ∷ b'9'
    ∷ b'6' ∷ b'0' ∷ b'1' ∷ b'2' ∷ b'7' ∷ b'1' ∷ b'7' ∷ b' ' ∷ b'+' ∷ b'x' ∷ b'_' ∷ b'0' ∷ b'='
    ∷ b'4' ∷ b'0' ∷ b'0' ∷ b'0' ∷ b'0' ∷ b'0' ∷ b' ' ∷ b'+' ∷ b'y' ∷ b'_' ∷ b'0' ∷ b'=' ∷ b'-'
    ∷ b'1' ∷ b'0' ∷ b'0' ∷ b'0' ∷ b'0' ∷ b'0' ∷ b' ' ∷ b'+' ∷ b'e' ∷ b'l' ∷ b'l' ∷ b'p' ∷ b's'
    ∷ b'=' ∷ b'a' ∷ b'i' ∷ b'r' ∷ b'y' ∷ b' ' ∷ b'+' ∷ b'd' ∷ b'a' ∷ b't' ∷ b'u' ∷ b'm' ∷ b'='
    ∷ b'O' ∷ b'S' ∷ b'G' ∷ b'B' ∷ b'3' ∷ b'6' ∷ b' ' ∷ b'+' ∷ b'u' ∷ b'n' ∷ b'i' ∷ b't' ∷ b's'
    ∷ b'=' ∷ b'm' ∷ b' ' ∷ b'+' ∷ b'n' ∷ b'o' ∷ b'_' ∷ b'd' ∷ b'e' ∷ b'f' ∷ b's' ∷ []

unfoldable pub get_projection : List ℕ → ProjectionConfig
unfolding strstr
get_projection srs =
    if strstr srs web_mercator
    then record { aspect_x = 1; aspect_y = 1 }
    else if eq_list srs plate_carree
    then record { aspect_x = 2; aspect_y = 1 }
    else if eq_list srs bng
    then record { aspect_x = 1; aspect_y = 2 }
    else record { aspect_x = 1; aspect_y = 1 }
