-- ===== src/RenderdConfig/Sample.antt =====
-- A configuration file with two map sections.
use mod_tile.Base.{ℕ, ◌≡◌, refl, pos, List, [], ◌∷◌, some, false, eq_list, if◌then◌else◌}
use mod_tile.GenTile.Projection.{is_prefix}
use mod_tile.RenderdConfig.{
  ok, MapSection, Ini, Build, Setting, uri, process_map_sections, section_of, png256, renderd_name,
  mapnik_name,
}

abbrev pub name_a : List ℕ
name_a = b'a' ∷ []

abbrev pub name_b : List ℕ
name_b = b'b' ∷ []

-- "/a/b/" and "/a"
abbrev uris : List ℕ → Setting → List ℕ → List ℕ
uris section uri notfound =
    if eq_list section name_a then b'/' ∷ b'a' ∷ b'/' ∷ b'b' ∷ b'/' ∷ [] else b'/' ∷ b'a' ∷ []
uris section _ notfound = notfound

abbrev pub file_with : List (List ℕ) → Ini
file_with sections = record {
  sections = sections;
  getint = λ section name notfound. notfound;
  getboolean = λ section name notfound. notfound;
  getstring = uris;
  getdouble = λ section name notfound. notfound;
}

abbrev pub ini : Ini
ini = file_with (renderd_name ∷ mapnik_name ∷ name_a ∷ name_b ∷ [])

abbrev pub swapped : Ini
swapped = file_with (renderd_name ∷ mapnik_name ∷ name_b ∷ name_a ∷ [])

abbrev pub build : Build
build = record {
  below_least = λ s. false;
  above_greatest = λ s. false;
  one = 0x3ff0000000000000;
  renderd_pidfile = b'p' ∷ [];
  renderd_socket = b's' ∷ [];
  renderd_tile_dir = b't' ∷ [];
  mapnik_fonts_dir = b'f' ∷ [];
  mapnik_plugins_dir = b'g' ∷ [];
  mapnik_fonts_dir_recurse = pos 0;
  processors = pos 8;
}

abbrev section_named : List ℕ → MapSection
section_named name = section_of ini [] (pos 0) name 0x3ff0000000000000 (pos 20) (pos 0) (
  b'p' ∷ b'n' ∷ b'g' ∷ [],
  b'i' ∷ b'm' ∷ b'a' ∷ b'g' ∷ b'e' ∷ b'/' ∷ b'p' ∷ b'n' ∷ b'g' ∷ [],
  png256,
)

abbrev pub section_a : MapSection
section_a = section_named name_a

abbrev pub section_b : MapSection
section_b = section_named name_b

pub accepted : process_map_sections build (some ini) [] (pos 0) ≡ ok (section_a ∷ section_b ∷ [])
unfolding process_map_sections is_prefix section_of
accepted = refl
