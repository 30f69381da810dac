-- ===== src/RenderdConfig.antt =====
-- src/renderd_config.c: what is read from the configuration file, and which files are refused. The ini
-- file and its values are given as the iniparser library returns them; a `double` is its bits, with
-- the two comparisons that are made. Log messages are left out, and so is freeing the old values.
pub mod Daemon
pub mod Active
pub mod InBounds
pub mod Number
pub mod Sections
pub mod Sample
mod Tests
use mod_tile.Base.{
  ℕ, zero, suc, ◌+◌, ◌-◌, ◌^◌, ℤ, pos, negsuc, pos_part, ltb_ℤ, eq_ℤ, ◌+ℤ◌, Bool, true, false, not,
  ◌&&◌, ◌||◌, List, [], ◌∷◌, ◌++◌, Option, none, some, ltb, leb, ◌==◌, if◌then◌else◌, eq_list,
  length, take, drop, get_or, set, replicate,
}
use mod_tile.GenTile.Projection.{is_prefix}
use mod_tile.StoreFile.{path_max}
use mod_tile.TilePath.Scan.{scan_int}
use mod_tile.TileTranslate.{to_int}

-- `MAX_ZOOM`, `XMLCONFIGS_MAX`, `MAX_SLAVES`, `INILINE_MAX` and the length of `type_part`
abbrev pub max_zoom_limit : ℕ
max_zoom_limit = 20

abbrev pub xmlconfigs_max : ℕ
xmlconfigs_max = 100

abbrev pub max_slaves : ℕ
max_slaves = 5

abbrev pub iniline_max : ℕ
iniline_max = 256

abbrev pub type_part_maxlen : ℕ
type_part_maxlen = 64

-- A result, the end of the process with a status, or an access outside of an array
pub data Outcome (A : Type 0) : Type 0 where
  ok : A → Outcome A
  exits : ℕ → Outcome A
  out_of_bounds : Outcome A

infixl 5 ◌>>=◌
abbrev pub ◌>>=◌ : {A B : Type 0} → Outcome A → (A → Outcome B) → Outcome B
ok a >>= f = f a
exits n >>= f = exits n
out_of_bounds >>= f = out_of_bounds

-- The names of the settings in a section
pub data Setting : Type 0 where
  aspectx aspecty tilesize maxzoom minzoom ipport num_threads : Setting
  attribution cors description host htcphost parameterize_style server_alias tiledir xml uri :
      Setting
  type scale iphostname pid_file socketname stats_file tile_dir font_dir plugins_dir : Setting
  font_dir_recurse : Setting

-- The sections in the order of the file, and what `iniparser_getint` and its like return for a section,
-- a setting and a value for a missing one.
pub record Ini : Type 0 where
  pub sections : List (List ℕ)
  pub getint : List ℕ → Setting → ℤ → ℤ
  pub getboolean : List ℕ → Setting → ℤ → ℤ
  pub getstring : List ℕ → Setting → List ℕ → List ℕ
  pub getdouble : List ℕ → Setting → ℕ → ℕ

-- The comparisons with 0.1 and 8.0, the bits of 1.0, the texts that the build defines, and what
-- `sysconf` returns.
pub record Build : Type 0 where
  pub below_least : ℕ → Bool
  pub above_greatest : ℕ → Bool
  pub one : ℕ
  pub renderd_pidfile : List ℕ
  pub renderd_socket : List ℕ
  pub renderd_tile_dir : List ℕ
  pub mapnik_fonts_dir : List ℕ
  pub mapnik_plugins_dir : List ℕ
  pub mapnik_fonts_dir_recurse : ℤ
  pub processors : ℤ

-- `copy_string`
abbrev pub copy_string : List ℕ → ℕ → List ℕ
copy_string src maxlen = take maxlen src

unfoldable pub process_config_string : Ini → List ℕ → Setting → List ℕ → ℕ → List ℕ
process_config_string ini section name notfound maxlen =
    copy_string (ini.getstring section name notfound) maxlen

-- Whether the last code of a text is a slash
unfoldable pub ends_in_slash : List ℕ → Bool
ends_in_slash [] = false
ends_in_slash (c ∷ []) = c == b'/'
ends_in_slash (c ∷ d ∷ s) = ends_in_slash (d ∷ s)

unfoldable pub with_trailing_slash : List ℕ → ℕ → List ℕ
unfolding ends_in_slash
with_trailing_slash src maxlen =
    if ends_in_slash (take maxlen src)
    then copy_string src maxlen
    else copy_string (src ++ b'/' ∷ []) maxlen

unfoldable pub process_config_string_with_trailing_slash :
    Ini → List ℕ → Setting → List ℕ → ℕ → List ℕ
unfolding with_trailing_slash
process_config_string_with_trailing_slash ini section name notfound maxlen =
    with_trailing_slash (ini.getstring section name notfound) maxlen

-- What is kept of a map section, `xmlconfigitem`.
pub record MapSection : Type 0 where
  pub attribution : List ℕ
  pub cors : List ℕ
  pub description : List ℕ
  pub file_extension : List ℕ
  pub host : List ℕ
  pub htcpip : List ℕ
  pub mime_type : List ℕ
  pub output_format : List ℕ
  pub parameterization : List ℕ
  pub server_alias : List ℕ
  pub tile_dir : List ℕ
  pub xmlfile : List ℕ
  pub xmlname : List ℕ
  pub xmluri : List ℕ
  pub scale_factor : ℕ
  pub aspect_x : ℤ
  pub aspect_y : ℤ
  pub max_zoom : ℤ
  pub min_zoom : ℤ
  pub num_threads : ℤ
  pub tile_px_size : ℤ

-- The parts between spaces, as `strtok_r` cuts them off one after another
unfoldable pub words : List ℕ → List ℕ → List (List ℕ)
words [] [] = []
words (w ∷ ws) [] = (w ∷ ws) ∷ []
words part (c ∷ s) =
    let next = words [] s in
    let longer = words (part ++ c ∷ []) s in
    if c == 32 then (if length part == 0 then next else part ∷ next) else longer

-- "png image/png png256" and "png256"
abbrev pub png256 : List ℕ
png256 = b'p' ∷ b'n' ∷ b'g' ∷ b'2' ∷ b'5' ∷ b'6' ∷ []

abbrev pub default_type : List ℕ
default_type =
    b'p' ∷ b'n' ∷ b'g' ∷ 32 ∷ b'i' ∷ b'm' ∷ b'a' ∷ b'g' ∷ b'e' ∷ b'/' ∷ b'p' ∷ b'n' ∷ b'g' ∷ 32
    ∷ png256

-- The file extension, the MIME type and the output format
unfoldable pub type_parts : List (List ℕ) → Outcome (List ℕ × List ℕ × List ℕ)
type_parts (e ∷ m ∷ []) =
    ok (copy_string e type_part_maxlen, copy_string m type_part_maxlen, png256)
type_parts (e ∷ m ∷ o ∷ []) =
    ok (
      copy_string e type_part_maxlen,
      copy_string m type_part_maxlen,
      copy_string o type_part_maxlen,
    )
type_parts _ = exits 7

-- The checks of a section, in their order
unfoldable pub check_scale : Build → ℕ → Outcome ℕ
check_scale b s = if b.below_least s || b.above_greatest s then exits 7 else ok s

unfoldable pub check_max_zoom : ℤ → Outcome ℤ
check_max_zoom z = if ltb_ℤ z (pos 0) || ltb_ℤ (pos max_zoom_limit) z then exits 7 else ok z

unfoldable pub check_min_zoom : ℤ → ℤ → Outcome ℤ
check_min_zoom most z = if ltb_ℤ z (pos 0) || ltb_ℤ most z then exits 7 else ok z

-- What is read into the structure, with the values that were checked
unfoldable pub section_of :
    Ini → List ℕ → ℤ → List ℕ → ℕ → ℤ → ℤ → List ℕ × List ℕ × List ℕ → MapSection
unfolding process_config_string process_config_string_with_trailing_slash
section_of ini default_tile_dir threads section factor most least (e, m, o) =
    let text = λ (s : Setting). process_config_string ini section s [] path_max in
    record {
      attribution = text attribution;
      cors = text cors;
      description = text description;
      file_extension = e;
      host = text host;
      htcpip = text htcphost;
      mime_type = m;
      output_format = o;
      parameterization = text parameterize_style;
      server_alias = text server_alias;
      tile_dir = process_config_string ini section tiledir default_tile_dir path_max;
      xmlfile = text xml;
      xmlname = copy_string section 41;
      xmluri = process_config_string_with_trailing_slash ini section uri [] path_max;
      scale_factor = factor;
      aspect_x = ini.getint section aspectx (pos 1);
      aspect_y = ini.getint section aspecty (pos 1);
      max_zoom = most;
      min_zoom = least;
      num_threads = threads;
      tile_px_size = ini.getint section tilesize (pos 256);
    }

-- One map section
unfoldable pub checked_section :
    Build
    → ℕ
    → ℤ
    → ℤ
    → Outcome (List ℕ × List ℕ × List ℕ)
    → (ℕ → ℤ → ℤ → List ℕ × List ℕ × List ℕ → MapSection)
    → Outcome MapSection
unfolding check_scale check_max_zoom check_min_zoom
checked_section b factor most least parts make = check_scale b factor >>= λ f.
    check_max_zoom most >>= λ mx.
    check_min_zoom mx least >>= λ mn. parts >>= λ p. ok (make f mx mn p)

unfoldable pub read_map_section : Build → Ini → List ℕ → ℤ → List ℕ → Outcome MapSection
unfolding checked_section section_of type_parts words process_config_string
read_map_section b ini default_tile_dir threads section =
    checked_section b (ini.getdouble section scale b.one)
      (ini.getint section maxzoom (pos max_zoom_limit)) (ini.getint section minzoom (pos 0))
      (type_parts (words [] (process_config_string ini section type default_type iniline_max)))
      (section_of ini default_tile_dir threads section)

-- "renderd" and "mapnik"
abbrev pub renderd_name : List ℕ
renderd_name = b'r' ∷ b'e' ∷ b'n' ∷ b'd' ∷ b'e' ∷ b'r' ∷ b'd' ∷ []

abbrev pub mapnik_name : List ℕ
mapnik_name = b'm' ∷ b'a' ∷ b'p' ∷ b'n' ∷ b'i' ∷ b'k' ∷ []

unfoldable pub is_map_section : List ℕ → Bool
is_map_section section = not (is_prefix renderd_name section) && not (eq_list section mapnik_name)

abbrev then_more : MapSection → Outcome (List MapSection) → Outcome (List MapSection)
then_more m rest = rest >>= λ ms. ok (m ∷ ms)

-- The loop over the sections, with the number of map sections before
unfoldable pub read_map_sections :
    Build → Ini → List ℕ → ℤ → ℕ → List (List ℕ) → Outcome (List MapSection)
unfolding is_map_section read_map_section
read_map_sections b ini dir threads n [] = ok []
read_map_sections b ini dir threads n (section ∷ more) =
    let skip = read_map_sections b ini dir threads n more in
    let rest = read_map_sections b ini dir threads (suc n) more in
    if is_map_section section
    then if leb xmlconfigs_max n
      then exits 7
      else (read_map_section b ini dir threads section >>= λ m. then_more m rest)
    else skip

-- Whether the URI of a section is the start of that of a later one
unfoldable pub starts_one : List ℕ → List MapSection → Bool
starts_one u [] = false
starts_one u (m ∷ ms) = is_prefix u m.xmluri || starts_one u ms

unfoldable pub starts_later : List MapSection → Bool
unfolding starts_one
starts_later [] = false
starts_later (m ∷ ms) = starts_one m.xmluri ms || starts_later ms

unfoldable pub check_map_sections : List MapSection → Outcome (List MapSection)
unfolding starts_later
check_map_sections [] = exits 1
check_map_sections (m ∷ ms) = if starts_later (m ∷ ms) then exits 7 else ok (m ∷ ms)

-- `iniparser_load` may fail.
unfoldable pub process_map_sections : Build → Option Ini → List ℕ → ℤ → Outcome (List MapSection)
unfolding read_map_sections check_map_sections
process_map_sections b none dir threads = exits 1
process_map_sections b (some ini) dir threads =
    read_map_sections b ini dir threads 0 ini.sections >>= check_map_sections
