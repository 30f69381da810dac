-- ===== src/RenderdConfig/Daemon.antt =====
-- src/renderd_config.c, `process_renderd_sections`, `process_mapnik_section` and
-- `process_config_file`: the sections of the daemons, and the whole file for one of them.
use mod_tile.Base.{
  ℕ, suc, ℤ, pos, negsuc, eq_ℤ, ◌+ℤ◌, Bool, true, false, ◌||◌, List, [], ◌∷◌, ◌++◌, Option, none,
  some, leb, ltb, ltb_ℤ, pos_part, ◌==◌, if◌then◌else◌, eq_list, length, drop, get_or, set,
  replicate,
}
use mod_tile.GenTile.Projection.{is_prefix}
use mod_tile.StoreFile.{path_max}
use mod_tile.RenderdConfig.Number.{strtol}
use mod_tile.RenderdConfig.{
  Outcome, ok, exits, out_of_bounds, ◌>>=◌, Ini, Build, MapSection, process_config_string,
  copy_string, renderd_name, mapnik_name, max_slaves, iniline_max, process_map_sections, ipport,
  num_threads, iphostname, pid_file, socketname, stats_file, tile_dir, font_dir, plugins_dir,
  font_dir_recurse,
}

-- What is kept of a section, `renderd_config`, but for the values of the mapnik section.
pub record RenderdSection : Type 0 where
  pub name : List ℕ
  pub ip_port : ℤ
  pub threads : ℤ
  pub hostname : List ℕ
  pub pid_filename : List ℕ
  pub socket : List ℕ
  pub stats_filename : List ℕ
  pub tiles : List ℕ

pub record MapnikSection : Type 0 where
  pub font_dir_recurses : ℤ
  pub fonts : List ℕ
  pub plugins : List ℕ

-- The size of `sun_path`
abbrev pub socketname_max : ℕ
socketname_max = 108

-- "renderd0"
abbrev pub renderd0_name : List ℕ
renderd0_name = renderd_name ++ b'0' ∷ []

-- The number of a section, unless none stands behind the seven letters
unfoldable pub section_number : List ℕ → Option ℤ
section_number section =
    if eq_list section renderd_name || eq_list section renderd0_name
    then some (pos 0)
    else strtol (drop 7 section)

-- The number of threads, -1 of which stands for the number of processors
abbrev pub thread_count : Build → ℤ → ℤ
thread_count b n = if eq_ℤ n (negsuc 0) then b.processors else n

unfoldable pub renderd_section : Build → Ini → List ℕ → RenderdSection
unfolding process_config_string
renderd_section b ini section = record {
  name = copy_string section 9;
  ip_port = ini.getint section ipport (pos 0);
  threads = thread_count b (ini.getint section num_threads (pos 4));
  hostname = process_config_string ini section iphostname [] iniline_max;
  pid_filename = process_config_string ini section pid_file b.renderd_pidfile path_max;
  socket = process_config_string ini section socketname b.renderd_socket path_max;
  stats_filename = process_config_string ini section stats_file [] path_max;
  tiles = process_config_string ini section tile_dir b.renderd_tile_dir path_max;
}

-- The array `config_slaves`; the name of a section tells whether its place is taken.
abbrev pub Slots : Type 0
Slots = List (Option RenderdSection)

unfoldable pub put_section : Slots → ℕ → RenderdSection → Option RenderdSection → Outcome Slots
put_section slots n r (some other) = exits 7
put_section slots n r none =
    if leb socketname_max (length r.socket) then exits 7 else ok (set slots n (some r))

-- The element of an index, where the array has one
unfoldable pub slot_at : Slots → ℤ → Outcome (Option RenderdSection)
slot_at slots (negsuc n) = out_of_bounds
slot_at slots (pos n) = if ltb n (length slots) then ok (get_or slots n none) else out_of_bounds

-- The place of a section: the number is checked against the size of the array, from above only.
unfoldable pub place_section : Slots → Option ℤ → RenderdSection → Outcome Slots
unfolding put_section slot_at
place_section slots none r = exits 7
place_section slots (some i) r =
    if ltb_ℤ i (pos max_slaves)
    then (slot_at slots i >>= put_section slots (pos_part i) r)
    else exits 7

-- The loop over the sections; the result tells too whether there was one.
unfoldable pub read_renderd_sections :
    Build → Ini → Bool → Slots → List (List ℕ) → Outcome (Bool × Slots)
unfolding section_number place_section renderd_section
read_renderd_sections b ini seen slots [] = ok (seen, slots)
read_renderd_sections b ini seen slots (section ∷ more) =
    let skip = read_renderd_sections b ini seen slots more in
    let rest = λ (s : Slots). read_renderd_sections b ini true s more in
    if is_prefix renderd_name section
    then (place_section slots (section_number section) (renderd_section b ini section) >>= rest)
    else skip

abbrev pub empty_slots : Slots
empty_slots = replicate max_slaves none

abbrev pub if_seen : Bool × Slots → Outcome Slots
if_seen (seen, slots) = if seen then ok slots else exits 1

unfoldable pub process_renderd_sections : Build → Option Ini → Outcome Slots
unfolding read_renderd_sections
process_renderd_sections b none = exits 1
process_renderd_sections b (some ini) =
    read_renderd_sections b ini false empty_slots ini.sections >>= if_seen

-- The first section of the name
unfoldable pub has_section : List ℕ → List (List ℕ) → Bool
has_section name [] = false
has_section name (s ∷ ss) = eq_list s name || has_section name ss

unfoldable pub process_mapnik_section : Build → Option Ini → Outcome MapnikSection
unfolding has_section process_config_string
process_mapnik_section b none = exits 1
process_mapnik_section b (some ini) =
    if has_section mapnik_name ini.sections
    then ok (record {
      font_dir_recurses = ini.getboolean mapnik_name font_dir_recurse b.mapnik_fonts_dir_recurse;
      fonts = process_config_string ini mapnik_name font_dir b.mapnik_fonts_dir path_max;
      plugins = process_config_string ini mapnik_name plugins_dir b.mapnik_plugins_dir path_max;
    })
    else exits 1

-- What `process_config_file` sets.
pub record Configuration : Type 0 where
  pub slaves : Slots
  pub active : RenderdSection
  pub mapnik : MapnikSection
  pub maps : List MapSection
  pub num_slave_threads : ℤ

abbrev pub threads_of : Option RenderdSection → ℤ
threads_of none = pos 0
threads_of (some r) = r.threads

-- The sum of the threads of all sections but the active one, from the place `i` on
unfoldable pub slave_threads : ℕ → ℕ → Slots → ℤ
slave_threads active i [] = pos 0
slave_threads active i (s ∷ ss) =
    let rest = slave_threads active (suc i) ss in if i == active then rest else threads_of s +ℤ rest

-- A section with no threads counts as missing.
unfoldable pub active_section : Option RenderdSection → Outcome RenderdSection
active_section none = exits 1
active_section (some r) = if eq_ℤ r.threads (pos 0) then exits 1 else ok r

unfoldable pub process_config_file : Build → Option Ini → ℤ → Outcome Configuration
unfolding process_renderd_sections active_section process_mapnik_section slave_threads
process_config_file b ini (negsuc n) = exits 1
process_config_file b none (pos n) = exits 1
process_config_file b (some ini) (pos n) =
    if leb max_slaves n
    then exits 1
    else (process_renderd_sections b (some ini) >>= λ slots.
        active_section (get_or slots n none) >>= λ r.
        process_mapnik_section b (some ini) >>= λ mapnik.
        process_map_sections b (some ini) r.tiles r.threads >>= λ maps. ok (record {
          slaves = slots;
          active = r;
          mapnik = mapnik;
          maps = maps;
          num_slave_threads = slave_threads n 0 slots;
        }))
