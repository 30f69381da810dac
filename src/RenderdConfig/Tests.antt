-- ===== src/RenderdConfig/Tests.antt =====
-- Configuration files that are accepted or refused.
use mod_tile.Base.{◌≢◌, ◌++◌, ◌≡◌, refl, pos, [], ◌∷◌, some, none, map}
use mod_tile.GenTile.Projection.{is_prefix}
use mod_tile.RenderdConfig.{
  ok, exits, out_of_bounds, renderd_name, section_of, MapSection, process_map_sections, words,
}
use mod_tile.TilePath.Scan.{scan_int}
use mod_tile.RenderdConfig.Number.{strtol}
use mod_tile.RenderdConfig.Daemon.{
  section_number, renderd_section, process_renderd_sections, process_config_file, Configuration,
}
use mod_tile.RenderdConfig.Active.{IsConfigured, process_config_file-IsConfigured}
use mod_tile.RenderdConfig.InBounds.{AllIndex, process_renderd_sections-in_bounds}
use mod_tile.RenderdConfig.Sections.{IsAccepted, process_map_sections-IsAccepted}
use mod_tile.RenderdConfig.Sample.{ini, build, file_with, accepted, swapped, section_a, section_b}

three_words :
    words [] (b'p' ∷ 32 ∷ 32 ∷ b'i' ∷ b'/' ∷ 32 ∷ b'q' ∷ 32 ∷ [])
    ≡ (b'p' ∷ []) ∷ (b'i' ∷ b'/' ∷ []) ∷ (b'q' ∷ []) ∷ []
unfolding words
three_words = refl

-- The other way round the first URI is the start of the second one.
refused : process_map_sections build (some swapped) [] (pos 0) ≡ exits 7
unfolding process_map_sections is_prefix
refused = refl

process_map_sections-IsAccepted_example : IsAccepted build ini (section_a ∷ section_b ∷ [])
process_map_sections-IsAccepted_example =
    process_map_sections-IsAccepted build ini [] (pos 0) (section_a ∷ section_b ∷ []) accepted

-- "renderd-1" is read as the place before the array.
before_the_array :
    process_renderd_sections build (some (file_with ((renderd_name ++ b'-' ∷ b'1' ∷ []) ∷ [])))
    ≡ out_of_bounds
unfolding process_renderd_sections is_prefix scan_int strtol
before_the_array = refl

all_index : AllIndex ini.sections
unfolding section_number is_prefix
all_index = ((λ h. tt), ((λ h. cc), ((λ h. cc), ((λ h. cc), tt))))

process_renderd_sections-in_bounds_example :
    process_renderd_sections build (some ini) ≢ out_of_bounds
process_renderd_sections-in_bounds_example = process_renderd_sections-in_bounds build ini all_index

-- A map section with the directory and the threads of the daemon
abbrev with_daemon : MapSection → MapSection
with_daemon m = record m { tile_dir = b't' ∷ []; num_threads = pos 4 }

-- The file for daemon 0
abbrev configured : Configuration
configured = record {
  slaves = some (renderd_section build ini renderd_name) ∷ none ∷ none ∷ none ∷ none ∷ [];
  active = renderd_section build ini renderd_name;
  mapnik = record { font_dir_recurses = pos 0; fonts = b'f' ∷ []; plugins = b'g' ∷ [] };
  maps = map with_daemon (section_a ∷ section_b ∷ []);
  num_slave_threads = pos 0;
}

configures : process_config_file build (some ini) (pos 0) ≡ ok configured
unfolding process_config_file process_map_sections is_prefix section_of renderd_section
configures = refl

process_config_file-IsConfigured_example : IsConfigured build ini 0 configured
process_config_file-IsConfigured_example =
    process_config_file-IsConfigured build ini 0 configured configures
