-- ===== src/StoreFile/Tests.antt =====
-- Runs of src/store_file.c on concrete files.
use mod_tile.Base.{
  ℕ, ◌+◌, ◌<◌, ◌^◌, ◌≡◌, refl, pos, true, false, ◌&&◌, List, [], ◌∷◌, Option, none, some, arith,
  ◌==◌, if◌then◌else◌, eq_list, eq_list_refl, length,
}
use mod_tile.FileSystem.{FilePath, Files, made}
use mod_tile.TilePath.{xyzo_to_meta}
use mod_tile.Metatile.{MetaTile, metatile_buffer, header_size, cell}
use mod_tile.Metatile.Buffer.{tiles}
use mod_tile.StoreFile.{file_tile_read, WriteCalls, file_metatile_write, path_max}
use mod_tile.StoreFile.Saved.{file_tile_read-save}
use mod_tile.StoreFile.Sound.{IsLegal, file_tile_read-IsLegal}
use mod_tile.StoreFile.Atomic.{Written, file_metatile_write-Written}

abbrev tile_dir : FilePath
tile_dir = b'/' ∷ b't' ∷ []

abbrev style : List ℕ
style = b's' ∷ []

-- A metatile with one tile of three bytes.
abbrev one_tile : MetaTile
one_tile = record {
  x_ = 8;
  y_ = 16;
  z_ = 5;
  xmlconfig_ = style;
  options_ = [];
  tile = λ i j. if (i == 1) && (j == 2) then 7 ∷ 8 ∷ 9 ∷ [] else [];
}

abbrev meta_file : FilePath
meta_file = (xyzo_to_meta path_max tile_dir style [] (pos 8) (pos 16) (pos 5)).1

abbrev disk : FilePath → Option (List ℕ)
disk p = if eq_list p meta_file then some (metatile_buffer one_tile) else none

one_tile_fits : header_size + length (tiles one_tile 64 0) < 2 ^ 31
unfolding tiles cell
one_tile_fits = omega arith

on_disk : disk meta_file ≡ some (metatile_buffer one_tile)
on_disk = rw (eq_list_refl meta_file) refl

file_tile_read-save_example :
    file_tile_read true
      (some 3 ∷ some 0 ∷ [])
      (some 0 ∷ [])
      disk
      tile_dir
      style
      []
      (pos 9)
      (pos 18)
      (pos 5)
      100
    ≡ record { status = pos 3; buf = 7 ∷ 8 ∷ 9 ∷ []; compressed = some false }
file_tile_read-save_example =
    file_tile_read-save one_tile 1 2 (some 3 ∷ some 0 ∷ []) (some 0 ∷ []) disk tile_dir (pos 5) 100
      (record { column = refl; row = refl }) one_tile_fits (omega arith) (omega arith) refl refl
      on_disk (omega arith)

file_tile_read-IsLegal_example :
    IsLegal 2 (file_tile_read true [] (none ∷ []) disk tile_dir style [] (pos 9) (pos 18) (pos 5) 2)
file_tile_read-IsLegal_example =
    file_tile_read-IsLegal true [] (none ∷ []) disk tile_dir style [] (pos 9) (pos 18) (pos 5) 2

abbrev full_disk : WriteCalls
full_disk = record {
  malloc_ok = true;
  mkdir = λ p. made;
  open_ok = true;
  written = pos 2;
  rename_ok = true;
  thread = 42;
}

abbrev empty_disk : Files
empty_disk p = none

file_metatile_write-Written_example :
    let (status, fs) =
      file_metatile_write full_disk tile_dir style []
        (pos 8)
        (pos 16)
        (pos 5)
        (1 ∷ 2 ∷ 3 ∷ [])
        empty_disk in
    Written none (1 ∷ 2 ∷ 3 ∷ []) status (fs meta_file)
file_metatile_write-Written_example =
    file_metatile_write-Written full_disk tile_dir style [] (pos 8) (pos 16) (pos 5)
      (1 ∷ 2 ∷ 3 ∷ []) empty_disk
