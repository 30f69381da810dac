-- ===== src/StoreFile/Saved.antt =====
-- src/metatile.cpp, `save`, with src/store_file.c, `file_tile_read`: the bytes of every tile come back.
use mathlib.Core.List.{append_assoc}
use mod_tile.Base.{
  ℕ, ◌+◌, ◌*◌, ◌/◌, ◌%◌, ◌^◌, ◌≤◌, ◌<◌, ◌≡◌, refl, sym, ◌∙◌, ap, ℤ, pos, true, false, List, ◌++◌,
  Option, some, arith, length, take, drop, take-append, drop-append, drop_split, length-append, ltb,
}
use mod_tile.FileSystem.{FilePath}
use mod_tile.TilePath.{xyzo_to_meta, clear_low, meta_path}
use mod_tile.Metatile.{
  MetaTile, header_size, cell, le32, layout_bytes, entry_bytes, metatile_buffer,
}
use mod_tile.Metatile.Buffer.{
  IsAligned, entries, tiles, metatile_buffer_lem, length-entries, length-entry_bytes,
}
use mod_tile.Metatile.Layout.{entries-at, tiles-at, tiles-within}
use mod_tile.StoreFile.{
  Schedule, get32, tile_read, header_read, read_body, read_entry, read_header, read_file,
  file_tile_read, path_max,
}
use mod_tile.StoreFile.Reads.{error_free, read_loop_lem}

-- An `int` of the file is read as it was written.
get32-le32 : (n : ℕ) (bytes : List ℕ) → n < 2 ^ 32 → get32 (le32 n ++ bytes) ≡ n
unfolding get32 le32
get32-le32 n bytes h = omega arith

after_le32 : (n : ℕ) (bytes : List ℕ) → drop 4 (le32 n ++ bytes) ≡ bytes
unfolding le32
after_le32 n bytes = refl

module _ (m : MetaTile) (v : IsAligned m)
    (fits : header_size + length (tiles m 64 0) < 2 ^ 31) where
  abbrev header : List ℕ
  header = layout_bytes m ++ entry_bytes (entries m 64 0 header_size)

  abbrev payload : List ℕ
  payload = tiles m 64 0

  length-header : length header ≡ header_size
  length-header = omega (
    arith,
    length-append (layout_bytes m) (entry_bytes (entries m 64 0 header_size)),
    length-entry_bytes (entries m 64 0 header_size),
    length-entries m 64 0 header_size,
    length-layout,
  )
    where
      length-layout : length (layout_bytes m) ≡ 20
      length-layout = unfold layout_bytes in refl

  cell_0 : (j : ℕ) → cell m (0 + j) ≡ cell m j
  cell_0 j = ap (cell m) (omega arith)

  cell-within : (j : ℕ) → j < 64 → header_size + length (tiles m j 0) + length (cell m j) < 2 ^ 31
  cell-within j h = omega (arith, fits, tiles-within m 64 0 j h, ap length (cell_0 j))

  entry_at :
      (j : ℕ)
      → j < 64
      → (rest : List ℕ) × (drop (20 + 8 * j) header
          ≡ le32 (header_size + length (tiles m j 0)) ++ (le32 (length (cell m j)) ++ rest))
  entry_at j h =
      let (rest, e) = entries-at m 64 0 j header_size h in
      (
        rest,
        drop-append (20 + 8 * j) (8 * j) (layout_bytes m) (entry_bytes (entries m 64 0 header_size))
              (unfold layout_bytes in refl)
            ∙ e
            ∙ ap (λ c. le32 (header_size + length (tiles m j 0)) ++ (le32 (length c) ++ rest))
                (cell_0 j),
      )

  read_offset :
      (j : ℕ) → j < 64 → get32 (drop (20 + 8 * j) header) ≡ header_size + length (tiles m j 0)
  read_offset j h =
      let (rest, e) = entry_at j h in
      ap get32 e
      ∙ get32-le32 (header_size + length (tiles m j 0)) _ (omega (arith, cell-within j h))

  read_size : (j : ℕ) → j < 64 → get32 (drop (24 + 8 * j) header) ≡ length (cell m j)
  read_size j h =
      let (rest, e) = entry_at j h in
      ap get32 (
        sym (drop_split (20 + 8 * j) (24 + 8 * j) header (omega arith))
        ∙ ap (λ n. drop n (drop (20 + 8 * j) header)) {y = 4} (omega arith)
        ∙ ap (drop 4) e
        ∙ after_le32 (header_size + length (tiles m j 0)) (le32 (length (cell m j)) ++ rest))
      ∙ get32-le32 (length (cell m j)) rest (omega (arith, cell-within j h))

  tile_bytes :
      (j : ℕ)
      → j < 64
      → take (length (cell m j)) (drop (header_size + length (tiles m j 0)) (header ++ payload))
        ≡ cell m j
  tile_bytes j h =
      let (rest, e) = tiles-at m 64 0 j h in
      ap (take (length (cell m j))) (
        drop-append (header_size + length (tiles m j 0)) (length (tiles m j 0)) header payload
          (omega (arith, length-header))
        ∙ e)
      ∙ rw (cell_0 j) (take-append (length (cell m j)) (cell m j) rest refl)

  read_body-saved :
      (s : Schedule) (j : ℕ)
      → error_free s ≡ true
      → j < 64
      → read_body s
          (length (cell m j))
          (drop (header_size + length (tiles m j 0)) (header ++ payload))
          false
        ≡ record { status = pos (length (cell m j)); buf = cell m j; compressed = some false }
  unfolding read_body
  read_body-saved s j h k =
      ap (tile_read false) (
        read_loop_lem s (length (cell m j))
          (drop (header_size + length (tiles m j 0)) (header ++ payload)) h)
      ∙ rw (tile_bytes j k) refl

  read_entry-saved :
      (s : Schedule) (sz j : ℕ)
      → error_free s ≡ true
      → j < 64
      → length (cell m j) ≤ sz
      → read_entry s sz j header (header ++ payload) false
        ≡ record { status = pos (length (cell m j)); buf = cell m j; compressed = some false }
  unfolding read_entry
  read_entry-saved s sz j h k r =
      rw (read_size j k, read_offset j k, small, offset, enough) (read_body-saved s j h k)
    where
      small : ltb (length (cell m j)) (2 ^ 31) ≡ true
      small = ground (arith, cell-within j k)

      offset : ltb (header_size + length (tiles m j 0)) (2 ^ 31) ≡ true
      offset = ground (arith, cell-within j k)

      enough : ltb sz (length (cell m j)) ≡ false
      enough = ground (arith, r)

  read_header-saved :
      (s : Schedule) (sz j : ℕ)
      → read_header s sz j header (header ++ payload)
        ≡ read_entry s sz j header (header ++ payload) false
  unfolding read_header layout_bytes le32 get32
  read_header-saved s sz j = rw length-header refl

  read_file-saved :
      (s1 s2 : Schedule) (sz j : ℕ)
      → error_free s1 ≡ true
      → error_free s2 ≡ true
      → j < 64
      → length (cell m j) ≤ sz
      → read_file s1 s2 sz j (some (metatile_buffer m))
        ≡ record { status = pos (length (cell m j)); buf = cell m j; compressed = some false }
  unfolding read_file
  read_file-saved s1 s2 sz j h1 h2 k r =
      ap (λ b. read_file s1 s2 sz j (some b))
        (metatile_buffer_lem m v
          ∙ sym (append_assoc (layout_bytes m) (entry_bytes (entries m 64 0 header_size)) payload))
      ∙ ap (header_read s2 sz j (header ++ payload))
          (read_loop_lem s1 header_size (header ++ payload) h1)
      ∙ ap (λ t. read_header s2 sz j t (header ++ payload))
          (take-append header_size header payload (sym length-header))
      ∙ read_header-saved s2 sz j
      ∙ read_entry-saved s2 sz j h2 k r

-- All tiles of a metatile are in the same file, at the offsets that `save` counts in.
xyzo_to_meta-same :
    (m : MetaTile) (i j : ℕ) (tile_dir : FilePath) (z : ℤ)
    → IsAligned m
    → i < 8
    → j < 8
    → xyzo_to_meta path_max tile_dir m.xmlconfig_ m.options_ (pos (m.x_ + i)) (pos (m.y_ + j)) z ≡ (
      i * 8 + j,
      (xyzo_to_meta path_max tile_dir m.xmlconfig_ m.options_ (pos m.x_) (pos m.y_) z).1,
    )
unfolding xyzo_to_meta clear_low
xyzo_to_meta-same m i j tile_dir z v hi hj =
    ap (λ k. (k, path ((m.x_ + i) / 8 * 8) ((m.y_ + j) / 8 * 8))) (omega (arith, v.column, v.row))
    ∙ ap (λ a. (i * 8 + j, path a ((m.y_ + j) / 8 * 8))) {y = m.x_ / 8 * 8}
        (omega (arith, v.column))
    ∙ ap (λ b. (i * 8 + j, path (m.x_ / 8 * 8) b)) (omega (arith, v.row))
  where
    path : ℕ → ℕ → FilePath
    path a b = take 4095 (meta_path tile_dir m.xmlconfig_ m.options_ (pos a) (pos b) z)

cell-tile : (m : MetaTile) (i j : ℕ) → j < 8 → cell m (i * 8 + j) ≡ m.tile i j
unfolding cell
cell-tile m i j h =
    ap (λ a. m.tile a ((i * 8 + j) % 8)) {y = i} (omega arith) ∙ ap (m.tile i) (omega arith)

-- A metatile with its corner at multiples of 8, whose buffer is shorter than 2^31 bytes, and whose
-- saved buffer is the content of the file at the metatile's path: where the reads meet no error,
-- however few bytes each one returns, `file_tile_read` of the tile i, j of the metatile fills the
-- caller's buffer with just this tile's bytes and returns their number, if the buffer is large enough.
pub file_tile_read-save :
    (m : MetaTile) (i j : ℕ) (s1 s2 : Schedule) (open_file : FilePath → Option (List ℕ))
    (tile_dir : FilePath) (z : ℤ) (sz : ℕ)
    → IsAligned m
    → header_size + length (tiles m 64 0) < 2 ^ 31
    → i < 8
    → j < 8
    → error_free s1 ≡ true
    → error_free s2 ≡ true
    → open_file (xyzo_to_meta path_max tile_dir m.xmlconfig_ m.options_ (pos m.x_) (pos m.y_) z).1
      ≡ some (metatile_buffer m)
    → length (m.tile i j) ≤ sz
    → file_tile_read true s1 s2 open_file tile_dir m.xmlconfig_ m.options_
        (pos (m.x_ + i))
        (pos (m.y_ + j))
        z
        sz
      ≡ record { status = pos (length (m.tile i j)); buf = m.tile i j; compressed = some false }
unfolding file_tile_read
file_tile_read-save m i j s1 s2 open_file tile_dir z sz v fits hi hj h1 h2 content r =
    ap (λ p. read_file s1 s2 sz p.0 (open_file p.1)) (xyzo_to_meta-same m i j tile_dir z v hi hj)
    ∙ ap (read_file s1 s2 sz (i * 8 + j)) content
    ∙ read_file-saved m v fits s1 s2 sz (i * 8 + j) h1 h2 (omega arith)
        (omega (arith, r, ap length (cell-tile m i j hj)))
    ∙ ap (λ t. record { status = pos (length t); buf = t; compressed = some false })
        (cell-tile m i j hj)
