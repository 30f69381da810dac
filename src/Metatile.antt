-- ===== src/Metatile.antt =====
-- includes/metatile.h and src/metatile.cpp: the 8 x 8 tiles that are rendered together, and the file
-- that they are saved to: a header, an index of 64 entries, and the tiles behind it. An `int` of the
-- file is four bytes, the low one first, as on the machines that the packages are built for.
pub mod Buffer
pub mod Layout
use mod_tile.Base.{
  ℕ, zero, suc, ◌+◌, ◌-◌, ◌*◌, ◌/◌, ◌%◌, Bool, ◌&&◌, List, [], ◌∷◌, ◌++◌, ◌==◌, if◌then◌else◌,
  length, get_or, set, take, drop, replicate,
}

abbrev pub metatile : ℕ
metatile = 8

-- `class metaTile`
pub record MetaTile : Type 0 where
  pub x_ : ℕ
  pub y_ : ℕ
  pub z_ : ℕ
  pub xmlconfig_ : List ℕ
  pub options_ : List ℕ
  pub tile : ℕ → ℕ → List ℕ

-- `metaTile::clear`
unfoldable pub clear : MetaTile → MetaTile
clear m = record m { tile = λ x y. [] }

-- The constructor
unfoldable pub new_metatile : List ℕ → List ℕ → ℕ → ℕ → ℕ → MetaTile
unfolding clear
new_metatile xmlconfig options x y z = clear (record {
  x_ = x;
  y_ = y;
  z_ = z;
  xmlconfig_ = xmlconfig;
  options_ = options;
  tile = λ x y. [];
})

-- `metaTile::set` and `metaTile::get`
unfoldable pub set_tile : MetaTile → ℕ → ℕ → List ℕ → MetaTile
set_tile m x y bytes = record m { tile = λ i j. if (i == x) && (j == y) then bytes else m.tile i j }

unfoldable pub get_tile : MetaTile → ℕ → ℕ → List ℕ
get_tile m x y = m.tile x y

-- `struct entry`
pub record Entry : Type 0 where
  pub offset : ℕ
  pub size : ℕ

abbrev pub no_entry : Entry
no_entry = record { offset = 0; size = 0 }

abbrev pub header_size : ℕ
header_size = 20 + 8 * 64

-- `metaTile::xyz_to_meta_offset`
abbrev pub xyz_to_meta_offset : ℕ → ℕ → ℕ
xyz_to_meta_offset x y = x % metatile * metatile + y % metatile

-- The rounds of `for (ox ...) for (oy ...)`, a round being `ox * 8 + oy`.
abbrev pub ox : ℕ → ℕ
ox k = k / metatile

abbrev pub oy : ℕ → ℕ
oy k = k % metatile

pub cell_index : MetaTile → ℕ → ℕ
cell_index m k = xyz_to_meta_offset (m.x_ + ox k) (m.y_ + oy k)

unfoldable pub cell : MetaTile → ℕ → List ℕ
cell m k = m.tile (ox k) (oy k)

-- The loop that generates the offset table: `n` rounds from round `k` on, with the table and the
-- running offset.
pub offset_table : MetaTile → ℕ → ℕ → List Entry → ℕ → List Entry × ℕ
unfolding cell_index cell
offset_table m zero k table offset = (table, offset)
offset_table m (suc n) k table offset =
    let size = length (cell m k) in
    offset_table m n (k + 1) (set table (cell_index m k) (record { offset = offset; size = size }))
      (offset + size)

-- An `int` in memory
unfoldable pub le32 : ℕ → List ℕ
le32 n = n % 256 ∷ n / 256 % 256 ∷ n / 65536 % 256 ∷ n / 16777216 % 256 ∷ []

-- `struct meta_layout` without its index; the four bytes are "META".
unfoldable pub layout_bytes : MetaTile → List ℕ
unfolding le32
layout_bytes m = b'M' ∷ b'E' ∷ b'T' ∷ b'A' ∷ (le32 64 ++ (le32 m.x_ ++ (le32 m.y_ ++ le32 m.z_)))

pub entry_bytes : List Entry → List ℕ
unfolding le32
entry_bytes [] = []
entry_bytes (e ∷ es) = le32 e.offset ++ (le32 e.size ++ entry_bytes es)

-- `memcpy(buffer + offset, source, length(source))`
abbrev pub memcpy : List ℕ → ℕ → List ℕ → List ℕ
memcpy buffer offset source = take offset buffer ++ (source ++ drop (offset + length source) buffer)

-- The loop that writes the tiles: `n` rounds from round `k` on.
pub write_tiles : MetaTile → List Entry → ℕ → ℕ → List ℕ → List ℕ
unfolding cell_index cell
write_tiles m table zero k buffer = buffer
write_tiles m table (suc n) k buffer =
    write_tiles m table n (k + 1)
      (memcpy buffer (get_or table (cell_index m k) no_entry).offset (cell m k))

-- The buffer of `size` bytes: zeros, then the header, the index and the tiles written over them.
pub fill_buffer : MetaTile → List Entry × ℕ → List ℕ
fill_buffer m (offsets, size) =
    write_tiles m offsets 64 0
      (memcpy (memcpy (replicate size 0) 0 (layout_bytes m)) 20 (entry_bytes offsets))

-- What `metaTile::save` hands to the store, where the memory for it can be had.
unfoldable pub metatile_buffer : MetaTile → List ℕ
unfolding fill_buffer
metatile_buffer m = fill_buffer m (offset_table m 64 0 (replicate 64 no_entry) header_size)

-- `metaTile::save`; `metatile_write` is the store's, and tells how many bytes it took.
unfoldable pub save :
    {State : Type 0}
    → (List ℕ → List ℕ → ℕ → ℕ → ℕ → List ℕ → State → State)
    → (malloc_ok : Bool) → MetaTile
    → State
    → State
unfolding metatile_buffer
save metatile_write malloc_ok m s =
    if malloc_ok
    then metatile_write m.xmlconfig_ m.options_ m.x_ m.y_ m.z_ (metatile_buffer m) s
    else s
