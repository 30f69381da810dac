-- ===== src/Store/Tests.antt =====
-- Stores that are opened from a text, and the memory that this takes.
use mod_tile.Base.{ℕ, ◌≡◌, refl, true, List, [], ◌∷◌, ◌++◌, none, some, eq_list, if◌then◌else◌}
use mod_tile.GenTile.Projection.{is_prefix}
use mod_tile.Store.Memory.{Blocks, malloc, free, frees}
use mod_tile.Store.{
  file_store, null_store, composite_store, refused, overruns, opened, no_path, a_directory,
  StoreCalls, init_storage_backend, composite_scheme, null_scheme,
}

abbrev tiles : List ℕ
tiles = b'/' ∷ b't' ∷ []

-- One directory; the stores of other libraries are not compiled in.
abbrev world : StoreCalls
world = record {
  malloc_succeeds = λ n. true;
  stat = λ path. if eq_list path tiles then a_directory else no_path;
  init_remote = λ r options h. (none, h);
}

abbrev empty : Blocks
empty = record { next = 0; live = []; invalid_frees = 0 }

-- "composite:{a,/t}{b,null://}"
abbrev over_null : List ℕ
over_null =
    composite_scheme
    ++ (b'a' ∷ b',' ∷ b'/' ∷ b't' ∷ b'}' ∷ b'{' ∷ b'b' ∷ b',' ∷ [])
    ++ null_scheme
    ++ (b'}' ∷ [])

-- "composite:{a,/t}{b,/u}", with no directory "/u"
abbrev over_nothing : List ℕ
over_nothing =
    composite_scheme
    ++ (b'a' ∷ b',' ∷ b'/' ∷ b't' ∷ b'}' ∷ b'{' ∷ b'b' ∷ b',' ∷ b'/' ∷ b'u' ∷ b'}' ∷ [])

-- "composite:{a}{"
abbrev cut_off : List ℕ
cut_off = composite_scheme ++ (b'a' ∷ b'}' ∷ b'{' ∷ [])

opens : init_storage_backend 3 world over_null empty ≡ (
  opened (composite_store 0 1 (b'a' ∷ []) (file_store tiles 4 (some 5)) (b'b' ∷ []) (null_store 6)),
  record { next = 7; live = 6 ∷ 5 ∷ 4 ∷ 1 ∷ 0 ∷ []; invalid_frees = 0 },
)
unfolding init_storage_backend malloc frees free is_prefix
opens = refl

refuses :
    init_storage_backend 3 world over_nothing empty
    ≡ (refused, record { next = 6; live = []; invalid_frees = 0 })
unfolding init_storage_backend malloc frees free is_prefix
refuses = refl

-- The last byte of an empty text is cut off.
writes_before_the_block :
    init_storage_backend 3 world cut_off empty
    ≡ (overruns, record { next = 4; live = 3 ∷ 2 ∷ 1 ∷ 0 ∷ []; invalid_frees = 0 })
unfolding init_storage_backend malloc frees free is_prefix
writes_before_the_block = refl
