-- ===== src/StoreFile.antt =====
-- includes/store.h and src/store_file.c: the store that keeps metatiles in files.
-- The kernel's part is in the arguments: the contents of the files, how many bytes each `read` or
-- `write` moves, and whether a call succeeds.
pub mod Reads
pub mod Sound
pub mod Saved
pub mod Atomic
mod Tests
use mod_tile.Base.{
  ℕ, zero, suc, ◌+◌, ◌-◌, ◌*◌, ◌^◌, ℤ, pos, negsuc, ltb_ℤ, eq_ℤ, Bool, true, false, not, List, [],
  ◌∷◌, ◌++◌, Option, none, some, ltb, ◌==◌, if◌then◌else◌, eq_list, length, take, drop,
}
use mod_tile.FileSystem.{
  FilePath, Node, directory, file, Files, write_node, Mkdir, mkdirp, FileStat, get_planet_time,
}
use mod_tile.TilePath.{xyzo_to_meta, xyz_to_meta, decimal}
use mod_tile.Metatile.{header_size}

abbrev pub path_max : ℕ
path_max = 4096

-- What happens at the calls of `read`, in order: an error, or at most so many bytes and one more.
-- Behind the end of the list each call moves all that it is asked for.
abbrev pub Schedule : Type 0
Schedule = List (Option ℕ)

pub data ReadOutcome : Type 0 where
  read_error : ReadOutcome
  got : (bytes rest : List ℕ) → ReadOutcome

abbrev pub got_more : List ℕ → ReadOutcome → ReadOutcome
got_more front read_error = read_error
got_more front (got bytes rest) = got (front ++ bytes) rest

-- `while (pos < want)` around `read`, on the bytes of the file from its position on.
unfoldable pub read_loop : Schedule → ℕ → List ℕ → ReadOutcome
read_loop [] want bytes = got (take want bytes) (drop want bytes)
read_loop (none ∷ s) zero bytes = got [] bytes
read_loop (none ∷ s) (suc want) bytes = read_error
read_loop (some n ∷ s) zero bytes = got [] bytes
read_loop (some n ∷ s) (suc want) [] = got [] []
read_loop (some n ∷ s) (suc want) (b ∷ bytes) =
    let k = if ltb n want then n else want in
    let rest = read_loop s (want - k) (drop k bytes) in got_more (b ∷ take k bytes) rest

-- An `int` in memory, as its 32 bits
unfoldable pub get32 : List ℕ → ℕ
get32 (a ∷ b ∷ c ∷ d ∷ bytes) = a + 256 * b + 65536 * c + 16777216 * d
get32 _ = 0

-- An `int` that is stored in a `size_t`
abbrev pub to_size : ℕ → ℕ
to_size n = if ltb n (2 ^ 31) then n else 2 ^ 64 - 2 ^ 32 + n

-- The result of `tile_read`: the status or the number of bytes, the bytes of the buffer that the status
-- counts (what a failed call leaves behind in the buffer is not kept), and what was stored through
-- `compressed`.
pub record TileRead : Type 0 where
  pub status : ℤ
  pub buf : List ℕ
  pub compressed : Option Bool

abbrev pub read_failed : ℕ → Option Bool → TileRead
read_failed n c = record { status = negsuc n; buf = []; compressed = c }

abbrev pub magic : List ℕ
magic = b'M' ∷ b'E' ∷ b'T' ∷ b'A' ∷ []

abbrev pub magic_compressed : List ℕ
magic_compressed = b'M' ∷ b'E' ∷ b'T' ∷ b'Z' ∷ []

-- What the loop that reads the tile leads to.
abbrev pub tile_read : Bool → ReadOutcome → TileRead
tile_read c read_error = read_failed 7 (some c)
tile_read c (got tile rest) = record { status = pos (length tile); buf = tile; compressed = some c }

-- The tile's bytes, from the place where `lseek` has set the file.
unfoldable pub read_body : Schedule → ℕ → List ℕ → Bool → TileRead
read_body s size bytes c = tile_read c (read_loop s size bytes)

-- The entry of the index. An offset that is negative as an `int` makes `lseek` fail.
unfoldable pub read_entry : Schedule → ℕ → ℕ → List ℕ → List ℕ → Bool → TileRead
read_entry s sz meta_offset header contents c =
    if ltb sz (to_size size)
    then read_failed 5 (some c)
    else if ltb offset (2 ^ 31)
    then read_body s (to_size size) (drop offset contents) c
    else read_failed 6 (some c)
  where
    offset : ℕ
    offset = get32 (drop (20 + 8 * meta_offset) header)

    size : ℕ
    size = get32 (drop (24 + 8 * meta_offset) header)

-- The tests of the header, once it is read.
unfoldable pub read_header : Schedule → ℕ → ℕ → List ℕ → List ℕ → TileRead
unfolding read_entry
read_header s sz meta_offset header contents =
    if ltb (length header) header_size
    then read_failed 2 none
    else if eq_list (take 4 header) magic
    then counted false
    else if eq_list (take 4 header) magic_compressed
    then counted true
    else read_failed 3 none
  where
    counted : Bool → TileRead
    counted c =
        if get32 (drop 4 header) == 64
        then read_entry s sz meta_offset header contents c
        else read_failed 4 (some c)

-- What the loop that reads the header leads to.
abbrev pub header_read : Schedule → ℕ → ℕ → List ℕ → ReadOutcome → TileRead
header_read s sz meta_offset contents read_error = read_failed 1 none
header_read s sz meta_offset contents (got header rest) =
    read_header s sz meta_offset header contents

-- `open` of the metatile and what follows.
unfoldable pub read_file : Schedule → Schedule → ℕ → ℕ → Option (List ℕ) → TileRead
read_file s1 s2 sz meta_offset none = read_failed 0 none
read_file s1 s2 sz meta_offset (some contents) =
    header_read s2 sz meta_offset contents (read_loop s1 header_size contents)

-- `file_tile_read`, with the schedules of its two loops. `malloc_ok` tells whether there is memory for
-- the header.
unfoldable pub file_tile_read :
    Bool
    → Schedule
    → Schedule
    → (FilePath → Option (List ℕ))
    → FilePath
    → List ℕ
    → List ℕ
    → ℤ
    → ℤ
    → ℤ
    → ℕ
    → TileRead
unfolding read_file xyzo_to_meta
file_tile_read malloc_ok s1 s2 open_file tile_dir xmlconfig options x y z sz =
    let (meta_offset, path) = xyzo_to_meta path_max tile_dir xmlconfig options x y z in
    if not malloc_ok then read_failed 0 none else read_file s1 s2 sz meta_offset (open_file path)

-- `struct stat_info`
pub record StatInfo : Type 0 where
  pub size : ℤ
  pub atime : ℤ
  pub mtime : ℤ
  pub ctime : ℤ
  pub expired : Bool

-- `file_tile_stat`
unfoldable pub file_tile_stat :
    (FilePath → Option FileStat) → ℤ → FilePath → List ℕ → List ℕ → ℤ → ℤ → ℤ → StatInfo
unfolding get_planet_time xyzo_to_meta
file_tile_stat stat three_days_ago tile_dir xmlconfig options x y z = elim (stat path) [
  | none ↦ record {
    size = negsuc 0;
    atime = pos 0;
    mtime = pos 0;
    ctime = pos 0;
    expired = ltb_ℤ (pos 0) planet;
  }
  | some s ↦ record {
    size = s.st_size;
    atime = s.st_atime;
    mtime = s.st_mtime;
    ctime = s.st_ctime;
    expired = ltb_ℤ s.st_mtime planet;
  }
]
  where
    path : FilePath
    path = (xyzo_to_meta path_max tile_dir xmlconfig options x y z).1

    planet : ℤ
    planet = get_planet_time stat three_days_ago tile_dir xmlconfig

-- What the kernel does at the calls of one write: `written` is the result of `write`.
pub record WriteCalls : Type 0 where
  pub malloc_ok : Bool
  pub mkdir : FilePath → Mkdir
  pub open_ok : Bool
  pub written : ℤ
  pub rename_ok : Bool
  pub thread : ℕ

-- The temporary file holds what was written of the buffer.
abbrev pub partly : ℤ → List ℕ → List ℕ
partly (pos n) buf = take n buf
partly (negsuc n) buf = []

-- The last step: the temporary file takes the name of the metatile, or goes.
unfoldable pub rename_tmp : WriteCalls → Files → FilePath → FilePath → List ℕ → ℤ × Files
rename_tmp k fs tmp meta_path buf =
    if k.rename_ok
    then (pos (length buf), write_node (write_node fs meta_path (fs tmp)) tmp none)
    else (negsuc 0, write_node fs tmp none)

unfoldable pub write_tmp : WriteCalls → Files → FilePath → FilePath → List ℕ → ℤ × Files
write_tmp k fs tmp meta_path buf =
    if not k.open_ok
    then (negsuc 0, fs)
    else if eq_ℤ k.written (pos (length buf))
    then rename_tmp k fs' tmp meta_path buf
    else (negsuc 0, fs')
  where
    fs' : Files
    fs' = write_node fs tmp (some (file (partly k.written buf)))

-- `file_metatile_write`
unfoldable pub file_metatile_write :
    WriteCalls → FilePath → List ℕ → List ℕ → ℤ → ℤ → ℤ → List ℕ → Files → ℤ × Files
file_metatile_write k tile_dir xmlconfig options x y z buf fs =
    let meta_path = (xyzo_to_meta path_max tile_dir xmlconfig options x y z).1 in
    let tmp = meta_path ++ b'.' ∷ decimal k.thread in
    let (err, fs') = mkdirp k.mkdir fs tmp in
    if not k.malloc_ok
    then (negsuc 0, fs)
    else if err
    then (negsuc 0, fs')
    else write_tmp k fs' tmp meta_path buf

-- `file_metatile_delete`; `unlink_ok` tells whether the kernel lets the file go.
unfoldable pub file_metatile_delete : Bool → FilePath → List ℕ → ℤ → ℤ → ℤ → Files → ℤ × Files
unfolding xyz_to_meta
file_metatile_delete unlink_ok tile_dir xmlconfig x y z fs =
    if unlink_ok then (pos 0, write_node fs path none) else (negsuc 0, fs)
  where
    path : FilePath
    path = (xyz_to_meta path_max tile_dir xmlconfig x y z).1
