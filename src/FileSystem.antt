-- ===== src/FileSystem.antt =====
-- The files that the tile store works on, and src/store_file_utils.c, `mkdirp` and `get_planet_time`.
-- A path is the list of its bytes, shorter than PATH_MAX. What the kernel decides (whether a call
-- succeeds, the times of a file) is an argument.
pub mod Mkdirp
use mod_tile.Base.{
  ℕ, ◌+◌, ◌-◌, ◌*◌, ℤ, pos, negsuc, Bool, true, false, List, [], ◌∷◌, ◌++◌, Option, none, some,
  ◌==◌, if◌then◌else◌, eq_list,
}

abbrev pub FilePath : Type 0
FilePath = List ℕ

pub data Node : Type 0 where
  directory : Node
  file : List ℕ → Node

-- What a path names, if anything.
abbrev pub Files : Type 0
Files = FilePath → Option Node

abbrev pub write_node : Files → FilePath → Option Node → Files
write_node fs p n q = if eq_list p q then n else fs q

-- What `mkdir` does at a path: it succeeds, or fails with EEXIST, or in another way.
pub data Mkdir : Type 0 where
  made exists failed : Mkdir

-- The text before the last slash
unfoldable pub parent : FilePath → Option FilePath
parent [] = none
parent (c ∷ p) = elim (parent p) [
  | some q ↦ some (c ∷ q)
  | none ↦ if c == b'/' then some [] else none
]

-- One element of the path must be a directory, or become one. The flag tells of an error.
unfoldable pub mkdir_element : (FilePath → Mkdir) → Files → FilePath → Bool × Files
mkdir_element mkdir fs p = elim (fs p) [
  | some directory ↦ (false, fs)
  | some (file bytes) ↦ (true, fs)
  | none ↦ elim (mkdir p) [
    | made ↦ (false, write_node fs p (some directory))
    | exists ↦ (false, fs)
    | failed ↦ (true, fs)
  ]
]

-- The loop over the path, with the part that is behind it and the part that is ahead.
unfoldable pub mkdir_loop : (FilePath → Mkdir) → Files → FilePath → FilePath → Bool × Files
unfolding mkdir_element
mkdir_loop mkdir fs behind [] = (false, fs)
mkdir_loop mkdir fs behind (c ∷ ahead) =
    let (err, fs') = if c == b'/' then mkdir_element mkdir fs behind else (false, fs) in
    let rest = mkdir_loop mkdir fs' (behind ++ c ∷ []) ahead in if err then (true, fs') else rest

-- The `stat` of the whole directory: nothing to do, no directory, or the loop.
unfoldable pub mkdir_missing :
    (FilePath → Mkdir) → Files → ℕ → FilePath → Option Node → Bool × Files
unfolding mkdir_loop
mkdir_missing mkdir fs c path (some directory) = (false, fs)
mkdir_missing mkdir fs c path (some (file bytes)) = (true, fs)
mkdir_missing mkdir fs c path none = mkdir_loop mkdir fs (c ∷ []) path

unfoldable pub mkdir_above :
    (FilePath → Mkdir) → Files → ℕ → FilePath → Option FilePath → Bool × Files
unfolding mkdir_missing
mkdir_above mkdir fs c path none = (false, fs)
mkdir_above mkdir fs c path (some dir) = mkdir_missing mkdir fs c path (fs dir)

-- `mkdirp`: the directories above a file. The loop starts behind the first character.
unfoldable pub mkdirp : (FilePath → Mkdir) → Files → FilePath → Bool × Files
unfolding mkdir_above
mkdirp mkdir fs [] = (false, fs)
mkdirp mkdir fs (c ∷ path) = mkdir_above mkdir fs c path (parent (c ∷ path))

-- `struct stat` as far as the program reads it
pub record FileStat : Type 0 where
  pub st_size : ℤ
  pub st_mtime : ℤ
  pub st_atime : ℤ
  pub st_ctime : ℤ

-- "/planet-import-complete"
abbrev planet_timestamp : List ℕ
planet_timestamp =
    b'/' ∷ b'p' ∷ b'l' ∷ b'a' ∷ b'n' ∷ b'e' ∷ b't' ∷ b'-' ∷ b'i' ∷ b'm' ∷ b'p' ∷ b'o' ∷ b'r' ∷ b't'
    ∷ b'-' ∷ b'c' ∷ b'o' ∷ b'm' ∷ b'p' ∷ b'l' ∷ b'e' ∷ b't' ∷ b'e' ∷ []

-- The global time stamp file, or else three days before now
planet_fallback : (FilePath → Option FileStat) → (three_days_ago : ℤ) → FilePath → ℤ
planet_fallback stat three_days_ago tile_dir = elim (stat (tile_dir ++ b'/' ∷ planet_timestamp)) [
  | some s ↦ s.st_mtime
  | none ↦ three_days_ago
]

-- `get_planet_time`
unfoldable pub get_planet_time : (FilePath → Option FileStat) → ℤ → FilePath → List ℕ → ℤ
unfolding planet_fallback
get_planet_time stat three_days_ago tile_dir [] = planet_fallback stat three_days_ago tile_dir
get_planet_time stat three_days_ago tile_dir (c ∷ xmlname) =
    elim (stat (tile_dir ++ b'/' ∷ (c ∷ xmlname) ++ b'/' ∷ planet_timestamp)) [
      | some s ↦ s.st_mtime
      | none ↦ planet_fallback stat three_days_ago tile_dir
    ]
