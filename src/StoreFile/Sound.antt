-- ===== src/StoreFile/Sound.antt =====
-- src/store_file.c, `file_tile_read`: whatever the file holds and however the reads go, the call fails
-- or fills a part of the caller's buffer.
use mod_tile.Base.{
  ℕ, ℤ, pos, ◌≤◌, ◌≡◌, refl, Bool, true, false, List, Option, none, some, arith, Bool-cases, inl,
  inr, length, take, drop, ltb, eq_list, ◌==◌, ◌+◌, ◌*◌, ◌^◌, if◌then◌else◌,
}
use mod_tile.FileSystem.{FilePath}
use mod_tile.TilePath.{xyzo_to_meta}
use mod_tile.Metatile.{header_size}
use mod_tile.StoreFile.{
  Schedule, ReadOutcome, read_error, got, read_loop, get32, to_size, TileRead, read_failed,
  read_body, read_entry, read_header, read_file, file_tile_read, magic, magic_compressed, path_max,
}
use mod_tile.StoreFile.Reads.{read_loop_bound}

-- What `tile_read` may return, for a buffer of `sz` bytes.
pub data IsLegal (sz : ℕ) : TileRead → Type 0 where
  failed : (n : ℕ) (c : Option Bool) → IsLegal sz (read_failed n c)
  filled :
      (tile : List ℕ) (c : Bool)
      → length tile ≤ sz
      → IsLegal sz (record { status = pos (length tile); buf = tile; compressed = some c })

data ReadCases (s : Schedule) (want : ℕ) (bytes : List ℕ) : Type 0 where
  at_error : read_loop s want bytes ≡ read_error → ReadCases s want bytes
  at_end : (t u : List ℕ) → read_loop s want bytes ≡ got t u → ReadCases s want bytes

read-cases : (s : Schedule) (want : ℕ) (bytes : List ℕ) → ReadCases s want bytes
read-cases s want bytes = of (read_loop s want bytes) refl
  where
    of : (r : ReadOutcome) → read_loop s want bytes ≡ r → ReadCases s want bytes
    of read_error e = at_error e
    of (got t u) e = at_end t u e

module _ (s : Schedule) (sz : ℕ) where
  read_body-IsLegal :
      (size : ℕ) (bytes : List ℕ) (c : Bool) → size ≤ sz → IsLegal sz (read_body s size bytes c)
  unfolding read_body
  read_body-IsLegal size bytes c h = elim (read-cases s size bytes) [
    | at_error e ↦ rw e (failed 7 (some c))
    | at_end t u e ↦ rw e (filled t c (omega (arith, read_loop_bound s size bytes t u e)))
  ]

  read_entry-IsLegal :
      (k : ℕ) (header contents : List ℕ) (c : Bool)
      → IsLegal sz (read_entry s sz k header contents c)
  unfolding read_entry
  read_entry-IsLegal k header contents c =
      let offset = get32 (drop (20 + 8 * k) header) in
      let size = to_size (get32 (drop (24 + 8 * k) header)) in
      elim (Bool-cases (ltb sz size)) [
        | inl e ↦ rw e (failed 5 (some c))
        | inr e ↦ elim (Bool-cases (ltb offset (2 ^ 31))) [
          | inl f ↦ rw (e, f) (read_body-IsLegal size (drop offset contents) c (ground arith))
          | inr f ↦ rw (e, f) (failed 6 (some c))
        ]
      ]

  read_header-IsLegal :
      (k : ℕ) (header contents : List ℕ) → IsLegal sz (read_header s sz k header contents)
  unfolding read_header
  read_header-IsLegal k header contents = elim (Bool-cases (ltb (length header) header_size)) [
    | inl e ↦ rw e (failed 2 none)
    | inr e ↦ elim (Bool-cases (eq_list (take 4 header) magic)) [
      | inl f ↦ rw (e, f) (counted false)
      | inr f ↦ elim (Bool-cases (eq_list (take 4 header) magic_compressed)) [
        | inl g ↦ rw (e, f, g) (counted true)
        | inr g ↦ rw (e, f, g) (failed 3 none)
      ]
    ]
  ]
    where
      counted :
          (c : Bool)
          → IsLegal sz (
              if get32 (drop 4 header) == 64
              then read_entry s sz k header contents c
              else read_failed 4 (some c))
      counted c = elim (Bool-cases (get32 (drop 4 header) == 64)) [
        | inl e ↦ rw e (read_entry-IsLegal k header contents c)
        | inr e ↦ rw e (failed 4 (some c))
      ]

  read_file-IsLegal :
      (s1 : Schedule) (k : ℕ) (found : Option (List ℕ)) → IsLegal sz (read_file s1 s sz k found)
  unfolding read_file
  read_file-IsLegal s1 k none = failed 0 none
  read_file-IsLegal s1 k (some contents) = elim (read-cases s1 header_size contents) [
    | at_error f ↦ rw f (failed 1 none)
    | at_end header u f ↦ rw f (read_header-IsLegal k header contents)
  ]

-- For all contents of the files, all coordinates and all behaviours of `malloc`, `open` and `read`:
-- either `file_tile_read` fails, or it returns the number of bytes that it put into the buffer, no more
-- than the buffer's size, and has told whether they are compressed.
pub file_tile_read-IsLegal :
    (malloc_ok : Bool) (s1 s2 : Schedule) (open_file : FilePath → Option (List ℕ))
    (tile_dir : FilePath) (xmlconfig options : List ℕ) (x y z : ℤ) (sz : ℕ)
    → IsLegal sz (file_tile_read malloc_ok s1 s2 open_file tile_dir xmlconfig options x y z sz)
unfolding file_tile_read
file_tile_read-IsLegal false s1 s2 open_file tile_dir xmlconfig options x y z sz = failed 0 none
file_tile_read-IsLegal true s1 s2 open_file tile_dir xmlconfig options x y z sz =
    let (k, path) = xyzo_to_meta path_max tile_dir xmlconfig options x y z in
    read_file-IsLegal s2 sz s1 k (open_file path)
