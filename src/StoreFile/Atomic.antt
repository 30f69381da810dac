-- ===== src/StoreFile/Atomic.antt =====
-- src/store_file.c, `file_metatile_write`: the metatile is replaced as a whole or not at all.
use mod_tile.Base.{
  ℕ, ◌≡◌, refl, subst, ℤ, pos, negsuc, eq_ℤ, eq_ℤ→eq, Bool, true, false, List, [], ◌∷◌, ◌++◌,
  Option, some, arith, length, eq_list, eq_list_refl, Bool-cases, inl, inr, take_all,
}
use mod_tile.FileSystem.{FilePath, Node, file, Files, write_node, mkdirp}
use mod_tile.FileSystem.Mkdirp.{mkdirp-frame}
use mod_tile.TilePath.{xyzo_to_meta, decimal}
use mod_tile.StoreFile.{WriteCalls, partly, rename_tmp, write_tmp, file_metatile_write, path_max}

-- What a write may leave at the metatile's path: what was there, with a failure, or all of the bytes,
-- with their number as the status.
pub data Written (old : Option Node) (buf : List ℕ) : ℤ → Option Node → Type 0 where
  kept : Written old buf (negsuc 0) old
  replaced : Written old buf (pos (length buf)) (some (file buf))

not_shorter : (p : FilePath) (c : ℕ) (rest : List ℕ) → eq_list (p ++ c ∷ rest) p ≡ false
not_shorter [] c rest = refl
not_shorter (a ∷ p) c rest = ground (arith, not_shorter p c rest)

module _ (k : WriteCalls) (meta_path : FilePath) (c : ℕ) (suffix : List ℕ) (buf : List ℕ) where
  abbrev tmp : FilePath
  tmp = meta_path ++ c ∷ suffix

  kept_by_tmp : (fs : Files) (n : Option Node) → write_node fs tmp n meta_path ≡ fs meta_path
  kept_by_tmp fs n = rw (not_shorter meta_path c suffix) refl

  rename_tmp-Written :
      (fs : Files)
      → fs tmp ≡ some (file buf)
      → Written
          (fs meta_path)
          buf
          (rename_tmp k fs tmp meta_path buf).0
          ((rename_tmp k fs tmp meta_path buf).1 meta_path)
  unfolding rename_tmp
  rename_tmp-Written fs h = elim (Bool-cases k.rename_ok) [
    | inl e ↦ rw (e, not_shorter meta_path c suffix, eq_list_refl meta_path, h) replaced
    | inr e ↦ rw (e, not_shorter meta_path c suffix) kept
  ]

  write_tmp-Written :
      (fs : Files)
      → Written
          (fs meta_path)
          buf
          (write_tmp k fs tmp meta_path buf).0
          ((write_tmp k fs tmp meta_path buf).1 meta_path)
  unfolding write_tmp rename_tmp
  write_tmp-Written fs = elim (Bool-cases k.open_ok) [
    | inl e ↦ elim (Bool-cases (eq_ℤ k.written (pos (length buf)))) [
      | inl f ↦
          rw (e, f)
            (subst
              (λ n.
                Written n buf (rename_tmp k fs' tmp meta_path buf).0
                  ((rename_tmp k fs' tmp meta_path buf).1 meta_path))
              (kept_by_tmp fs (some (file (partly k.written buf))))
              (rename_tmp-Written fs' (complete f)))
      | inr f ↦ rw (e, f, not_shorter meta_path c suffix) kept
    ]
    | inr e ↦ rw e kept
  ]
    where
      fs' : Files
      fs' = write_node fs tmp (some (file (partly k.written buf)))

      complete : eq_ℤ k.written (pos (length buf)) ≡ true → fs' tmp ≡ some (file buf)
      complete f =
          rw
            (
              eq_list_refl tmp,
              eq_ℤ→eq k.written (pos (length buf)) f,
              take_all (length buf) buf (omega arith),
            )
            refl

-- Whatever the kernel answers at each call (memory, directories, the open, the number of bytes
-- written, the rename): after `file_metatile_write` the metatile's path holds what it held before and
-- the status is -1, or it holds exactly the bytes of the buffer and the status is their number.
pub file_metatile_write-Written :
    (k : WriteCalls) (tile_dir : FilePath) (xmlconfig options : List ℕ) (x y z : ℤ) (buf : List ℕ)
    (fs : Files)
    → let path = (xyzo_to_meta path_max tile_dir xmlconfig options x y z).1 in
      let (status, fs') = file_metatile_write k tile_dir xmlconfig options x y z buf fs in
      Written (fs path) buf status (fs' path)
unfolding file_metatile_write write_tmp rename_tmp
file_metatile_write-Written k tile_dir xmlconfig options x y z buf fs =
    elim (Bool-cases k.malloc_ok) [
      | inl e ↦ elim (Bool-cases made.0) [
        | inl f ↦ rw (e, f, frame) kept
        | inr f ↦
            rw (e, f)
              (subst (λ n. Written n buf written.0 (written.1 path)) frame
                (write_tmp-Written k path b'.' (decimal k.thread) buf made.1))
      ]
      | inr e ↦ rw e kept
    ]
  where
    path : FilePath
    path = (xyzo_to_meta path_max tile_dir xmlconfig options x y z).1

    tmp_path : FilePath
    tmp_path = path ++ b'.' ∷ decimal k.thread

    made : Bool × Files
    made = mkdirp k.mkdir fs tmp_path

    written : ℤ × Files
    written = write_tmp k made.1 tmp_path path buf

    frame : made.1 path ≡ fs path
    frame = mkdirp-frame k.mkdir path b'.' (decimal k.thread) refl fs tmp_path refl
