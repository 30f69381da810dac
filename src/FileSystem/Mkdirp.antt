-- ===== src/FileSystem/Mkdirp.antt =====
-- src/store_file_utils.c, `mkdirp`: which paths it leaves as they are.
use mathlib.Core.List.{append_assoc}
use mod_tile.Base.{
  ℕ, ◌≡◌, refl, sym, ◌∙◌, ap, true, false, List, [], ◌∷◌, ◌++◌, Option, none, some, arith, ◌==◌,
  if◌then◌else◌, eq_list, eq_list→eq, Bool-cases, Option-cases, inl, inr,
}
use mod_tile.FileSystem.{
  FilePath, Node, directory, file, Files, Mkdir, mkdir_element, mkdir_loop, mkdirp, mkdir_missing,
  mkdir_above, parent,
}

-- One element is made, at most, and only where there was nothing.
mkdir_element-frame :
    (mkdir : FilePath → Mkdir) (fs : Files) (p q : FilePath)
    → eq_list p q ≡ false
    → (mkdir_element mkdir fs p).1 q ≡ fs q
unfolding mkdir_element
mkdir_element-frame mkdir fs p q h = elim (Option-cases (fs p)) [
  | inl e ↦ ground arith
  | inr (n, e) ↦ ground arith
]

cancel-head : (p : FilePath) (c d : ℕ) (s t : List ℕ) → p ++ c ∷ s ≡ p ++ d ∷ t → c ≡ d
cancel-head [] c d s t e = ground arith
cancel-head (a ∷ p) c d s t e = cancel-head p c d s t (ground arith)

module _ (mkdir : FilePath → Mkdir) (q : FilePath) (c : ℕ) (rest : List ℕ)
    (not_slash : (c == b'/') ≡ false) where
  other_path :
      (behind ahead : FilePath) (d : ℕ)
      → behind ++ d ∷ ahead ≡ q ++ c ∷ rest
      → (d == b'/') ≡ true
      → eq_list behind q ≡ false
  other_path behind ahead d e slash = elim (Bool-cases (eq_list behind q)) [
    | inl same ↦ absurd (clash same)
    | inr other ↦ other
  ]
    where
      clash : eq_list behind q ≡ true → ⊥
      clash same = ground (
        arith,
        cancel-head q d c ahead rest
            (ap (λ p. p ++ d ∷ ahead) (sym (eq_list→eq behind q same)) ∙ e),
      )

  pub mkdir_loop-frame :
      (fs : Files) (behind ahead : FilePath)
      → behind ++ ahead ≡ q ++ c ∷ rest
      → (mkdir_loop mkdir fs behind ahead).1 q ≡ fs q
  unfolding mkdir_loop
  mkdir_loop-frame fs behind [] e = refl
  mkdir_loop-frame fs behind (d ∷ ahead) e =
      let here = if d == b'/' then mkdir_element mkdir fs behind else (false, fs) in
      let rest = mkdir_loop mkdir here.1 (behind ++ d ∷ []) ahead in
      elim (Bool-cases here.0) [
        | inl f ↦ rw f kept
        | inr f ↦ rw f (
            mkdir_loop-frame here.1 (behind ++ d ∷ []) ahead
              (append_assoc behind (d ∷ []) ahead ∙ e)
            ∙ kept)
      ]
    where
      kept : (if d == b'/' then mkdir_element mkdir fs behind else (false, fs)).1 q ≡ fs q
      kept = elim (Bool-cases (d == b'/')) [
        | inl slash ↦
            rw slash (mkdir_element-frame mkdir fs behind q (other_path behind ahead d e slash))
        | inr other ↦ rw other refl
      ]

  mkdir_missing-frame :
      (fs : Files) (d : ℕ) (path : FilePath) (found : Option Node)
      → d ∷ path ≡ q ++ c ∷ rest
      → (mkdir_missing mkdir fs d path found).1 q ≡ fs q
  unfolding mkdir_missing
  mkdir_missing-frame fs d path none e = mkdir_loop-frame fs (d ∷ []) path e
  mkdir_missing-frame fs d path (some directory) e = refl
  mkdir_missing-frame fs d path (some (file bytes)) e = refl

  mkdir_above-frame :
      (fs : Files) (d : ℕ) (path : FilePath) (found : Option FilePath)
      → d ∷ path ≡ q ++ c ∷ rest
      → (mkdir_above mkdir fs d path found).1 q ≡ fs q
  unfolding mkdir_above
  mkdir_above-frame fs d path none e = refl
  mkdir_above-frame fs d path (some dir) e = mkdir_missing-frame fs d path (fs dir) e

  -- `mkdirp` leaves a path alone where the path that it is given goes on without a slash.
  pub mkdirp-frame :
      (fs : Files) (path : FilePath) → path ≡ q ++ c ∷ rest → (mkdirp mkdir fs path).1 q ≡ fs q
  unfolding mkdirp
  mkdirp-frame fs [] e = refl
  mkdirp-frame fs (d ∷ path) e = mkdir_above-frame fs d path (parent (d ∷ path)) e
