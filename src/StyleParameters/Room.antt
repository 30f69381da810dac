-- ===== src/StyleParameters/Room.antt =====
-- src/parameterize_style.cpp, `parameterize_map_language`: which languages its buffer has room for.
use mod_tile.Base.{
  ℕ, zero, suc, ◌+◌, ◌-◌, ◌*◌, ◌≤◌, ◌≡◌, ◌↔◌, refl, ap, false, List, [], ◌∷◌, ◌++◌, take, take_all,
  length, length-append, arith, ◌==◌, eq_list, Bool-cases, inl, inr,
}
use mod_tile.StyleParameters.{
  add_piece, pieces, languages, default_language, opening, closing, tag_opening, tag_closing,
  column, columns, replacement, name_replace_size,
}

abbrev pub total : List (List ℕ) → ℕ
total [] = 0
total (t ∷ ts) = length t + total ts

abbrev pub NoneDefault : List (List ℕ) → Type 0
NoneDefault [] = Unit
NoneDefault (t ∷ ts) = (eq_list t default_language ≡ false) × NoneDefault ts

-- Every piece has a byte, and a comma stands between two of them.
abbrev Bounded : ℕ → List (List ℕ) → Type 0
Bounded n ts = (length ts ≤ total ts) × (total ts + length ts ≤ n + 1)

add_piece-Bounded :
    (n : ℕ) (held : List ℕ) (ts : List (List ℕ))
    → Bounded n ts
    → Bounded (length held + 1 + n) (add_piece held ts)
unfolding add_piece
add_piece-Bounded n [] ts (a, b) = (a, omega (arith, b))
add_piece-Bounded n (c ∷ cs) ts (a, b) = (omega (arith, a), omega (arith, b))

last_piece : (held : List ℕ) → Bounded (length held) (add_piece held [])
unfolding add_piece
last_piece [] = (omega arith, omega arith)
last_piece (c ∷ cs) = (omega arith, omega arith)

pieces-Bounded : (s held : List ℕ) → Bounded (length held + length s) (pieces s held)
unfolding pieces
pieces-Bounded [] held = let (a, b) = last_piece held in (a, omega (arith, b))
pieces-Bounded (c ∷ s) held = elim (Bool-cases (c == b',')) [
  | inl e ↦ rw e (
      let (a, b) = pieces-Bounded s [] in
      let (a', b') = add_piece-Bounded (length s) held (pieces s []) (a, omega (arith, b)) in
      (a', omega (arith, b')))
  | inr e ↦ rw e (
      let (a, b) = pieces-Bounded s (held ++ c ∷ []) in
      (a, omega (arith, b, length-append held (c ∷ []))))
]

column-length :
    (t : List ℕ)
    → length t ≤ 255
    → eq_list t default_language ≡ false
    → length (column t) ≡ 14 + length t
unfolding column
column-length t h n =
    rw (n, take_all 255 t h)
      (omega (arith, length-append tag_opening (t ++ tag_closing), length-append t tag_closing))

columns-length :
    (ts : List (List ℕ))
    → NoneDefault ts
    → total ts ≤ 255
    → length (columns ts) ≡ 14 * length ts + total ts
unfolding columns
columns-length [] n h = refl
columns-length (t ∷ ts) (n, ns) h = omega (
  arith,
  length-append (column t) (columns ts),
  column-length t (omega (arith, h)) n,
  columns-length ts ns (omega (arith, h)),
)

length-take : (n : ℕ) (xs : List ℕ) → n ≤ length xs → length (take n xs) ≡ n
length-take zero xs h = refl
length-take (suc n) [] h = absurd (omega (arith, h))
length-take (suc n) (x ∷ xs) h = ap suc (length-take n xs (omega (arith, h)))

replacement-length : (ts : List (List ℕ)) → length (replacement ts) ≡ length (columns ts) + 19
unfolding replacement
replacement-length ts =
    let text = opening ++ columns ts in
    let kept = take (length text - 1) text in
    omega (
      arith,
      length-append kept closing,
      length-take (length text - 1) text (omega arith),
      length-append opening (columns ts),
    )

-- For a parameter of at most 40 bytes, which is what a request has room for, that names languages and
-- none of them by "_": the text and its terminating zero fit into the buffer exactly if there are 15
-- languages at most.
pub replacement-fits :
    (parameter : List ℕ)
    → length parameter ≤ 40
    → NoneDefault (languages parameter)
    → (length (replacement (languages parameter)) + 1 ≤ name_replace_size)
      ↔ (length (languages parameter) ≤ 15)
unfolding languages
replacement-fits parameter h n =
    let (a, b) = pieces-Bounded parameter [] in
    let c = columns-length (pieces parameter []) n (omega (arith, b)) in
    let d = replacement-length (pieces parameter []) in
    (λ k. omega (arith, a, c, d), λ k. omega (arith, b, c, d))
