-- ===== src/Store/Parts.antt =====
-- src/store.c and src/store_ro_composite.c: the parts of a text for a composite store, which are shorter than it.
use mod_tile.SubmitQueue.{xmlconfig_max}
use mod_tile.Base.{
  ℕ, suc, ◌≤◌, ◌<◌, ◌≡◌, List, [], ◌∷◌, Option, none, some, ◌==◌, length, drop, length-drop, arith,
  if_both,
}
use mod_tile.GenTile.Projection.{is_prefix}
use mod_tile.Store.{split_comma, split_braces, drop_last, composite_scheme}

-- Some text is shorter than a limit, if there is one.
abbrev pub ShortBehind : ℕ → Option (List ℕ × List ℕ) → Type 0
ShortBehind n none = Unit
ShortBehind n (some (before, behind)) = length behind < n

abbrev pub ShortBoth : ℕ → Option (List ℕ × List ℕ) → Type 0
ShortBoth n none = Unit
ShortBoth n (some (before, behind)) = (length before ≤ n) × (length behind ≤ n)

comma_step :
    (a n : ℕ) (rest : Option (List ℕ × List ℕ))
    → ShortBehind n rest
    → ShortBehind
        (suc n)
        (elim rest [ none ↦ none | some (before, behind) ↦ some (a ∷ before, behind) ])
comma_step a n none h = tt
comma_step a n (some (before, behind)) h = omega (arith, h)

pub split_comma-short : (s : List ℕ) → ShortBehind (length s) (split_comma s)
unfolding split_comma
split_comma-short [] = tt
split_comma-short (a ∷ s) =
    if_both (ShortBehind (suc (length s))) (a == b',') (omega arith)
      (comma_step a (length s) (split_comma s) (split_comma-short s))

braces_step :
    (a n : ℕ) (rest : Option (List ℕ × List ℕ))
    → ShortBoth n rest
    → ShortBoth
        (suc n)
        (elim rest [ none ↦ none | some (before, behind) ↦ some (a ∷ before, behind) ])
braces_step a n none h = tt
braces_step a n (some (before, behind)) h = (omega (arith, h.0), omega (arith, h.1))

pub split_braces-short : (s : List ℕ) → ShortBoth (length s) (split_braces s)
unfolding split_braces
split_braces-short [] = tt
split_braces-short (a ∷ s) =
    if_both (ShortBoth (suc (length s))) (is_prefix (b'}' ∷ b'{' ∷ []) (a ∷ s))
      (omega arith, omega (arith, length-drop 1 s))
      (braces_step a (length s) (split_braces s) (split_braces-short s))

pub drop_last-short : (s : List ℕ) → length (drop_last s) ≤ length s
unfolding drop_last
drop_last-short [] = omega arith
drop_last-short (a ∷ []) = omega arith
drop_last-short (a ∷ b ∷ s) = omega (arith, drop_last-short (b ∷ s))

pub ShortBehind-le :
    (m n : ℕ) (parts : Option (List ℕ × List ℕ)) → m ≤ n → ShortBehind m parts → ShortBehind n parts
ShortBehind-le m n none l h = tt
ShortBehind-le m n (some (before, behind)) l h = omega (arith, h)

pub ShortBoth-le :
    (m n : ℕ) (parts : Option (List ℕ × List ℕ)) → m ≤ n → ShortBoth m parts → ShortBoth n parts
ShortBoth-le m n none l h = tt
ShortBoth-le m n (some (before, behind)) l h = (omega (arith, h.0), omega (arith, h.1))

-- A part of the text, at some depth, makes the program write outside of a block: nothing follows on the
-- second brace, or the name of a style does not fit into its array.
pub data Overruns : List ℕ → Type 0 where
  no_text :
      {u before behind : List ℕ}
      → split_braces u ≡ some (before, behind)
      → length behind ≡ 0
      → Overruns u
  long_first :
      {u before behind xml o : List ℕ}
      → split_braces u ≡ some (before, behind)
      → split_comma (drop (length composite_scheme) before) ≡ some (xml, o)
      → xmlconfig_max ≤ length xml
      → Overruns u
  long_second :
      {u before behind xml o : List ℕ}
      → split_braces u ≡ some (before, behind)
      → split_comma (drop_last behind) ≡ some (xml, o)
      → xmlconfig_max ≤ length xml
      → Overruns u
  in_first :
      {u before behind xml o : List ℕ}
      → split_braces u ≡ some (before, behind)
      → split_comma (drop (length composite_scheme) before) ≡ some (xml, o)
      → Overruns o
      → Overruns u
  in_second :
      {u before behind xml o : List ℕ}
      → split_braces u ≡ some (before, behind)
      → split_comma (drop_last behind) ≡ some (xml, o)
      → Overruns o
      → Overruns u
