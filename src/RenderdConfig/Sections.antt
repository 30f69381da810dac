-- ===== src/RenderdConfig/Sections.antt =====
-- src/renderd_config.c, `process_map_sections`: what holds of the map sections of an accepted file.
use mod_tile.Base.{
  ℕ, suc, ◌+◌, ◌≤◌, ◌<◌, ◌≡◌, refl, ◌∙◌, ap, ℤ, pos, true, false, ◌||◌, List, [], ◌∷◌, some, leb,
  if◌then◌else◌, length, take, map, arith, Bool-cases, inl, inr, subst, ltb, ltb→lt, ◌⊎◌, ◌++◌,
  length-append, length-take, length-take-le, take_all,
}
use mod_tile.Base.Bounds.{NotAbove}
use mod_tile.GenTile.Projection.{is_prefix}
use mod_tile.StoreFile.{path_max}
use mod_tile.RenderdConfig.{
  ends_in_slash, with_trailing_slash, process_config_string_with_trailing_slash, uri, Outcome, ok,
  exits, out_of_bounds, ◌>>=◌, Build, Ini, MapSection, checked_section, section_of, type_parts,
  words, process_config_string, scale, maxzoom, minzoom, type, default_type, iniline_max,
  read_map_section, is_map_section, read_map_sections, starts_one, starts_later, check_map_sections,
  process_map_sections, xmlconfigs_max, max_zoom_limit,
}

-- The steps of a chain that ended well did so too.
pub >>=-ok :
    {A B : Type 0} (step : Outcome A) (next : A → Outcome B) {r : B}
    → (step >>= next) ≡ ok r
    → (x : A) × (step ≡ ok x) × (next x ≡ ok r)
>>=-ok out_of_bounds next e = cc
>>=-ok (exits status) next e = cc
>>=-ok (ok x) next e = (x, refl, e)

-- The zooms of a section are in order and in range, and its scale passed the comparisons. Its URI ends
-- in a slash unless it fills the space for it.
pub record IsSound (b : Build) (m : MapSection) : Type 0 where
  pub least : NotAbove (pos 0) m.min_zoom
  pub ordered : NotAbove m.min_zoom m.max_zoom
  pub most : NotAbove m.max_zoom (pos max_zoom_limit)
  pub scaled : (b.below_least m.scale_factor || b.above_greatest m.scale_factor) ≡ false
  pub uri_length : length m.xmluri ≤ path_max
  pub uri_closed : (ends_in_slash m.xmluri ≡ true) ⊎ (path_max ≤ length m.xmluri)

abbrev pub AllSound : Build → List MapSection → Type 0
AllSound b [] = Unit
AllSound b (m ∷ ms) = IsSound b m × AllSound b ms

-- No URI is the start of a later one.
abbrev pub NoneBelow : List ℕ → List MapSection → Type 0
NoneBelow u [] = Unit
NoneBelow u (m ∷ ms) = (is_prefix u m.xmluri ≡ false) × NoneBelow u ms

abbrev pub NoneShadowed : List MapSection → Type 0
NoneShadowed [] = Unit
NoneShadowed (m ∷ ms) = NoneBelow m.xmluri ms × NoneShadowed ms

-- The names of the map sections among some sections
abbrev pub map_names : List (List ℕ) → List (List ℕ)
map_names [] = []
map_names (section ∷ more) =
    if is_map_section section then take 41 section ∷ map_names more else map_names more

pub record IsAccepted (b : Build) (ini : Ini) (ms : List MapSection) : Type 0 where
  pub named : map (λ (m : MapSection). m.xmlname) ms ≡ map_names ini.sections
  pub some_section : 0 < length ms
  pub not_too_many : length ms ≤ xmlconfigs_max
  pub sound : AllSound b ms
  pub apart : NoneShadowed ms

ends_in_slash-append : (s : List ℕ) → ends_in_slash (s ++ b'/' ∷ []) ≡ true
unfolding ends_in_slash
ends_in_slash-append [] = refl
ends_in_slash-append (c ∷ []) = refl
ends_in_slash-append (c ∷ d ∷ s) = ends_in_slash-append (d ∷ s)

not_ltb : (m n : ℕ) → ltb m n ≡ false → n ≤ m
not_ltb m n h = ground arith

-- A URI with its slash, as far as there is space
closed_uri :
    (s : List ℕ)
    → (length (with_trailing_slash s path_max) ≤ path_max)
      × ((ends_in_slash (with_trailing_slash s path_max) ≡ true)
          ⊎ (path_max ≤ length (with_trailing_slash s path_max)))
unfolding with_trailing_slash
closed_uri s = elim (Bool-cases (ends_in_slash (take path_max s))) [
  | inl slash ↦ rw slash (length-take-le path_max s, inl slash)
  | inr other ↦ rw other (
    length-take-le path_max (s ++ b'/' ∷ []),
    elim (Bool-cases (ltb (length s) path_max)) [
      | inl fits ↦ inl (
          ap ends_in_slash (
            take_all path_max (s ++ b'/' ∷ [])
              (omega (arith, ltb→lt (length s) path_max fits, length-append s (b'/' ∷ []))))
          ∙ ends_in_slash-append s)
      | inr full ↦ inr (
          omega (
            arith,
            length-take path_max (s ++ b'/' ∷ [])
                (omega (arith, not_ltb (length s) path_max full, length-append s (b'/' ∷ []))),
          ))
    ],
  )
]

same_ok : (l ms : List MapSection) → ok l ≡ ok ms → l ≡ ms
same_ok l ms e = cc

same_list : (m : MapSection) (rest ms : List MapSection) → ok (m ∷ rest) ≡ ok ms → m ∷ rest ≡ ms
same_list m rest ms e = cc

module _ (b : Build) (ini : Ini) (dir : List ℕ) (threads : ℤ) where
  section_of-IsSound :
      (section : List ℕ) (factor : ℕ) (most least : ℤ) (parts : List ℕ × List ℕ × List ℕ)
      → NotAbove (pos 0) least
        × NotAbove least most
        × NotAbove most (pos max_zoom_limit)
        × ((b.below_least factor || b.above_greatest factor) ≡ false)
      → IsSound b (section_of ini dir threads section factor most least parts)
        × ((section_of ini dir threads section factor most least parts).xmlname ≡ take 41 section)
  unfolding section_of process_config_string_with_trailing_slash
  section_of-IsSound section factor most least (e, m, o) h = (
    record {
      least = h.0;
      ordered = h.1;
      most = h.2;
      scaled = h.3;
      uri_length = (closed_uri (ini.getstring section uri [])).0;
      uri_closed = (closed_uri (ini.getstring section uri [])).1;
    },
    refl,
  )

  checked_section-ok :
      (factor : ℕ) (most least : ℤ) (parts : Outcome (List ℕ × List ℕ × List ℕ))
      (make : ℕ → ℤ → ℤ → List ℕ × List ℕ × List ℕ → MapSection) (m : MapSection)
      → checked_section b factor most least parts make ≡ ok m
      → (p : List ℕ × List ℕ × List ℕ) × (make factor most least p ≡ m)
        × NotAbove (pos 0) least
        × NotAbove least most
        × NotAbove most (pos max_zoom_limit)
        × ((b.below_least factor || b.above_greatest factor) ≡ false)
  unfolding checked_section
  checked_section-ok factor most least (ok p) make m e =
      (p, ground arith, ground arith, ground arith, ground arith, ground arith)
  checked_section-ok factor most least (exits n) make m e = absurd (ground arith)
  checked_section-ok factor most least out_of_bounds make m e = absurd (ground arith)

  read_map_section-IsSound :
      (section : List ℕ) (m : MapSection)
      → read_map_section b ini dir threads section ≡ ok m
      → IsSound b m × (m.xmlname ≡ take 41 section)
  unfolding read_map_section
  read_map_section-IsSound section m e =
      let (p, made, c1, c2, c3, c4) =
        checked_section-ok (ini.getdouble section scale b.one)
          (ini.getint section maxzoom (pos max_zoom_limit)) (ini.getint section minzoom (pos 0))
          (type_parts (words [] (process_config_string ini section type default_type iniline_max)))
          (section_of ini dir threads section) m e in
      subst (λ (k : MapSection). IsSound b k × (k.xmlname ≡ take 41 section)) made
        (section_of-IsSound section _ _ _ p (c1, c2, c3, c4))

  abbrev SoundSections : ℕ → List (List ℕ) → List MapSection → Type 0
  SoundSections n sections ms =
      (map (λ (m : MapSection). m.xmlname) ms ≡ map_names sections)
      × AllSound b ms
      × (n + length ms ≤ xmlconfigs_max)

  read_map_sections_sound :
      (n : ℕ) (sections : List (List ℕ)) (ms : List MapSection)
      → n ≤ xmlconfigs_max
      → read_map_sections b ini dir threads n sections ≡ ok ms
      → SoundSections n sections ms
  unfolding read_map_sections
  read_map_sections_sound n [] [] h e = (refl, tt, omega arith)
  read_map_sections_sound n [] (m ∷ ms) h e = absurd (ground arith)
  read_map_sections_sound n (section ∷ more) ms h e = elim (Bool-cases (is_map_section section)) [
    | inr other ↦ rw other (read_map_sections_sound n more ms h (rw other at e))
    | inl here ↦ elim (Bool-cases (leb xmlconfigs_max n)) [
      | inl full ↦ absurd (ground arith)
      | inr room ↦
          let (m, em, e1) = >>=-ok _ _ (rw (here, room) at e) in
          let (rest, er, e2) = >>=-ok _ _ e1 in
          let first = read_map_section-IsSound section m em in
          let others = read_map_sections_sound (suc n) more rest (ground arith) er in
          rw here (
            subst
              (λ l.
                (map (λ (k : MapSection). k.xmlname) l ≡ take 41 section ∷ map_names more)
                × AllSound b l
                × (n + length l ≤ xmlconfigs_max))
              (same_list m rest ms e2)
              (
                ap (◌∷◌ m.xmlname) others.0 ∙ ap (λ k. k ∷ map_names more) first.1,
                (first.0, others.1),
                omega (arith, others.2),
              ))
    ]
  ]

starts_one-none : (u : List ℕ) (ms : List MapSection) → starts_one u ms ≡ false → NoneBelow u ms
unfolding starts_one
starts_one-none u [] h = tt
starts_one-none u (m ∷ ms) h = (ground arith, starts_one-none u ms (ground arith))

starts_later-none : (ms : List MapSection) → starts_later ms ≡ false → NoneShadowed ms
unfolding starts_later
starts_later-none [] h = tt
starts_later-none (m ∷ ms) h =
    (starts_one-none m.xmluri ms (ground arith), starts_later-none ms (ground arith))

checked :
    (l ms : List MapSection)
    → check_map_sections l ≡ ok ms
    → (l ≡ ms) × (0 < length ms) × NoneShadowed ms
unfolding check_map_sections
checked [] ms e = absurd (ground arith)
checked (m ∷ l) ms e = elim (Bool-cases (starts_later (m ∷ l))) [
  | inl bad ↦ absurd (ground arith)
  | inr good ↦
      let same = same_ok (m ∷ l) ms (rw good at e) in
      (same, ground (arith, same), subst NoneShadowed same (starts_later-none (m ∷ l) good))
]

-- Where a file is accepted: its map sections are those of the sections that are neither named mapnik nor
-- start with renderd, in their order and with the first 41 bytes of their names; there is at least one
-- and there are at most 100; the zooms of each are in order and between 0 and 20, and its scale passed
-- the comparisons; and the URI of none is the start of that of a later one.
pub process_map_sections-IsAccepted :
    (b : Build) (ini : Ini) (dir : List ℕ) (threads : ℤ) (ms : List MapSection)
    → process_map_sections b (some ini) dir threads ≡ ok ms
    → IsAccepted b ini ms
unfolding process_map_sections
process_map_sections-IsAccepted b ini dir threads ms e =
    let (l, el, e1) = >>=-ok _ _ e in
    let (same, nonempty, apart) = checked l ms e1 in
    let sound =
      read_map_sections_sound b ini dir threads 0 ini.sections ms (omega arith) (el ∙ ap ok same) in
    record {
      named = sound.0;
      some_section = nonempty;
      not_too_many = omega (arith, sound.2);
      sound = sound.1;
      apart = apart;
    }
