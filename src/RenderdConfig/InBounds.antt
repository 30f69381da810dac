-- ===== src/RenderdConfig/InBounds.antt =====
-- src/renderd_config.c, `process_renderd_sections`: the number of a section as an index of
-- `config_slaves`.
use mod_tile.Base.{
  ℕ, ◌≡◌, ◌≢◌, refl, ℤ, pos, negsuc, Bool, true, false, List, [], ◌∷◌, Option, none, some, leb,
  arith, Bool-cases, inl, inr, ltb, ltb_ℤ, length, length-set, if_both, ◌∙◌,
}
use mod_tile.GenTile.Projection.{is_prefix}
use mod_tile.RenderdConfig.{
  Outcome, ok, exits, out_of_bounds, ◌>>=◌, Build, Ini, renderd_name, max_slaves,
}
use mod_tile.RenderdConfig.Daemon.{
  RenderdSection, Slots, section_number, renderd_section, put_section, slot_at, place_section,
  socketname_max, read_renderd_sections, empty_slots, if_seen, process_renderd_sections,
}

-- The number is absent or not negative.
abbrev pub IsIndex : Option ℤ → Type 0
IsIndex none = Unit
IsIndex (some (pos n)) = Unit
IsIndex (some (negsuc n)) = ⊥

abbrev pub AllIndex : List (List ℕ) → Type 0
AllIndex [] = Unit
AllIndex (section ∷ more) =
    (is_prefix renderd_name section ≡ true → IsIndex (section_number section)) × AllIndex more

-- No element outside of an array is accessed, and a result has a property.
abbrev Safe : {A : Type 0} → (A → Type 0) → Outcome A → Type 0
Safe P (ok a) = P a
Safe P (exits n) = Unit
Safe P out_of_bounds = ⊥

>>=-Safe :
    {A B : Type 0} (P : A → Type 0) (Q : B → Type 0) (m : Outcome A) (f : A → Outcome B)
    → Safe P m
    → ((a : A) → P a → Safe Q (f a))
    → Safe Q (m >>= f)
>>=-Safe P Q (ok a) f h k = k a h
>>=-Safe P Q (exits n) f h k = tt
>>=-Safe P Q out_of_bounds f h k = h

Safe-in_bounds : (P : Slots → Type 0) (m : Outcome Slots) → Safe P m → m ≢ out_of_bounds
Safe-in_bounds P (ok a) h e = cc
Safe-in_bounds P (exits n) h e = cc
Safe-in_bounds P out_of_bounds h e = h

-- The array has its size.
abbrev HasSize : Slots → Type 0
HasSize slots = length slots ≡ max_slaves

if_seen-Safe : (r : Bool × Slots) → HasSize r.1 → Safe HasSize (if_seen r)
if_seen-Safe (true, s) h = h
if_seen-Safe (false, s) h = tt

put_section-Safe :
    (slots : Slots) (n : ℕ) (r : RenderdSection) (held : Option RenderdSection)
    → HasSize slots
    → Safe HasSize (put_section slots n r held)
unfolding put_section
put_section-Safe slots n r (some other) h = tt
put_section-Safe slots n r none h =
    if_both (Safe HasSize) (leb socketname_max (length r.socket)) {x = exits 7} tt
      (length-set slots n (some r) ∙ h)

slot_at-Safe :
    (slots : Slots) (n : ℕ)
    → ltb n (length slots) ≡ true
    → Safe (λ held. Unit) (slot_at slots (pos n))
unfolding slot_at
slot_at-Safe slots n h = rw h tt

place_section-Safe :
    (slots : Slots) (number : Option ℤ) (r : RenderdSection)
    → IsIndex number
    → HasSize slots
    → Safe HasSize (place_section slots number r)
unfolding place_section
place_section-Safe slots none r h k = tt
place_section-Safe slots (some (negsuc n)) r h k = absurd h
place_section-Safe slots (some (pos n)) r h k = elim (Bool-cases (ltb_ℤ (pos n) (pos max_slaves))) [
  | inr far ↦ rw far tt
  | inl near ↦ rw near (
      >>=-Safe (λ held. Unit) HasSize (slot_at slots (pos n)) (put_section slots n r)
        (slot_at-Safe slots n (ground arith)) (λ held u. put_section-Safe slots n r held k))
]

read_renderd_sections-Safe :
    (b : Build) (ini : Ini) (seen : Bool) (slots : Slots) (sections : List (List ℕ))
    → AllIndex sections
    → HasSize slots
    → Safe (λ (s : Bool × Slots). HasSize s.1) (read_renderd_sections b ini seen slots sections)
unfolding read_renderd_sections
read_renderd_sections-Safe b ini seen slots [] h k = k
read_renderd_sections-Safe b ini seen slots (section ∷ more) h k =
    elim (Bool-cases (is_prefix renderd_name section)) [
      | inl here ↦ rw here (
          >>=-Safe HasSize (λ (s : Bool × Slots). HasSize s.1)
            (place_section slots (section_number section) (renderd_section b ini section))
            (λ s. read_renderd_sections b ini true s more)
            (place_section-Safe slots (section_number section) _ (h.0 here) k)
            (λ s. read_renderd_sections-Safe b ini true s more h.1))
      | inr other ↦ rw other (read_renderd_sections-Safe b ini seen slots more h.1 k)
    ]

-- If the number behind the name of no daemon's section is negative, every access to the array of the
-- sections, which has 5 elements, is to one of them.
pub process_renderd_sections-in_bounds :
    (b : Build) (ini : Ini)
    → AllIndex ini.sections
    → process_renderd_sections b (some ini) ≢ out_of_bounds
unfolding process_renderd_sections
process_renderd_sections-in_bounds b ini h = Safe-in_bounds HasSize _ (
    >>=-Safe (λ (s : Bool × Slots). HasSize s.1) HasSize
      (read_renderd_sections b ini false empty_slots ini.sections) if_seen
      (read_renderd_sections-Safe b ini false empty_slots ini.sections h refl) if_seen-Safe)
