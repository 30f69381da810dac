-- ===== src/RenderdConfig/Active.antt =====
-- src/renderd_config.c, `process_config_file`: what holds of an accepted file, and when an array is left.
use mod_tile.Base.{
  ℕ, zero, suc, ◌<◌, ◌≡◌, refl, ◌∙◌, ap, ℤ, pos, negsuc, eq_ℤ, ltb_ℤ, Bool, true, false, List, [],
  ◌∷◌, Option, none, some, leb, length, get_or, set, arith, Bool-cases, inl, inr, subst, ◌⊎◌, sym,
}
use mod_tile.GenTile.Projection.{is_prefix}
use mod_tile.RenderdConfig.{
  ok, exits, out_of_bounds, Build, Ini, renderd_name, max_slaves, process_map_sections,
}
use mod_tile.RenderdConfig.Sections.{IsAccepted, >>=-ok, process_map_sections-IsAccepted}
use mod_tile.RenderdConfig.Daemon.{
  RenderdSection, Slots, Configuration, socketname_max, section_number, renderd_section,
  put_section, slot_at, place_section, read_renderd_sections, empty_slots, if_seen,
  process_renderd_sections, process_mapnik_section, active_section, process_config_file,
}

abbrev pub Listed : List ℕ → List (List ℕ) → Type 0
Listed section [] = ⊥
Listed section (s ∷ ss) = (section ≡ s) ⊎ Listed section ss

-- A section of the file stands at the place of its number, with a name for its socket that fits.
pub record IsPlaced (b : Build) (ini : Ini) (i : ℕ) (r : RenderdSection) : Type 0 where
  pub section : List ℕ
  pub listed : Listed section ini.sections
  pub named : is_prefix renderd_name section ≡ true
  pub numbered : section_number section ≡ some (pos i)
  pub read : r ≡ renderd_section b ini section
  pub fits : length r.socket < socketname_max

abbrev pub AllPlaced : Build → Ini → Slots → Type 0
AllPlaced b ini slots =
    (i : ℕ) (r : RenderdSection) → get_or slots i none ≡ some r → IsPlaced b ini i r

pub record IsConfigured (b : Build) (ini : Ini) (n : ℕ) (c : Configuration) : Type 0 where
  pub chosen : get_or c.slaves n none ≡ some c.active
  pub working : eq_ℤ c.active.threads (pos 0) ≡ false
  pub placed : AllPlaced b ini c.slaves
  pub mapped : IsAccepted b ini c.maps

exits_ok : {A : Type 0} {n : ℕ} {a : A} → exits n ≡ ok a → ⊥
exits_ok e = cc

bounds_ok : {A : Type 0} {a : A} → out_of_bounds ≡ ok a → ⊥
bounds_ok e = cc

ok_ok : {s t : Slots} → ok s ≡ ok t → s ≡ t
ok_ok e = cc

result_ok : (s t : Bool × Slots) → ok s ≡ ok t → s ≡ t
result_ok s t e = cc

section_ok : (q r : RenderdSection) → ok q ≡ ok r → q ≡ r
section_ok q r e = cc

some-some : (q r : RenderdSection) → some q ≡ some r → q ≡ r
some-some q r e = cc

none-some : {r : RenderdSection} → none ≡ some r → ⊥
none-some e = cc

configuration_ok : (c d : Configuration) → ok c ≡ ok d → c ≡ d
configuration_ok c d e = cc

leb-false : (m n : ℕ) → leb m n ≡ false → n < m
leb-false m n h = ground arith

get_or-set_cases :
    (slots : Slots) (n i : ℕ) (v : Option RenderdSection) (r : RenderdSection)
    → get_or (set slots n v) i none ≡ some r
    → ((i ≡ n) × (v ≡ some r)) ⊎ (get_or slots i none ≡ some r)
get_or-set_cases [] n i v r e = inr e
get_or-set_cases (x ∷ slots) zero zero v r e = inl (refl, e)
get_or-set_cases (x ∷ slots) zero (suc i) v r e = inr e
get_or-set_cases (x ∷ slots) (suc n) zero v r e = inr e
get_or-set_cases (x ∷ slots) (suc n) (suc i) v r e = elim (get_or-set_cases slots n i v r e) [
  | inl both ↦ inl (ap suc both.0, both.1)
  | inr old ↦ inr old
]

put_section-ok :
    (slots slots' : Slots) (n : ℕ) (r : RenderdSection) (held : Option RenderdSection)
    → put_section slots n r held ≡ ok slots'
    → (set slots n (some r) ≡ slots') × (length r.socket < socketname_max)
unfolding put_section
put_section-ok slots slots' n r (some other) e = absurd (exits_ok e)
put_section-ok slots slots' n r none e = elim (Bool-cases (leb socketname_max (length r.socket))) [
  | inl long ↦ absurd (exits_ok (rw long at e))
  | inr fits ↦ (ok_ok (rw fits at e), leb-false socketname_max (length r.socket) fits)
]

active_section-ok :
    (held : Option RenderdSection) (r : RenderdSection)
    → active_section held ≡ ok r
    → (held ≡ some r) × (eq_ℤ r.threads (pos 0) ≡ false)
unfolding active_section
active_section-ok none r e = absurd (exits_ok e)
active_section-ok (some q) r e = elim (Bool-cases (eq_ℤ q.threads (pos 0))) [
  | inl idle ↦ absurd (exits_ok (rw idle at e))
  | inr busy ↦
      let same = section_ok q r (rw busy at e) in
      (ap some same, subst (λ (k : RenderdSection). eq_ℤ k.threads (pos 0) ≡ false) same busy)
]

module _ (b : Build) (ini : Ini) where
  place_section-ok :
      (slots slots' : Slots) (section : List ℕ) (number : Option ℤ)
      → Listed section ini.sections
      → is_prefix renderd_name section ≡ true
      → section_number section ≡ number
      → place_section slots number (renderd_section b ini section) ≡ ok slots'
      → AllPlaced b ini slots
      → AllPlaced b ini slots'
  unfolding place_section
  place_section-ok slots slots' section none l m s e h = absurd (exits_ok e)
  place_section-ok slots slots' section (some (negsuc n)) l m s e h =
      elim (Bool-cases (ltb_ℤ (negsuc n) (pos max_slaves))) [
        | inl near ↦ absurd (bounds_ok (rw near at e))
        | inr far ↦ absurd (exits_ok (rw far at e))
      ]
  place_section-ok slots slots' section (some (pos n)) l m s e h =
      elim (Bool-cases (ltb_ℤ (pos n) (pos max_slaves))) [
        | inr far ↦ absurd (exits_ok (rw far at e))
        | inl near ↦
            let (held, found, e1) = >>=-ok (slot_at slots (pos n)) _ (rw near at e) in
            let (made, fits) =
              put_section-ok slots slots' n (renderd_section b ini section) held e1 in
            λ i r k.
              elim (get_or-set_cases slots n i (some (renderd_section b ini section)) r
                (ap (λ t. get_or t i none) made ∙ k)) [
                  | inl new ↦
                      let same = some-some _ r new.1 in
                      record {
                        section = section;
                        listed = l;
                        named = m;
                        numbered = s ∙ ap (λ j. some (pos j)) (sym new.0);
                        read = sym same;
                        fits =
                            subst (λ (q : RenderdSection). length q.socket < socketname_max) same
                              fits;
                      }
                  | inr old ↦ h i r old
                ]
      ]

  read_renderd_sections-AllPlaced :
      (sections : List (List ℕ)) (seen : Bool) (slots : Slots) (result : Bool × Slots)
      → ((s : List ℕ) → Listed s sections → Listed s ini.sections)
      → read_renderd_sections b ini seen slots sections ≡ ok result
      → AllPlaced b ini slots
      → AllPlaced b ini result.1
  unfolding read_renderd_sections
  read_renderd_sections-AllPlaced [] seen slots result l e h =
      subst (λ (q : Bool × Slots). AllPlaced b ini q.1) (result_ok _ result e) h
  read_renderd_sections-AllPlaced (section ∷ more) seen slots result l e h =
      elim (Bool-cases (is_prefix renderd_name section)) [
        | inl here ↦
            let (next, placed, e1) =
              >>=-ok (place_section slots (section_number section) (renderd_section b ini section))
                _ (rw here at e) in
            read_renderd_sections-AllPlaced more true next result (λ s k. l s (inr k)) e1
              (place_section-ok slots next section (section_number section) (l section (inl refl))
                here refl placed h)
        | inr other ↦
            read_renderd_sections-AllPlaced more seen slots result (λ s k. l s (inr k))
              (rw other at e) h
      ]

  if_seen-ok :
      (result : Bool × Slots) (slots : Slots) → if_seen result ≡ ok slots → result.1 ≡ slots
  if_seen-ok (true, s) slots e = ok_ok e
  if_seen-ok (false, s) slots e = absurd (exits_ok e)

  empty-AllPlaced : AllPlaced b ini empty_slots
  empty-AllPlaced zero r e = absurd (none-some e)
  empty-AllPlaced (suc zero) r e = absurd (none-some e)
  empty-AllPlaced (suc (suc zero)) r e = absurd (none-some e)
  empty-AllPlaced (suc (suc (suc zero))) r e = absurd (none-some e)
  empty-AllPlaced (suc (suc (suc (suc zero)))) r e = absurd (none-some e)
  empty-AllPlaced (suc (suc (suc (suc (suc n))))) r e = absurd (none-some e)

  process_renderd_sections-AllPlaced :
      (slots : Slots) → process_renderd_sections b (some ini) ≡ ok slots → AllPlaced b ini slots
  unfolding process_renderd_sections
  process_renderd_sections-AllPlaced slots e =
      let (result, read, e1) =
        >>=-ok (read_renderd_sections b ini false empty_slots ini.sections) if_seen e in
      subst (AllPlaced b ini) (if_seen-ok result slots e1) (
        read_renderd_sections-AllPlaced ini.sections false empty_slots result (λ s k. k) read
          empty-AllPlaced)

  -- Where the file is accepted for a daemon: there is a section of this number, and its number of threads
  -- is not 0. Each place of the array is empty, or holds what was read from a section that is listed in
  -- the file, whose name begins with "renderd" and has the number of the place behind it, and whose name
  -- for a socket fits the address. The map sections are as
  -- `process_map_sections` accepts them.
  pub process_config_file-IsConfigured :
      (n : ℕ) (c : Configuration)
      → process_config_file b (some ini) (pos n) ≡ ok c
      → IsConfigured b ini n c
  unfolding process_config_file
  process_config_file-IsConfigured n c e = elim (Bool-cases (leb max_slaves n)) [
    | inl far ↦ absurd (exits_ok (rw far at e))
    | inr near ↦
        let (slots, read, e1) = >>=-ok (process_renderd_sections b (some ini)) _ (rw near at e) in
        let (r, chosen, e2) = >>=-ok (active_section (get_or slots n none)) _ e1 in
        let (mapnik, found, e3) = >>=-ok (process_mapnik_section b (some ini)) _ e2 in
        let (maps, mapped, e4) =
          >>=-ok (process_map_sections b (some ini) r.tiles r.threads) _ e3 in
        let (held, busy) = active_section-ok (get_or slots n none) r chosen in
        subst (IsConfigured b ini n) (configuration_ok _ c e4) (record {
          chosen = held;
          working = busy;
          placed = process_renderd_sections-AllPlaced slots read;
          mapped = process_map_sections-IsAccepted b ini r.tiles r.threads maps mapped;
        })
  ]
