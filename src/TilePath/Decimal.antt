-- ===== src/TilePath/Decimal.antt =====
-- The C library's numbers in decimal: what `%d` prints, `%d` reads back.
use mod_tile.Base.{
  ℕ, zero, suc, ◌+◌, ◌*◌, ◌/◌, ◌%◌, ◌≤◌, ◌<◌, ◌≡◌, refl, ◌∙◌, ap, pos, Bool, true, false, List, [],
  ◌∷◌, ◌++◌, some, arith, ltb, ◌==◌, if◌then◌else◌, Bool-cases, inl, inr,
}
use mathlib.Core.List.{append_assoc}
use mod_tile.TilePath.{decimal, digits_fuel}
use mod_tile.TilePath.Scan.{is_digit, is_space, scan_digits, scan_unsigned, scan_signed, scan_int}

-- The text does not go on with a digit.
abbrev pub stops : List ℕ → Bool
stops [] = true
stops (c ∷ s) = if is_digit c then false else true

abbrev pub starts : List ℕ → Bool
starts [] = false
starts (c ∷ s) = is_digit c

digits_fuel-starts : (f n : ℕ) (s : List ℕ) → starts (digits_fuel f n ++ s) ≡ true
unfolding digits_fuel
digits_fuel-starts zero n s = ground arith
digits_fuel-starts (suc f) n s = elim (Bool-cases (ltb n 10)) [
  | inl e ↦ rw e (ground arith)
  | inr e ↦ rw (e, append_assoc) (digits_fuel-starts f (n / 10) _)
]

scan_stops : (n : ℕ) (s : List ℕ) → stops s ≡ true → scan_digits n s ≡ (n, s)
unfolding scan_digits
scan_stops n [] h = refl
scan_stops n (c ∷ s) h = ground arith

digit_lem : (d : ℕ) → d < 10 → is_digit (48 + d) ≡ true
digit_lem d h = ground arith

scan_digit :
    (n d : ℕ) (s : List ℕ) → d < 10 → scan_digits n ((48 + d) ∷ s) ≡ scan_digits (n * 10 + d) s
unfolding scan_digits
scan_digit n d s h = rw (digit_lem d h) (ap (λ k. scan_digits k s) (omega arith))

scan-digits_fuel :
    (f n : ℕ) (s : List ℕ) → n ≤ f → scan_digits 0 (digits_fuel f n ++ s) ≡ scan_digits n s
unfolding digits_fuel
scan-digits_fuel zero n s h =
    scan_digit 0 (n % 10) s (omega arith) ∙ ap (λ k. scan_digits k s) (omega arith)
scan-digits_fuel (suc f) n s h = elim (Bool-cases (ltb n 10)) [
  | inl e ↦ rw e (scan_digit 0 n s (ground arith) ∙ ap (λ k. scan_digits k s) (omega arith))
  | inr e ↦
      rw (e, append_assoc)
        (scan-digits_fuel f (n / 10) ((48 + n % 10) ∷ s) (ground arith)
          ∙ scan_digit (n / 10) (n % 10) s (omega arith)
          ∙ ap (λ k. scan_digits k s) (omega arith))
]

digit_only :
    (c : ℕ)
    → is_digit c ≡ true
    → (is_space c ≡ false) × ((c == b'-') ≡ false) × ((c == b'+') ≡ false)
digit_only c h = (ground arith, ground arith, ground arith)

scan_starts :
    (s : List ℕ)
    → starts s ≡ true
    → scan_int s ≡ some (pos (scan_digits 0 s).0, (scan_digits 0 s).1)
unfolding scan_int scan_signed scan_unsigned
scan_starts [] h = cc
scan_starts (c ∷ s) h =
    let (space, minus, plus) = digit_only c h in rw (space, minus, plus, h) (ground arith)

-- A printed number is read back, whatever follows it, if that is no digit.
pub scan_int-decimal :
    (n : ℕ) (s : List ℕ) → stops s ≡ true → scan_int (decimal n ++ s) ≡ some (pos n, s)
unfolding decimal
scan_int-decimal n s h =
    let e = scan-digits_fuel n n s (omega arith) ∙ scan_stops n s h in
    scan_starts _ (digits_fuel-starts n n s) ∙ ap (λ r. some (pos r.0, r.1)) e
