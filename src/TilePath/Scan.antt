-- ===== src/TilePath/Scan.antt =====
-- `sscanf` of the C library with the format of src/store_file_utils.c,
-- "/%40[^/]/%d/%d/%d/%d/%d/%d", and the comparison of a path with its prefix.
use mod_tile.Base.{
  ℕ, zero, suc, ◌+◌, ◌-◌, ◌*◌, ℤ, pos, negsuc, Bool, ◌&&◌, ◌||◌, List, [], ◌∷◌, Option, none, some,
  leb, ◌==◌, if◌then◌else◌,
}

infixl 5 ◌>>=◌
abbrev pub ◌>>=◌ {ℓ κ} : {A : Type ℓ} {B : Type κ} → Option A → (A → Option B) → Option B
none >>= f = none
some a >>= f = f a

abbrev pub is_digit : ℕ → Bool
is_digit c = leb b'0' c && leb c b'9'

abbrev pub is_space : ℕ → Bool
is_space c = c == 32 || leb 9 c && leb c 13

-- A character of the format that stands for itself
unfoldable pub scan_char : ℕ → List ℕ → Option (List ℕ)
scan_char c [] = none
scan_char c (d ∷ s) = if c == d then some s else none

-- The bytes of "%40[^/]" before the next slash, as many as the width allows
unfoldable pub scan_until_slash : ℕ → List ℕ → List ℕ × List ℕ
scan_until_slash zero s = ([], s)
scan_until_slash (suc width) [] = ([], [])
scan_until_slash (suc width) (c ∷ s) =
    let rest = scan_until_slash width s in if c == b'/' then ([], c ∷ s) else (c ∷ rest.0, rest.1)

-- The conversion fails where nothing fits.
unfoldable pub name_or_none : List ℕ × List ℕ → Option (List ℕ × List ℕ)
name_or_none ([], rest) = none
name_or_none (c ∷ cs, rest) = some (c ∷ cs, rest)

unfoldable pub scan_name : List ℕ → Option (List ℕ × List ℕ)
unfolding name_or_none
scan_name s = name_or_none (scan_until_slash 40 s)

-- The value of the digits that come next
unfoldable pub scan_digits : ℕ → List ℕ → ℕ × List ℕ
scan_digits n [] = (n, [])
scan_digits n (c ∷ s) =
    let rest = scan_digits (n * 10 + (c - 48)) s in if is_digit c then rest else (n, c ∷ s)

unfoldable pub scan_unsigned : List ℕ → Option (ℕ × List ℕ)
unfolding scan_digits
scan_unsigned [] = none
scan_unsigned (c ∷ s) = if is_digit c then some (scan_digits 0 (c ∷ s)) else none

abbrev negate : ℕ → ℤ
negate zero = pos 0
negate (suc n) = negsuc n

-- An optional sign and the digits
unfoldable pub scan_signed : List ℕ → Option (ℤ × List ℕ)
unfolding scan_unsigned
scan_signed [] = none
scan_signed (c ∷ s) =
    if c == b'-'
    then (scan_unsigned s >>= λ (n, rest). some (negate n, rest))
    else if c == b'+'
    then (scan_unsigned s >>= λ (n, rest). some (pos n, rest))
    else scan_unsigned (c ∷ s) >>= λ (n, rest). some (pos n, rest)

-- "%d", which skips white space first
unfoldable pub scan_int : List ℕ → Option (ℤ × List ℕ)
unfolding scan_signed
scan_int [] = none
scan_int (c ∷ s) = let rest = scan_int s in if is_space c then rest else scan_signed (c ∷ s)

pub record Scanned : Type 0 where
  pub xmlconfig : List ℕ
  pub z : ℤ
  pub hash : List ℤ

-- "/%d", so many times
unfoldable pub scan_ints : ℕ → List ℕ → Option (List ℤ)
unfolding scan_char scan_int
scan_ints zero s = some []
scan_ints (suc n) s = do
  s ← scan_char b'/' s
  (i, s) ← scan_int s
  is ← scan_ints n s
  some (i ∷ is)

-- `none` unless all seven conversions succeed
unfoldable pub scan_path : List ℕ → Option Scanned
scan_path s = do
  s ← scan_char b'/' s
  (xmlconfig, s) ← scan_name s
  s ← scan_char b'/' s
  (z, s) ← scan_int s
  hash ← scan_ints 5 s
  some (record { xmlconfig = xmlconfig; z = z; hash = hash })

-- What follows the prefix, if the text has it
unfoldable pub strip_prefix : List ℕ → List ℕ → Option (List ℕ)
strip_prefix [] s = some s
strip_prefix (p ∷ ps) [] = none
strip_prefix (p ∷ ps) (c ∷ s) = if p == c then strip_prefix ps s else none
