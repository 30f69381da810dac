-- ===== src/Base/Lists.antt =====
-- Lists measured, indexed and counted by native numbers, under the library's names.
use Prim.Native.Nat.{ℕ, zero, suc, ◌+◌, ◌-◌, ◌<◌}
use mathlib.Core.Path.{◌≡◌, refl, ap}
use mathlib.Core.Logic.{◌⊎◌, inl, inr}
use mathlib.Core.Bool.{Bool, true, false, ◌&&◌}
use mathlib.Core.List.{List, [], ◌∷◌, ◌++◌}
use mathlib.Core.Option.{Option, none, some}
use native.Mathlib.Omega.{arith}
use mod_tile.Base.Tests.{◌==◌, if◌then◌else◌}

module _ {ℓ} {A : Type ℓ} where
  abbrev pub length : List A → ℕ
  length [] = 0
  length (x ∷ xs) = suc (length xs)

  abbrev pub get_or : List A → ℕ → A → A
  get_or [] i d = d
  get_or (x ∷ xs) zero d = x
  get_or (x ∷ xs) (suc i) d = get_or xs i d

  -- A write out of bounds changes nothing.
  abbrev pub set : List A → ℕ → A → List A
  set [] i v = []
  set (x ∷ xs) zero v = v ∷ xs
  set (x ∷ xs) (suc i) v = x ∷ set xs i v

  abbrev pub take : ℕ → List A → List A
  take zero xs = []
  take (suc n) [] = []
  take (suc n) (x ∷ xs) = x ∷ take n xs

  abbrev pub drop : ℕ → List A → List A
  drop zero xs = xs
  drop (suc n) [] = []
  drop (suc n) (x ∷ xs) = drop n xs

  abbrev pub replicate : ℕ → A → List A
  replicate zero a = []
  replicate (suc n) a = a ∷ replicate n a

  pub length-append : (xs ys : List A) → length (xs ++ ys) ≡ length xs + length ys
  length-append [] ys = omega arith
  length-append (x ∷ xs) ys = omega (arith, length-append xs ys)

  pub length-set : (xs : List A) (i : ℕ) (v : A) → length (set xs i v) ≡ length xs
  length-set [] i v = refl
  length-set (x ∷ xs) zero v = refl
  length-set (x ∷ xs) (suc i) v = ap suc (length-set xs i v)

-- How often a number stands in a list.
abbrev pub count : ℕ → List ℕ → ℕ
count a [] = 0
count a (x ∷ xs) = (if a == x then 1 else 0) + count a xs

-- The list without the first occurrence of a number.
abbrev pub erase : ℕ → List ℕ → List ℕ
erase a [] = []
erase a (x ∷ xs) = if a == x then xs else x ∷ erase a xs

-- The list without its first entry that passes a test.
abbrev pub erase_first : (ℕ → Bool) → List ℕ → List ℕ
erase_first f [] = []
erase_first f (x ∷ xs) = if f x then xs else x ∷ erase_first f xs

-- The first entry that passes a test.
abbrev pub find_first : (ℕ → Bool) → List ℕ → Option ℕ
find_first f [] = none
find_first f (x ∷ xs) = if f x then some x else find_first f xs

abbrev pub eq_list : List ℕ → List ℕ → Bool
eq_list [] [] = true
eq_list [] (y ∷ ys) = false
eq_list (x ∷ xs) [] = false
eq_list (x ∷ xs) (y ∷ ys) = x == y && eq_list xs ys

pub eq_list→eq : (xs ys : List ℕ) → eq_list xs ys ≡ true → xs ≡ ys
eq_list→eq [] [] h = refl
eq_list→eq [] (y ∷ ys) h = cc
eq_list→eq (x ∷ xs) [] h = cc
eq_list→eq (x ∷ xs) (y ∷ ys) h = ground (arith, eq_list→eq xs ys)

pub eq_list_refl : (xs : List ℕ) → eq_list xs xs ≡ true
eq_list_refl [] = refl
eq_list_refl (x ∷ xs) = ground (arith, eq_list_refl xs)

pub count-append :
    (p : ℕ) (front back : List ℕ) → count p front + count p back ≡ count p (front ++ back)
count-append p [] back = omega arith
count-append p (q ∷ front) back = ground (arith, count-append p front back)

pub count-erase :
    (a b : ℕ) (xs : List ℕ) → count a (erase b xs) ≡ (if a == b then count a xs - 1 else count a xs)
count-erase a b [] = ground arith
count-erase a b (x ∷ xs) = ground (arith, count-erase a b xs)

pub length-erase : (a : ℕ) (xs : List ℕ) → 0 < count a xs → length (erase a xs) + 1 ≡ length xs
length-erase a [] h = absurd (omega arith)
length-erase a (x ∷ xs) h = ground (arith, length-erase a xs)

pub erase_of_absent : (a : ℕ) (xs : List ℕ) → count a xs ≡ 0 → erase a xs ≡ xs
erase_of_absent a [] h = refl
erase_of_absent a (x ∷ xs) h = ground (arith, erase_of_absent a xs)

-- Where one entry only can pass the test, erasing by the test is erasing that entry.
pub erase_first-eq-erase :
    (f : ℕ → Bool) (a : ℕ) (xs : List ℕ)
    → f a ≡ true
    → ((b : ℕ) → 0 < count b xs → f b ≡ true → b ≡ a)
    → erase_first f xs ≡ erase a xs
erase_first-eq-erase f a [] h only = refl
erase_first-eq-erase f a (x ∷ xs) h only =
    ground (arith, only x, erase_first-eq-erase f a xs h (λ b hb. only b (omega arith)))

-- A search that fails has tried every entry.
pub find_first-none :
    (f : ℕ → Bool) (xs : List ℕ) (a : ℕ) → find_first f xs ≡ none → 0 < count a xs → f a ≡ false
find_first-none f [] a e h = absurd (omega arith)
find_first-none f (x ∷ xs) a e h = ground (arith, find_first-none f xs a)

pub find_first-some :
    (f : ℕ → Bool) (xs : List ℕ) (a : ℕ)
    → find_first f xs ≡ some a
    → (f a ≡ true) × (0 < count a xs)
find_first-some f [] a e = cc
find_first-some f (x ∷ xs) a e = ground (arith, find_first-some f xs a)

pub List-cases {ℓ} : {A : Type ℓ} (l : List A) → (l ≡ []) ⊎ ((x : A) × (xs : List A) × (l ≡ x ∷ xs))
List-cases [] = inl refl
List-cases (x ∷ xs) = inr (x, xs, refl)

pub append-eq-nil {ℓ} : {A : Type ℓ} (xs ys : List A) → xs ++ ys ≡ [] → (xs ≡ []) × (ys ≡ [])
append-eq-nil [] ys h = (refl, h)
append-eq-nil (x ∷ xs) ys h = cc

pub eq_list_comm : (xs ys : List ℕ) → eq_list xs ys ≡ eq_list ys xs
eq_list_comm [] [] = refl
eq_list_comm [] (y ∷ ys) = refl
eq_list_comm (x ∷ xs) [] = refl
eq_list_comm (x ∷ xs) (y ∷ ys) = ground (arith, eq_list_comm xs ys)
