-- ===== src/Base/Slices.antt =====
-- Lists cut at a position and written at a position.
use Prim.Native.Nat.{ℕ, zero, suc, ◌+◌, ◌-◌, ◌≤◌}
use mathlib.Core.Path.{◌≡◌, refl, ap, ◌∙◌}
use mathlib.Core.List.{List, [], ◌∷◌, ◌++◌}
use native.Mathlib.Omega.{arith}
use mod_tile.Base.Lists.{length, take, drop, get_or, set, replicate}

module _ {ℓ} {A : Type ℓ} where
  pub take-append : (n : ℕ) (xs ys : List A) → n ≡ length xs → take n (xs ++ ys) ≡ xs
  take-append zero [] ys h = refl
  take-append zero (x ∷ xs) ys h = absurd (omega arith)
  take-append (suc n) [] ys h = absurd (omega arith)
  take-append (suc n) (x ∷ xs) ys h = ap (◌∷◌ x) (take-append n xs ys (omega arith))

  pub drop-append : (n k : ℕ) (xs ys : List A) → n ≡ length xs + k → drop n (xs ++ ys) ≡ drop k ys
  drop-append n k [] ys h = ap (λ m. drop m ys) (omega arith)
  drop-append zero k (x ∷ xs) ys h = absurd (omega arith)
  drop-append (suc n) k (x ∷ xs) ys h = drop-append n k xs ys (omega arith)

  pub take_all : (n : ℕ) (xs : List A) → length xs ≤ n → take n xs ≡ xs
  take_all zero [] h = refl
  take_all zero (x ∷ xs) h = absurd (omega arith)
  take_all (suc n) [] h = refl
  take_all (suc n) (x ∷ xs) h = ap (◌∷◌ x) (take_all n xs (omega arith))

  pub drop-replicate : (n k : ℕ) (a : A) → drop n (replicate (n + k) a) ≡ replicate k a
  drop-replicate zero k a = ap (λ m. replicate m a) (omega arith)
  drop-replicate (suc n) k a = ap (λ m. drop (suc n) (replicate m a)) shift ∙ drop-replicate n k a
    where
      shift : suc n + k ≡ suc (n + k)
      shift = omega arith

  pub set-append :
      (n : ℕ) (xs ys : List A) (x v : A) → n ≡ length xs → set (xs ++ x ∷ ys) n v ≡ xs ++ v ∷ ys
  set-append zero [] ys x v h = refl
  set-append zero (y ∷ xs) ys x v h = absurd (omega arith)
  set-append (suc n) [] ys x v h = absurd (omega arith)
  set-append (suc n) (y ∷ xs) ys x v h = ap (◌∷◌ y) (set-append n xs ys x v (omega arith))

  pub get_or-append :
      (n : ℕ) (xs ys : List A) (x d : A) → n ≡ length xs → get_or (xs ++ x ∷ ys) n d ≡ x
  get_or-append zero [] ys x d h = refl
  get_or-append zero (y ∷ xs) ys x d h = absurd (omega arith)
  get_or-append (suc n) [] ys x d h = absurd (omega arith)
  get_or-append (suc n) (y ∷ xs) ys x d h = get_or-append n xs ys x d (omega arith)

  pub length-replicate : (n : ℕ) (a : A) → length (replicate n a) ≡ n
  length-replicate zero a = refl
  length-replicate (suc n) a = ap suc (length-replicate n a)

  pub take_nil : (n : ℕ) → take {A = A} n [] ≡ []
  take_nil zero = refl
  take_nil (suc n) = refl

  pub drop_nil : (n : ℕ) → drop {A = A} n [] ≡ []
  drop_nil zero = refl
  drop_nil (suc n) = refl

  pub take_split :
      (k n : ℕ) (xs : List A) → k ≤ n → take k xs ++ take (n - k) (drop k xs) ≡ take n xs
  take_split zero n xs h = ap (λ m. take m xs) (omega arith)
  take_split (suc k) zero xs h = absurd (omega arith)
  take_split (suc k) (suc n) [] h = take_nil (suc n - suc k)
  take_split (suc k) (suc n) (x ∷ xs) h =
      ap (λ m. x ∷ take k xs ++ take m (drop k xs)) (omega arith)
      ∙ ap (◌∷◌ x) (take_split k n xs (omega arith))

  pub drop_split : (k n : ℕ) (xs : List A) → k ≤ n → drop (n - k) (drop k xs) ≡ drop n xs
  drop_split zero n xs h = ap (λ m. drop m xs) (omega arith)
  drop_split (suc k) zero xs h = absurd (omega arith)
  drop_split (suc k) (suc n) [] h = drop_nil (suc n - suc k)
  drop_split (suc k) (suc n) (x ∷ xs) h =
      ap (λ m. drop m (drop k xs)) (omega arith) ∙ drop_split k n xs (omega arith)

  pub length-take-le : (n : ℕ) (xs : List A) → length (take n xs) ≤ n
  length-take-le zero xs = omega arith
  length-take-le (suc n) [] = omega arith
  length-take-le (suc n) (x ∷ xs) = omega (arith, length-take-le n xs)

  pub take++drop : (n : ℕ) (xs : List A) → take n xs ++ drop n xs ≡ xs
  take++drop zero xs = refl
  take++drop (suc n) [] = refl
  take++drop (suc n) (x ∷ xs) = ap (◌∷◌ x) (take++drop n xs)

  pub length-take : (n : ℕ) (xs : List A) → n ≤ length xs → length (take n xs) ≡ n
  length-take zero xs h = refl
  length-take (suc n) [] h = absurd (omega arith)
  length-take (suc n) (x ∷ xs) h = ap suc (length-take n xs (omega arith))

  pub length-drop : (n : ℕ) (xs : List A) → length (drop n xs) ≡ length xs - n
  length-drop zero xs = omega arith
  length-drop (suc n) [] = omega arith
  length-drop (suc n) (x ∷ xs) = omega (arith, length-drop n xs)
