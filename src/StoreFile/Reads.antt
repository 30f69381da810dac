-- ===== src/StoreFile/Reads.antt =====
-- src/store_file.c: the loops around `read`. However the kernel splits the bytes up, a loop that meets
-- no error has read what one complete `read` would have.
use mod_tile.Base.{
  ℕ, zero, suc, ◌-◌, ◌≤◌, ◌≡◌, refl, Bool, true, false, List, [], ◌∷◌, none, some, arith, length,
  take, drop, take_split, drop_split, length-take-le, length-append, ltb, if◌then◌else◌,
}
use mod_tile.StoreFile.{Schedule, ReadOutcome, read_error, got, got_more, read_loop}

abbrev pub error_free : Schedule → Bool
error_free [] = true
error_free (none ∷ s) = false
error_free (some n ∷ s) = error_free s

-- With no error among the calls, and however few bytes each one returns, the loop ends with the first
-- `want` bytes of the file, or with all of them where there are fewer, and with the rest ahead.
pub read_loop_lem :
    (s : Schedule) (want : ℕ) (bytes : List ℕ)
    → error_free s ≡ true
    → read_loop s want bytes ≡ got (take want bytes) (drop want bytes)
unfolding read_loop
read_loop_lem [] want bytes h = refl
read_loop_lem (none ∷ s) want bytes h = cc
read_loop_lem (some n ∷ s) zero bytes h = refl
read_loop_lem (some n ∷ s) (suc want) [] h = refl
read_loop_lem (some n ∷ s) (suc want) (b ∷ bytes) h =
    let k = if ltb n want then n else want in
    let within : k ≤ want = ground arith in
    rw (
      read_loop_lem s (want - k) (drop k bytes) h,
      take_split k want bytes within,
      drop_split k want bytes within,
    )

got_more-bound :
    (front : List ℕ) (k want : ℕ) (r : ReadOutcome) (tile rest : List ℕ)
    → ((t u : List ℕ) → r ≡ got t u → length t ≤ want - k)
    → length front ≤ k
    → k ≤ want
    → got_more front r ≡ got tile rest
    → length tile ≤ want
got_more-bound front k want read_error tile rest f h r e = cc
got_more-bound front k want (got t u) tile rest f h r e =
    ground (arith, length-append front t, f t u refl)

-- Never more than was wanted.
pub read_loop_bound :
    (s : Schedule) (want : ℕ) (bytes tile rest : List ℕ)
    → read_loop s want bytes ≡ got tile rest
    → length tile ≤ want
unfolding read_loop
read_loop_bound [] want bytes tile rest e = ground (arith, length-take-le want bytes)
read_loop_bound (none ∷ s) zero bytes tile rest e = ground arith
read_loop_bound (none ∷ s) (suc want) bytes tile rest e = cc
read_loop_bound (some n ∷ s) zero bytes tile rest e = ground arith
read_loop_bound (some n ∷ s) (suc want) [] tile rest e = ground arith
read_loop_bound (some n ∷ s) (suc want) (b ∷ bytes) tile rest e =
    let k = if ltb n want then n else want in
    got_more-bound (b ∷ take k bytes) (suc k) (suc want) (read_loop s (want - k) (drop k bytes))
      tile rest (λ t u h. omega (arith, read_loop_bound s (want - k) (drop k bytes) t u h))
      (omega (arith, length-take-le k bytes)) (ground arith) e
