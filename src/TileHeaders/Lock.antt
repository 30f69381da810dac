-- ===== src/TileHeaders/Lock.antt =====
-- src/mod_tile.c, `get_global_lock`: when the lock is taken.
use mod_tile.Base.{
  ℕ, zero, suc, ◌<◌, ◌≡◌, ◌↔◌, ◌⊎◌, inl, inr, refl, ap, ◌∙◌, Bool, true, false, arith,
}
use mod_tile.TileHeaders.{
  TryLock, busy, locked, failed, not_implemented, max_camp, get_lock_from, get_global_lock,
}

abbrev pub Gives : TryLock → Type 0
Gives t = (t ≡ locked) ⊎ (t ≡ not_implemented true)

-- The first try within so many that finds the lock free gives it.
abbrev pub GivenWithin : ℕ → (ℕ → TryLock) → Type 0
GivenWithin n results = (k : ℕ) × (k < n) × ((j : ℕ) → j < k → results j ≡ busy) × Gives (results k)

shift_busy :
    (results : ℕ → TryLock) (k : ℕ)
    → results 0 ≡ busy
    → ((j : ℕ) → j < k → results (suc j) ≡ busy)
    → (j : ℕ) → j < suc k
    → results j ≡ busy
shift_busy results k e f zero h = e
shift_busy results k e f (suc j) h = f j (omega (arith, h))

by_first :
    (n : ℕ) (results : ℕ → TryLock) (later : Bool)
    → (later ≡ true → GivenWithin n (λ k. results (suc k)))
    → (t : TryLock) → results 0 ≡ t
    → elim t [ busy ↦ later | locked ↦ true | not_implemented ok ↦ ok | failed ↦ false ] ≡ true
    → GivenWithin (suc n) results
by_first n results later ih busy e h =
    let (k, l, f, g) = ih h in (suc k, omega (arith, l), shift_busy results k e f, g)
by_first n results later ih locked e h = (0, omega arith, (λ j l. absurd (omega (arith, l))), inl e)
by_first n results later ih (not_implemented ok) e h =
    (0, omega arith, (λ j l. absurd (omega (arith, l))), inr (e ∙ ap not_implemented h))
by_first n results later ih failed e h = absurd (cc)

lock_sound :
    (n : ℕ) (results : ℕ → TryLock) → get_lock_from n results ≡ true → GivenWithin n results
unfolding get_lock_from
lock_sound zero results h = absurd (cc)
lock_sound (suc n) results h =
    by_first n results (get_lock_from n (λ k. results (suc k)))
      (lock_sound n (λ k. results (suc k))) (results 0) refl h

lock_complete :
    (n : ℕ) (results : ℕ → TryLock) → GivenWithin n results → get_lock_from n results ≡ true
unfolding get_lock_from
lock_complete zero results (k, l, f, g) = absurd (omega (arith, l))
lock_complete (suc n) results (zero, l, f, inl e) = rw (e, get_lock_from) refl
lock_complete (suc n) results (zero, l, f, inr e) = rw (e, get_lock_from) refl
lock_complete (suc n) results (suc k, l, f, g) =
    let e = f 0 (omega arith) in
    rw (e, get_lock_from)
      (lock_complete n (λ j. results (suc j))
        (k, omega (arith, l), (λ j h. f (suc j) (omega (arith, h))), g))

-- Whatever other processes do with the lock: it is taken exactly if one of the ten tries finds it free,
-- or finds that there are no tries and the wait for the lock succeeds, and every try before finds it
-- busy.
pub get_global_lock_lem :
    (results : ℕ → TryLock) → (get_global_lock results ≡ true) ↔ GivenWithin max_camp results
unfolding get_global_lock
get_global_lock_lem results = (lock_sound max_camp results, lock_complete max_camp results)
