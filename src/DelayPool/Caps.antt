-- ===== src/DelayPool/Caps.antt =====
-- src/mod_tile.c, `delay_allowed`: no bucket ever holds more than its size.
use mod_tile.Base.{
  ℕ, ◌+◌, ◌≡◌, ℤ, pos, ltb_ℤ, ◌+ℤ◌, Bool, true, false, ◌||◌, ◌&&◌, not, List, [], ◌∷◌, ltb, ◌==◌,
  if◌then◌else◌, arith, Bool-cases, if_both, inl, inr, eq_list,
}
use mod_tile.DelayPool.{
  DelaypoolEntry, Delaypool, Throttling, take_tokens, top_up, fill_user, fill_users,
  delay_hashtable_size, fillup, Turn, with_user, rounds, new_user, account, Address, v4, v6,
  no_address, delay_checked, delay_allowed,
}

module _ (cfg : Throttling) where
  abbrev pub HoldsAtMost : DelaypoolEntry → Type 0
  HoldsAtMost u =
      (ltb_ℤ cfg.delaypool_tile_size u.available_tiles ≡ false)
      × (ltb_ℤ cfg.delaypool_render_size u.available_render_req ≡ false)

  abbrev pub IsCapped : Delaypool → Type 0
  IsCapped d = (i : ℕ) → HoldsAtMost (d.users i)

  take-HoldsAtMost :
      (missing : Bool) (u : DelaypoolEntry) → HoldsAtMost u → HoldsAtMost (take_tokens missing u).1
  unfolding take_tokens
  take-HoldsAtMost true u h = elim (Bool-cases (ltb_ℤ (pos 0) u.available_tiles)) [
    | inl e ↦ elim (Bool-cases (ltb_ℤ (pos 0) u.available_render_req)) [
      | inl f ↦ ground arith
      | inr f ↦ ground arith
    ]
    | inr e ↦ ground arith
  ]
  take-HoldsAtMost false u h = ground arith

  top_up-capped : (size available n : ℤ) → ltb_ℤ size (top_up size available n) ≡ false
  unfolding top_up
  top_up-capped size available n = elim (Bool-cases (ltb_ℤ size (available +ℤ n))) [
    | inl e ↦ rw e (ground arith)
    | inr e ↦ rw e e
  ]

  fill_users-capped :
      (m n : ℤ) (users : ℕ → DelaypoolEntry)
      → ((i : ℕ) → HoldsAtMost (users i))
      → (i : ℕ) → HoldsAtMost (fill_users cfg m n users i)
  unfolding fill_users fill_user
  fill_users-capped m n users h i =
      if_both HoldsAtMost ((ltb_ℤ (pos 0) m || ltb_ℤ (pos 0) n) && ltb i delay_hashtable_size)
        {x = fill_user cfg m n (users i)}
        (
          top_up-capped cfg.delaypool_tile_size (users i).available_tiles m,
          top_up-capped cfg.delaypool_render_size (users i).available_render_req n,
        )
        (h i)

  fillup-IsCapped : (now : ℤ) (d : Delaypool) → IsCapped d → IsCapped (fillup cfg now d)
  unfolding fillup
  fillup-IsCapped now d h = fill_users-capped _ _ d.users h

  with_user-IsCapped :
      (d : Delaypool) (key : ℕ) (u : DelaypoolEntry)
      → IsCapped d
      → HoldsAtMost u
      → IsCapped (with_user d key u)
  unfolding with_user
  with_user-IsCapped d key u h k i = elim (Bool-cases (i == key)) [
    | inl e ↦ rw e k
    | inr e ↦ rw e (h i)
  ]

  -- The other processes keep the caps while this one sleeps.
  abbrev pub AreFair : Turn → Type 0
  AreFair t = (d : Delaypool) → IsCapped d → IsCapped (t.others d)

  pub data AllFair : List Turn → Type 0 where
    no_turns : AllFair []
    one_more : {t : Turn} {ts : List Turn} → AreFair t → AllFair ts → AllFair (t ∷ ts)

  rounds-IsCapped :
      (missing : Bool) (key j delay : ℕ) (ts : List Turn) (d : Delaypool)
      → AllFair ts
      → IsCapped d
      → IsCapped (rounds cfg missing key j delay ts d).1
  unfolding rounds
  rounds-IsCapped missing key j delay [] d f h = h
  rounds-IsCapped missing key j delay (t ∷ ts) d (one_more fair f) h =
      let (delay', u) = take_tokens missing (d.users key) in
      let taken = with_user d key u in
      let h1 = with_user-IsCapped d key u h (take-HoldsAtMost missing (d.users key) (h key)) in
      let slept = if ltb 0 j then t.others taken else taken in
      let h2 : IsCapped slept = if_both IsCapped (ltb 0 j) (fair taken h1) h1 in
      if_both (λ (r : ℕ × Delaypool). IsCapped r.1) (delay' == 0) {x = (0, taken)} h1
        (if_both (λ (r : ℕ × Delaypool). IsCapped r.1) (ltb 0 j && not t.relocked)
          {x = (delay', slept)} h2
          (rounds-IsCapped missing key (j + 1) delay' ts (fillup cfg t.now slept) f
            (fillup-IsCapped t.now slept h2)))

  ltb_ℤ_irrefl : (a : ℤ) → ltb_ℤ a a ≡ false
  ltb_ℤ_irrefl a = ground arith

  module _ (missing lock : Bool) (t0 t1 t2 : Turn) (f : AllFair (t0 ∷ t1 ∷ t2 ∷ [])) where
    account-IsCapped :
        (key : ℕ) (ip : List ℕ) (d : Delaypool)
        → IsCapped d
        → IsCapped (account cfg missing key ip t0 t1 t2 d).1
    unfolding account new_user
    account-IsCapped key ip d h =
        if_both (λ (r : ℕ × Delaypool). IsCapped r.1) (eq_list (d.users key).ip_addr ip)
          (rounds-IsCapped missing key 0 0 (t0 ∷ t1 ∷ t2 ∷ []) d f h)
          (with_user-IsCapped d key _ h
            (ltb_ℤ_irrefl cfg.delaypool_tile_size, ltb_ℤ_irrefl cfg.delaypool_render_size))

    delay_checked-IsCapped :
        (ip : List ℕ) (word : ℕ) (d : Delaypool)
        → IsCapped d
        → IsCapped (delay_checked cfg missing lock ip word t0 t1 t2 d).1
    unfolding delay_checked
    delay_checked-IsCapped ip word d h =
        if_both (λ (r : Bool × Delaypool). IsCapped r.1) d.locked h
          (if_both (λ (r : Bool × Delaypool). IsCapped r.1) (not lock) h
            (account-IsCapped _ ip d h))

    -- Whatever the client's address and the times: where no bucket holds more than its size before the
    -- call, and the other processes keep it so while this one sleeps, none does after the call.
    pub delay_allowed-IsCapped :
        (a : Address) (d : Delaypool)
        → IsCapped d
        → IsCapped (delay_allowed cfg missing lock a t0 t1 t2 d).1
    unfolding delay_allowed
    delay_allowed-IsCapped (v4 a) d h =
        if_both (λ (r : Bool × Delaypool). IsCapped r.1) _ h
          (delay_checked-IsCapped (0 ∷ 0 ∷ 0 ∷ a ∷ []) a d h)
    delay_allowed-IsCapped (v6 w x y z) d h = delay_checked-IsCapped (w ∷ x ∷ y ∷ z ∷ []) _ d h
    delay_allowed-IsCapped no_address d h = h
