-- ===== src/TileHeaders/Cors.antt =====
-- src/mod_tile.c, `add_cors`: which origins are allowed.
use mod_tile.Base.{
  ℕ, ◌≡◌, ◌≢◌, ◌↔◌, ◌⊎◌, inl, inr, refl, sym, ◌∙◌, ap, Bool, true, false, ◌&&◌, List, [], ◌∷◌, ◌++◌,
  Option, some, arith, eq_list, eq_list→eq, Bool-cases, if_both,
}
use mod_tile.GenTile.Projection.{is_prefix, strstr}
use mod_tile.TileHeaders.{
  CorsStatus, cors_forbidden, cors_ok, CorsHeaders, add_cors, preflight, any_origin, options_method,
}

abbrev pub IsPart : List ℕ → List ℕ → Type 0
IsPart needle s = (before : List ℕ) × (behind : List ℕ) × (s ≡ before ++ (needle ++ behind))

is_prefix_sound : (n s : List ℕ) → is_prefix n s ≡ true → (behind : List ℕ) × (s ≡ n ++ behind)
unfolding is_prefix
is_prefix_sound [] s h = (s, refl)
is_prefix_sound (x ∷ n) [] h = absurd (cc)
is_prefix_sound (x ∷ n) (y ∷ s) h =
    let e : x ≡ y = ground arith in
    let (behind, k) = is_prefix_sound n s (ground arith) in (behind, λ i. sym e i ∷ k i)

is_prefix-append : (n behind : List ℕ) → is_prefix n (n ++ behind) ≡ true
unfolding is_prefix
is_prefix-append [] behind = refl
is_prefix-append (x ∷ n) behind = ground (arith, is_prefix-append n behind)

strstr_sound : (s n : List ℕ) → strstr s n ≡ true → IsPart n s
unfolding strstr
strstr_sound [] n h = let (b, e) = is_prefix_sound n [] h in ([], b, e)
strstr_sound (c ∷ s) n h = elim (Bool-cases (is_prefix n (c ∷ s))) [
  | inl k ↦ let (b, e) = is_prefix_sound n (c ∷ s) k in ([], b, e)
  | inr k ↦ let (a, b, e) = strstr_sound s n (rw k at h) in (c ∷ a, b, ap (◌∷◌ c) e)
]

strstr-append : (before n behind : List ℕ) → strstr (before ++ (n ++ behind)) n ≡ true
unfolding strstr
strstr-append [] n behind = here (n ++ behind) (is_prefix-append n behind)
  where
    here : (s : List ℕ) → is_prefix n s ≡ true → strstr s n ≡ true
    here [] h = h
    here (c ∷ s) h = rw h refl
strstr-append (c ∷ before) n behind =
    elim (Bool-cases (is_prefix n (c ∷ (before ++ (n ++ behind))))) [
      | inl k ↦ rw k refl
      | inr k ↦ rw k (strstr-append before n behind)
    ]

not_both : {b : Bool} → b ≡ true → b ≡ false → ⊥
not_both h j = cc

module _ (method : List ℕ) (request_method : Bool) (request_headers : Option (List ℕ)) where
  not_forbidden :
      (h : CorsHeaders) → (preflight method request_method request_headers h).0 ≢ cors_forbidden
  unfolding preflight
  not_forbidden h =
      if_both {A = CorsStatus × CorsHeaders} (λ r. r.0 ≢ cors_forbidden)
        (eq_list method options_method && request_method)
        {x = (cors_ok, record h { allow_headers = request_headers; max_age = some 604800 })}
        (λ e. cc) (λ e. cc)

  keeps_origin :
      (h : CorsHeaders)
      → (preflight method request_method request_headers h).1.allow_origin ≡ h.allow_origin
  unfolding preflight
  keeps_origin h =
      if_both {A = CorsStatus × CorsHeaders} (λ r. r.1.allow_origin ≡ h.allow_origin)
        (eq_list method options_method && request_method)
        {x = (cors_ok, record h { allow_headers = request_headers; max_age = some 604800 })} refl
        refl

  keeps_vary :
      (h : CorsHeaders) → (preflight method request_method request_headers h).1.vary ≡ h.vary
  unfolding preflight
  keeps_vary h =
      if_both {A = CorsStatus × CorsHeaders} (λ r. r.1.vary ≡ h.vary)
        (eq_list method options_method && request_method)
        {x = (cors_ok, record h { allow_headers = request_headers; max_age = some 604800 })} refl
        refl

  -- What the policy says of an origin
  abbrev pub Allowed : List ℕ → List ℕ → Type 0
  Allowed origin cors = (cors ≡ any_origin) ⊎ IsPart origin cors

  -- An origin is rejected exactly if the policy is not "*" and does not have the origin as a part. Where
  -- the policy is "*" the answer allows "*"; where it is not, and has the origin as a part, the answer
  -- allows this very origin, and says that it varies with the origin.
  pub add_cors_lem :
      (origin cors : List ℕ)
      → (((add_cors (some origin) cors method request_method request_headers).0 ≡ cors_forbidden)
          ↔ (¬ Allowed origin cors))
        × (cors ≡ any_origin
            → (add_cors (some origin) cors method request_method request_headers).1.allow_origin
              ≡ some any_origin)
        × (cors ≢ any_origin
            → IsPart origin cors
            → ((add_cors (some origin) cors method request_method request_headers).1.allow_origin
                ≡ some origin)
              × ((add_cors (some origin) cors method request_method request_headers).1.vary ≡ true))
  unfolding add_cors
  add_cors_lem origin cors = elim (Bool-cases (eq_list cors any_origin)) [
    | inl e ↦
        let same = eq_list→eq cors any_origin e in
        rw e (
          (λ h. absurd (not_forbidden _ h), λ n. absurd (n (inl same))),
          λ a. keeps_origin _ ∙ ap some same,
          λ ne part. absurd (ne same),
        )
    | inr e ↦ elim (Bool-cases (strstr cors origin)) [
      | inl k ↦
          rw (e, k)
            (
              (λ h. absurd (not_forbidden _ h), λ n. absurd (n (inr (strstr_sound cors origin k)))),
              λ same. absurd (not_any e same),
              λ ne part. (keeps_origin _, keeps_vary _),
            )
      | inr k ↦
          rw (e, k)
            (
              (λ h. none_allowed e k, λ n. refl),
              λ same. absurd (not_any e same),
              λ ne part. absurd (none_allowed e k (inr part)),
            )
    ]
  ]
    where
      not_any : eq_list cors any_origin ≡ false → cors ≢ any_origin
      not_any e same = not_both (ap (λ l. eq_list l any_origin) same) e

      none_allowed :
          eq_list cors any_origin ≡ false → strstr cors origin ≡ false → ¬ Allowed origin cors
      none_allowed e k (inl same) = not_any e same
      none_allowed e k (inr (a, b, part)) =
          not_both (ap (λ l. strstr l origin) part ∙ strstr-append a origin b) k
