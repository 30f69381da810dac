-- ===== src/TileHeaders.antt =====
-- src/mod_tile.c: `add_cors` and `add_expiry`, the headers of an answer, and `get_global_lock`, which
-- guards the shared counters and buckets.
pub mod Cors
pub mod Expiry
pub mod Lock
mod Tests
use mod_tile.Base.{
  ℕ, zero, suc, ◌+◌, ◌-◌, ◌/◌, ◌<◌, ℤ, pos, ltb_ℤ, ◌+ℤ◌, Bool, true, false, not, ◌&&◌, ◌||◌, List,
  [], ◌∷◌, Option, none, some, ◌==◌, if◌then◌else◌, eq_list, length,
}
use mod_tile.TileServer.{TileState, tile_old, tile_very_old}
use mod_tile.GenTile.Projection.{strstr}

-- "*" and "OPTIONS"
abbrev pub any_origin : List ℕ
any_origin = b'*' ∷ []

abbrev pub options_method : List ℕ
options_method = b'O' ∷ b'P' ∷ b'T' ∷ b'I' ∷ b'O' ∷ b'N' ∷ b'S' ∷ []

-- What `add_cors` returns
pub data CorsStatus : Type 0 where
  cors_done cors_ok cors_forbidden : CorsStatus

-- The headers that it sets
pub record CorsHeaders : Type 0 where
  pub allow_origin : Option (List ℕ)
  pub vary : Bool
  pub allow_headers : Option (List ℕ)
  pub max_age : Option ℕ

abbrev pub no_cors : CorsHeaders
no_cors = record { allow_origin = none; vary = false; allow_headers = none; max_age = none }

-- The answer to a preflight request: its method is OPTIONS and it names the method to come.
unfoldable pub preflight : List ℕ → Bool → Option (List ℕ) → CorsHeaders → CorsStatus × CorsHeaders
preflight method request_method request_headers h =
    if eq_list method options_method && request_method
    then (cors_ok, record h { allow_headers = request_headers; max_age = some 604800 })
    else (cors_done, h)

unfoldable pub add_cors :
    Option (List ℕ) → List ℕ → List ℕ → Bool → Option (List ℕ) → CorsStatus × CorsHeaders
unfolding preflight
add_cors none cors method request_method request_headers = (cors_done, no_cors)
add_cors (some origin) cors method request_method request_headers =
    if eq_list cors any_origin
    then preflight method request_method request_headers
        (record no_cors { allow_origin = some cors })
    else if strstr cors origin
    then preflight method request_method request_headers
        (record no_cors { allow_origin = some origin; vary = true })
    else (cors_forbidden, no_cors)

-- The settings of the expiry of tiles, in seconds
pub record CacheConf : Type 0 where
  pub cache_extended_hostname : List ℕ
  pub cache_extended_duration : ℤ
  pub cache_duration_dirty : ℤ
  pub cache_duration_max : ℤ
  pub mincachetime : ℤ → ℤ

abbrev max_ℤ : ℤ → ℤ → ℤ
max_ℤ a b = if ltb_ℤ b a then a else b

abbrev min_ℤ : ℤ → ℤ → ℤ
min_ℤ a b = if ltb_ℤ a b then a else b

-- `maxAge` of `add_expiry`. What it computes with floating-point numbers are arguments: the two random
-- delays, and the age of the tile times its factor.
unfoldable pub max_age : CacheConf → List ℕ → TileState → ℤ → ℤ → ℤ → ℤ → ℤ → ℤ
max_age c hostname state z maxzoom dirty_holdoff last_modified holdoff =
    if not (length c.cache_extended_hostname == 0) && strstr hostname c.cache_extended_hostname
    then c.cache_extended_duration
    else min_ℤ (aged state) c.cache_duration_max
  where
    fresh : ℤ
    fresh = max_ℤ (if ltb_ℤ maxzoom z then pos 0 else c.mincachetime z) last_modified +ℤ holdoff

    aged : TileState → ℤ
    aged tile_old = c.cache_duration_dirty +ℤ dirty_holdoff
    aged tile_very_old = c.cache_duration_dirty +ℤ dirty_holdoff
    aged _ = fresh

-- The result of `apr_global_mutex_trylock`, and that of the lock itself where there is no such call
pub data TryLock : Type 0 where
  busy locked failed : TryLock
  not_implemented : Bool → TryLock

abbrev pub max_camp : ℕ
max_camp = 10

-- `get_global_lock` with so many tries left; `results` gives what the tries return, in their order.
unfoldable pub get_lock_from : ℕ → (ℕ → TryLock) → Bool
get_lock_from zero results = false
get_lock_from (suc n) results =
    let later = get_lock_from n (λ k. results (suc k)) in
    elim (results 0) [ busy ↦ later | locked ↦ true | not_implemented ok ↦ ok | failed ↦ false ]

unfoldable pub get_global_lock : (ℕ → TryLock) → Bool
unfolding get_lock_from
get_global_lock results = get_lock_from max_camp results
