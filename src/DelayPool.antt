-- ===== src/DelayPool.antt =====
-- src/mod_tile.c, `delay_allowed`, with includes/mod_tile.h: each client has a bucket of tokens for tiles
-- and one for renderings, in a hash table that the server processes share. Counts of tokens are taken
-- to fit an `int`, and an IPv4 address is an IPv6 address of which the first 12 bytes are zero.
pub mod Caps
pub mod Refill
mod Tests
use Prim.Native.Nat.{bit_xor}
use mod_tile.Base.{
  ℕ, zero, suc, ◌+◌, ◌-◌, ◌*◌, ◌/◌, ◌%◌, ℤ, pos, negsuc, ltb_ℤ, ◌+ℤ◌, ◌-ℤ◌, quot, scale, Bool, true,
  false, ◌||◌, ◌&&◌, not, List, [], ◌∷◌, Option, none, some, ltb, ◌==◌, if◌then◌else◌, eq_list,
}

abbrev pub delay_hashtable_size : ℕ
delay_hashtable_size = 100057

abbrev pub delay_hashtable_whitelist_size : ℕ
delay_hashtable_whitelist_size = 13

-- `delaypool_entry`; an address is its four words.
pub record DelaypoolEntry : Type 0 where
  pub ip_addr : List ℕ
  pub available_tiles : ℤ
  pub available_render_req : ℤ

-- `delaypool`
pub record Delaypool : Type 0 where
  pub users : ℕ → DelaypoolEntry
  pub whitelist : ℕ → ℕ
  pub last_tile_fillup : ℤ
  pub last_render_fillup : ℤ
  pub locked : Bool

-- The part of `tile_server_conf` that is read here
pub record Throttling : Type 0 where
  pub enable_tile_throttling_xforward : ℕ
  pub delaypool_tile_size : ℤ
  pub delaypool_tile_rate : ℕ
  pub delaypool_render_size : ℤ
  pub delaypool_render_rate : ℕ

-- One client asks for one tile: 0, or the kind of token that is missing. What it could take is gone.
unfoldable pub take_tokens : (missing : Bool) → DelaypoolEntry → ℕ × DelaypoolEntry
take_tokens missing u = take_render missing (take_tile u)
  where
    take_tile : DelaypoolEntry → ℕ × DelaypoolEntry
    take_tile u =
        if ltb_ℤ (pos 0) u.available_tiles
        then (0, record u { available_tiles = u.available_tiles -ℤ pos 1 })
        else (1, u)

    take_render : Bool → ℕ × DelaypoolEntry → ℕ × DelaypoolEntry
    take_render false (delay, u) = (delay, u)
    take_render true (delay, u) =
        if ltb_ℤ (pos 0) u.available_render_req
        then (delay, record u { available_render_req = u.available_render_req -ℤ pos 1 })
        else (2, u)

-- A count with its top-up, cut off at the size of the bucket
unfoldable pub top_up : ℤ → ℤ → ℤ → ℤ
top_up size available n = if ltb_ℤ size (available +ℤ n) then size else available +ℤ n

-- The fillup of all buckets
unfoldable pub fill_user : Throttling → ℤ → ℤ → DelaypoolEntry → DelaypoolEntry
unfolding top_up
fill_user cfg tiles_topup render_topup u = record u {
  available_tiles = top_up cfg.delaypool_tile_size u.available_tiles tiles_topup;
  available_render_req = top_up cfg.delaypool_render_size u.available_render_req render_topup;
}

-- The loop over all entries, which runs if there is anything to add.
unfoldable pub fill_users : Throttling → ℤ → ℤ → (ℕ → DelaypoolEntry) → ℕ → DelaypoolEntry
unfolding fill_user
fill_users cfg tiles_topup render_topup users i =
    if (ltb_ℤ (pos 0) tiles_topup || ltb_ℤ (pos 0) render_topup) && ltb i delay_hashtable_size
    then fill_user cfg tiles_topup render_topup (users i)
    else users i

unfoldable pub fillup : Throttling → ℤ → Delaypool → Delaypool
fillup cfg now d = record d {
  users = fill_users cfg tiles_topup render_topup d.users;
  last_tile_fillup = d.last_tile_fillup +ℤ scale cfg.delaypool_tile_rate tiles_topup;
  last_render_fillup = d.last_render_fillup +ℤ scale cfg.delaypool_render_rate render_topup;
}
  where
    tiles_topup : ℤ
    tiles_topup = quot (now -ℤ d.last_tile_fillup) cfg.delaypool_tile_rate

    render_topup : ℤ
    render_topup = quot (now -ℤ d.last_render_fillup) cfg.delaypool_render_rate

-- What happens in a round that finds an empty bucket: in the rounds behind the first one the process
-- sleeps without the lock, `others` is what other processes do meanwhile, and `relocked` tells
-- whether it gets the lock again. `now` is the time of the fillup.
pub record Turn : Type 0 where
  pub others : Delaypool → Delaypool
  pub relocked : Bool
  pub now : ℤ

unfoldable pub with_user : Delaypool → ℕ → DelaypoolEntry → Delaypool
with_user d key u = record d { users = λ i. if i == key then u else d.users i }

-- The rounds of the loop from round `j` on, one for each turn; the answer at the end of the loop is
-- that of the last round.
unfoldable pub rounds : Throttling → Bool → ℕ → ℕ → ℕ → List Turn → Delaypool → ℕ × Delaypool
rounds cfg missing key j delay [] d = (delay, d)
rounds cfg missing key j delay (t ∷ ts) d =
    let (delay', u) = take_tokens missing (d.users key) in
    let taken = with_user d key u in
    let slept = if ltb 0 j then t.others taken else taken in
    let rest = rounds cfg missing key (j + 1) delay' ts (fillup cfg t.now slept) in
    if delay' == 0 then (0, taken) else if ltb 0 j && not t.relocked then (delay', slept) else rest

-- Another client, or none, had the entry: it is this client's now, with full buckets.
unfoldable pub new_user : Throttling → List ℕ → DelaypoolEntry
new_user cfg ip = record {
  ip_addr = ip;
  available_tiles = cfg.delaypool_tile_size;
  available_render_req = cfg.delaypool_render_size;
}

-- The accounting under the lock; the status 0 is a delay of 0.
unfoldable pub account :
    Throttling → Bool → ℕ → List ℕ → Turn → Turn → Turn → Delaypool → ℕ × Delaypool
account cfg missing key ip t0 t1 t2 d =
    if eq_list (d.users key).ip_addr ip
    then rounds cfg missing key 0 0 (t0 ∷ t1 ∷ t2 ∷ []) d
    else (0, with_user d key (new_user cfg ip))

-- What `inet_pton` makes of the client's address
pub data Address : Type 0 where
  v4 : ℕ → Address
  v6 : (a b c d : ℕ) → Address
  no_address : Address

-- The choice of the client's address: `tokens` are those of X-Forwarded-For, if there is one.
unfoldable pub client_ip : ℕ → List ℕ → Option (List (List ℕ)) → Option (List ℕ)
client_ip zero useragent_ip tokens = some useragent_ip
client_ip (suc n) useragent_ip none = some useragent_ip
client_ip (suc n) useragent_ip (some []) = none
client_ip (suc n) useragent_ip (some (t ∷ ts)) = if n == 1 then some (last t ts) else some t
  where
    last : List ℕ → List (List ℕ) → List ℕ
    last t [] = t
    last t (u ∷ us) = last u us

-- From the hash on, for a client that is not in the white list
unfoldable pub delay_checked :
    Throttling → Bool → Bool → List ℕ → ℕ → Turn → Turn → Turn → Delaypool → Bool × Delaypool
delay_checked cfg missing lock ip word t0 t1 t2 d =
    let (delay, d') = account cfg missing (word % delay_hashtable_size) ip t0 t1 t2 d in
    if d.locked then (true, d) else if not lock then (true, d) else (delay == 0, d')

-- `delay_allowed`. `lock` tells whether the lock is had at first.
unfoldable pub delay_allowed :
    Throttling → Bool → Bool → Address → Turn → Turn → Turn → Delaypool → Bool × Delaypool
delay_allowed cfg missing lock (v4 a) t0 t1 t2 d =
    if d.whitelist (a % delay_hashtable_whitelist_size) == a
    then (true, d)
    else delay_checked cfg missing lock (0 ∷ 0 ∷ 0 ∷ a ∷ []) a t0 t1 t2 d
delay_allowed cfg missing lock (v6 w x y z) t0 t1 t2 d =
    delay_checked cfg missing lock (w ∷ x ∷ y ∷ z ∷ []) (bit_xor (bit_xor (bit_xor w x) y) z) t0 t1
      t2 d
delay_allowed cfg missing lock no_address t0 t1 t2 d = (false, d)
