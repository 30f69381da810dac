-- ===== src/DelayPool/Tests.antt =====
-- The throttling of a concrete client.
use mod_tile.Base.{ℕ, ◌≡◌, refl, pos, true, false, [], ◌∷◌}
use mod_tile.DelayPool.{
  Delaypool, Throttling, fillup, Turn, v4, delay_allowed, delay_checked, account, rounds,
  take_tokens, with_user, new_user, fill_users, fill_user, top_up,
}
use mod_tile.DelayPool.Caps.{IsCapped, no_turns, one_more, delay_allowed-IsCapped}

abbrev cfg : Throttling
cfg = record {
  enable_tile_throttling_xforward = 0;
  delaypool_tile_size = pos 5;
  delaypool_tile_rate = 1000;
  delaypool_render_size = pos 2;
  delaypool_render_rate = 5000;
}

abbrev client : ℕ
client = 77

-- The client has no tiles left and one rendering.
abbrev pool : Delaypool
pool = record {
  users = λ i. record {
    ip_addr = 0 ∷ 0 ∷ 0 ∷ client ∷ [];
    available_tiles = pos 0;
    available_render_req = pos 1;
  };
  whitelist = λ i. 0;
  last_tile_fillup = pos 10000;
  last_render_fillup = pos 10000;
  locked = false;
}

abbrev turn : ℕ → Turn
turn now = record { others = λ d. d; relocked = true; now = pos now }

-- Without a top-up the request is refused, with one in the meantime it is allowed.
refused_then_allowed :
    ((delay_allowed cfg false true (v4 client) (turn 10001) (turn 10002) (turn 10003) pool).0
      ≡ false)
    × ((delay_allowed cfg false true (v4 client) (turn 11001) (turn 10002) (turn 10003) pool).0
        ≡ true)
unfolding delay_allowed delay_checked account rounds take_tokens with_user new_user fillup
    fill_users fill_user top_up
refused_then_allowed = (refl, refl)

delay_allowed-IsCapped_example :
    IsCapped cfg
      (delay_allowed cfg true true (v4 client) (turn 10001) (turn 10002) (turn 10003) pool).1
delay_allowed-IsCapped_example =
    delay_allowed-IsCapped cfg true true (turn 10001) (turn 10002) (turn 10003)
      (one_more (λ d h. h) (one_more (λ d h. h) (one_more (λ d h. h) no_turns))) (v4 client) pool
      (λ i. (refl, refl))
