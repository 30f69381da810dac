-- ===== src/CacheExpire/Tests.antt =====
-- The packet for one tile.
use mod_tile.Base.{ℕ, ◌≡◌, refl, pos, negsuc, List, [], ◌∷◌, none, some}
use mod_tile.CacheExpire.{tile_url, cache_expire}
use mod_tile.CacheExpire.Packet.{read_clr, read_clr-cache_expire}

read_clr-cache_expire_example :
    (p : List ℕ) × (cache_expire (pos 3) (b'h' ∷ []) (b'/' ∷ []) (pos 1) (pos 2) (pos 3) ≡ some p)
    × (read_clr p ≡ some (tile_url (b'h' ∷ []) (b'/' ∷ []) (pos 1) (pos 2) (pos 3)))
read_clr-cache_expire_example =
    read_clr-cache_expire 3 (b'h' ∷ []) (b'/' ∷ []) (pos 1) (pos 2) (pos 3)

-- Nothing is sent without a socket.
no_socket : cache_expire (negsuc 0) [] [] (pos 1) (pos 2) (pos 3) ≡ none
unfolding cache_expire
no_socket = refl
