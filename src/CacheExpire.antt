-- ===== src/CacheExpire.antt =====
-- src/cache_expire.c: the HTCP packet that makes a cache forget a tile.
pub mod Packet
mod Tests
use mod_tile.Base.{
  ℕ, ◌+◌, ◌*◌, ◌/◌, ◌%◌, ℤ, pos, ltb_ℤ, List, [], ◌∷◌, ◌++◌, Option, none, some, if◌then◌else◌,
  length, take,
}
use mod_tile.TilePath.{decimal_ℤ}

-- Values of 16 and 32 bits in network byte order
unfoldable pub put_u16 : ℕ → List ℕ
put_u16 n = n / 256 % 256 ∷ n % 256 ∷ []

unfoldable pub put_u32 : ℕ → List ℕ
put_u32 n = n / 16777216 % 256 ∷ n / 65536 % 256 ∷ n / 256 % 256 ∷ n % 256 ∷ []

abbrev pub head_method : List ℕ
head_method = b'H' ∷ b'E' ∷ b'A' ∷ b'D' ∷ []

abbrev pub http_version : List ℕ
http_version = b'H' ∷ b'T' ∷ b'T' ∷ b'P' ∷ b'/' ∷ b'1' ∷ b'.' ∷ b'1' ∷ []

-- The buffer of `cache_expire_url`
unfoldable pub packet : List ℕ → List ℕ
unfolding put_u16 put_u32
packet url =
    put_u16 (12 + 22 + url_len)
    ++ (0 ∷ 0 ∷ put_u16 (8 + 22 + url_len)
        ++ (4 ∷ 0 ∷ put_u32 255
            ++ (0 ∷ 0 ∷ put_u16 4
                ++ (head_method
                    ++ (put_u16 url_len ++ (url ++ (put_u16 8 ++ (http_version ++ put_u16 0))))))))
  where
    url_len : ℕ
    url_len = length url

-- `cache_expire_url`: the packet that is sent, if there is a socket and memory.
unfoldable pub cache_expire_url : (sock : ℤ) → (url : List ℕ) → Option (List ℕ)
unfolding packet
cache_expire_url sock url = if ltb_ℤ sock (pos 0) then none else some (packet url)

-- The address of a tile, as far as it fits into 1024 bytes with the zero behind it
unfoldable pub full_url : (host uri : List ℕ) → (x y z : ℤ) → List ℕ
unfolding decimal_ℤ
full_url host uri x y z =
    b'h' ∷ b't' ∷ b't' ∷ b'p' ∷ b':' ∷ b'/' ∷ b'/' ∷ host
    ++ (uri
        ++ (decimal_ℤ z
            ++ (b'/' ∷ decimal_ℤ x ++ (b'/' ∷ decimal_ℤ y ++ (b'.' ∷ b'p' ∷ b'n' ∷ b'g' ∷ [])))))

unfoldable pub tile_url : (host uri : List ℕ) → (x y z : ℤ) → List ℕ
tile_url host uri x y z = take 1023 (full_url host uri x y z)

-- `cache_expire`
unfoldable pub cache_expire : (sock : ℤ) → (host uri : List ℕ) → (x y z : ℤ) → Option (List ℕ)
cache_expire sock host uri x y z =
    if ltb_ℤ sock (pos 0) then none else cache_expire_url sock (tile_url host uri x y z)
