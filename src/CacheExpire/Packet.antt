-- ===== src/CacheExpire/Packet.antt =====
-- src/cache_expire.c: the lengths in the packet are right, and a cache reads the address back.
use mod_tile.Base.{
  ℕ, ◌+◌, ◌*◌, ◌<◌, ◌≡◌, refl, sym, ◌∙◌, ap, ℤ, pos, ltb_ℤ, false, ◌&&◌, List, [], ◌∷◌, ◌++◌,
  Option, none, some, arith, length, length-append, length-take-le, take, drop, take-append,
  drop-append, drop_split, ◌==◌, if◌then◌else◌, eq_list,
}
use mod_tile.CacheExpire.{
  put_u16, put_u32, head_method, http_version, packet, cache_expire_url, full_url, tile_url,
  cache_expire,
}

-- The number in the two bytes at a place
abbrev pub u16 : List ℕ → ℕ
u16 (a ∷ b ∷ bytes) = a * 256 + b
u16 _ = 0

abbrev pub clr_opcode : ℕ
clr_opcode = 4

abbrev pub u16_at : ℕ → List ℕ → ℕ
u16_at k bytes = u16 (drop k bytes)

-- A reader of HTCP CLR requests: the length of the datagram is followed by the version 0.0, the length
-- of the data, the opcode of CLR, which is 4, no flag, a transaction and no reason. The texts follow, each
-- with its length before it: the method from byte 14 on, the address, the version of HTTP and no headers.
unfoldable pub read_clr : List ℕ → Option (List ℕ)
read_clr bytes =
    if (u16_at 0 bytes == length bytes)
      && (u16_at 2 bytes == 0)
      && (u16_at 4 bytes + 4 == length bytes)
      && (u16_at 6 bytes == clr_opcode * 256)
      && (u16_at 12 bytes == 0)
      && (u16_at 14 bytes == length head_method)
      && eq_list (take 4 (drop 16 bytes)) head_method
      && (u16_at (22 + u16_at 20 bytes) bytes == length http_version)
      && eq_list (take 8 (drop (24 + u16_at 20 bytes) bytes)) http_version
      && (u16_at (32 + u16_at 20 bytes) bytes == 0)
    then some (take (u16_at 20 bytes) (drop 22 bytes))
    else none

length-packet : (url : List ℕ) → length (packet url) ≡ 34 + length url
unfolding packet put_u16 put_u32
length-packet url = omega (
  arith,
  length-append url (0 ∷ 8 ∷ b'H' ∷ b'T' ∷ b'T' ∷ b'P' ∷ b'/' ∷ b'1' ∷ b'.' ∷ b'1' ∷ 0 ∷ 0 ∷ []),
)

-- What follows the address
abbrev tail : List ℕ
tail = 0 ∷ 8 ∷ b'H' ∷ b'T' ∷ b'T' ∷ b'P' ∷ b'/' ∷ b'1' ∷ b'.' ∷ b'1' ∷ 0 ∷ 0 ∷ []

module _ (url : List ℕ) (short : length url < 65502) where
  total : u16_at 0 (packet url) ≡ 34 + length url
  unfolding packet put_u16 put_u32
  total = omega arith

  data_length : u16_at 4 (packet url) ≡ 30 + length url
  unfolding packet put_u16 put_u32
  data_length = omega arith

  version : u16_at 2 (packet url) ≡ 0
  unfolding packet put_u16 put_u32
  version = refl

  opcode : u16_at 6 (packet url) ≡ 1024
  unfolding packet put_u16 put_u32
  opcode = refl

  reason : u16_at 12 (packet url) ≡ 0
  unfolding packet put_u16 put_u32
  reason = refl

  method_length : u16_at 14 (packet url) ≡ 4
  unfolding packet put_u16 put_u32
  method_length = refl

  url_length : u16_at 20 (packet url) ≡ length url
  unfolding packet put_u16 put_u32
  url_length = omega arith

  from_url : (k : ℕ) → drop (22 + k) (packet url) ≡ drop k (url ++ tail)
  unfolding packet put_u16 put_u32
  from_url k =
      sym (drop_split 22 (22 + k) (packet url) (omega arith))
      ∙ ap (λ n. drop n (drop 22 (packet url))) {y = k} (omega arith)

  version_length : u16_at (22 + length url) (packet url) ≡ 8
  version_length =
      ap u16 (from_url (length url) ∙ drop-append (length url) 0 url tail (omega arith))

  version_text : take 8 (drop (24 + length url) (packet url)) ≡ http_version
  version_text =
      ap (λ n. take 8 (drop n (packet url))) {y = 22 + (2 + length url)} (omega arith)
      ∙ ap (take 8)
          (from_url (2 + length url) ∙ drop-append (2 + length url) 2 url tail (omega arith))

  headers_length : u16_at (32 + length url) (packet url) ≡ 0
  headers_length =
      ap (λ n. u16_at n (packet url)) {y = 22 + (10 + length url)} (omega arith)
      ∙ ap u16
          (from_url (10 + length url) ∙ drop-append (10 + length url) 10 url tail (omega arith))

  method : take 4 (drop 16 (packet url)) ≡ head_method
  unfolding packet put_u16 put_u32
  method = refl

  url_text : take (length url) (drop 22 (packet url)) ≡ url
  url_text = ap (take (length url)) (from_url 0) ∙ take-append (length url) url tail refl

  read_clr-packet : read_clr (packet url) ≡ some url
  unfolding read_clr
  read_clr-packet =
      rw
        (
          url_length, total, version, data_length, opcode, reason, method_length, version_length,
          version_text, headers_length, method, url_text,
        )
        (ground (arith, length-packet url))

-- For any host, path and coordinates, on a socket that is open: one packet is sent, and a reader of
-- HTCP finds in it a CLR request of the version 0.0 with the method HEAD, all its lengths right, and
-- reads the address of the tile from it, cut off at 1023 bytes.
pub read_clr-cache_expire :
    (sock : ℕ) (host uri : List ℕ) (x y z : ℤ)
    → (p : List ℕ) × (cache_expire (pos sock) host uri x y z ≡ some p)
      × (read_clr p ≡ some (tile_url host uri x y z))
unfolding cache_expire cache_expire_url
read_clr-cache_expire sock host uri x y z = (packet url, rw is_open refl, read_clr-packet url short)
  where
    url : List ℕ
    url = tile_url host uri x y z

    is_open : ltb_ℤ (pos sock) (pos 0) ≡ false
    is_open = ground arith

    short : length url < 65502
    short = unfold tile_url in omega (arith, length-take-le 1023 (full_url host uri x y z))
