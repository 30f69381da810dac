-- ===== src/Metatile/Layout.antt =====
-- src/metatile.cpp: where the index entry and the bytes of one tile stand in the saved buffer.
use mod_tile.Base.{
  ℕ, zero, suc, ◌+◌, ◌*◌, ◌/◌, ◌%◌, ◌≤◌, ◌<◌, ◌≡◌, refl, ◌∙◌, ap, List, [], ◌∷◌, ◌++◌, arith,
  length, drop, length-append, drop-append,
}
use mod_tile.Metatile.{MetaTile, cell, entry_bytes, le32}
use mod_tile.Metatile.Buffer.{entries, tiles}

drop-le32 : (n k : ℕ) (bytes : List ℕ) → drop (4 + k) (le32 n ++ bytes) ≡ drop k bytes
unfolding le32
drop-le32 n k bytes =
    drop-append (4 + k) k (n % 256 ∷ n / 256 % 256 ∷ n / 65536 % 256 ∷ n / 16777216 % 256 ∷ [])
      bytes refl

module _ (m : MetaTile) where
  tiles-suc :
      (j k : ℕ) → length (tiles m (suc j) k) ≡ length (cell m k) + length (tiles m j (k + 1))
  unfolding tiles
  tiles-suc j k = length-append (cell m k) (tiles m j (k + 1))

  -- The entry of the round `k + j` tells where the tile begins and how long it is.
  pub entries-at :
      (n k j offset : ℕ)
      → j < n
      → (rest : List ℕ) × (drop (8 * j) (entry_bytes (entries m n k offset))
          ≡ le32 (offset + length (tiles m j k)) ++ (le32 (length (cell m (k + j))) ++ rest))
  unfolding entries entry_bytes
  entries-at zero k j offset h = absurd (omega arith)
  entries-at (suc n) k zero offset h =
      let rest = entry_bytes (entries m n (k + 1) (offset + length (cell m k))) in
      (
        rest,
        unfold tiles in
            ap (λ o. le32 o ++ (le32 (length (cell m k)) ++ rest)) (omega arith)
            ∙ ap (λ q. le32 (offset + 0) ++ (le32 (length (cell m q)) ++ rest)) (omega arith),
      )
  entries-at (suc n) k (suc j) offset h =
      let (rest, e) = entries-at n (k + 1) j (offset + length (cell m k)) (omega arith) in
      let es = entry_bytes (entries m n (k + 1) (offset + length (cell m k))) in
      (
        rest,
        ap (λ p. drop p (le32 offset ++ (le32 (length (cell m k)) ++ es))) (omega arith)
            ∙ drop-le32 offset (4 + 8 * j) (le32 (length (cell m k)) ++ es)
            ∙ drop-le32 (length (cell m k)) (8 * j) es
            ∙ e
            ∙ ap (λ o. le32 o ++ (le32 (length (cell m (k + 1 + j))) ++ rest))
                (omega (arith, tiles-suc j k))
            ∙ ap
                (λ q.
                  le32 (offset + length (tiles m (suc j) k)) ++ (le32 (length (cell m q)) ++ rest))
                (omega arith),
      )

  -- The bytes from that place on begin with the tile.
  pub tiles-at :
      (n k j : ℕ)
      → j < n
      → (rest : List ℕ) × (drop (length (tiles m j k)) (tiles m n k) ≡ cell m (k + j) ++ rest)
  unfolding tiles
  tiles-at zero k j h = absurd (omega arith)
  tiles-at (suc n) k zero h =
      (tiles m n (k + 1), ap (λ q. cell m q ++ tiles m n (k + 1)) (omega arith))
  tiles-at (suc n) k (suc j) h =
      let (rest, e) = tiles-at n (k + 1) j (omega arith) in
      (
        rest,
        drop-append (length (tiles m (suc j) k)) (length (tiles m j (k + 1))) (cell m k)
              (tiles m n (k + 1)) (tiles-suc j k)
            ∙ e
            ∙ ap (λ q. cell m q ++ rest) (omega arith),
      )

  -- The tiles before one and the tile itself are within all of them.
  pub tiles-within :
      (n k j : ℕ) → j < n → length (tiles m j k) + length (cell m (k + j)) ≤ length (tiles m n k)
  unfolding tiles
  tiles-within zero k j h = absurd (omega arith)
  tiles-within (suc n) k zero h = omega (arith, tiles-suc n k, ap (λ q. length (cell m q)) (here k))
    where
      here : (q : ℕ) → q + 0 ≡ q
      here q = omega arith
  tiles-within (suc n) k (suc j) h = omega (
    arith,
    tiles-suc n k,
    tiles-suc j k,
    tiles-within n (k + 1) j (omega arith),
    ap (λ q. length (cell m q)) (there k),
  )
    where
      there : (q : ℕ) → q + 1 + j ≡ q + suc j
      there q = omega arith
