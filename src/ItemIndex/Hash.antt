-- ===== src/ItemIndex/Hash.antt =====
-- The bucket number: within the array, and the same for items of one metatile.
use mod_tile.Protocol.{Protocol}
use mod_tile.Base.{ℤ, ℕ, ◌<◌, ◌≡◌, true, arith, eq_ℤ→eq, eq_list→eq, &&-parts}
use mod_tile.Item.{Ptr, Heap, same_metatile}
use mod_tile.ItemIndex.{calc_hash_key}

-- The key is an index of the bucket array, whatever the item holds.
pub calc_hash_key-lt :
    (hashidx_size : ℕ) (req : Protocol) (mx my : ℤ)
    → 0 < hashidx_size
    → calc_hash_key hashidx_size req mx my < hashidx_size
unfolding calc_hash_key
calc_hash_key-lt hashidx_size req mx my h = omega arith

same_fields :
    (h : Heap) (p t : Ptr)
    → same_metatile h p t ≡ true
    → (h.mx p ≡ h.mx t)
      × (h.my p ≡ h.my t)
      × ((h.req p).z ≡ (h.req t).z)
      × ((h.req p).xmlname ≡ (h.req t).xmlname)
same_fields h p t e =
    let (abc, d) = &&-parts _ _ e in
    let (ab, c) = &&-parts _ _ abc in
    let (a, b) = &&-parts _ _ ab in
    (
      eq_ℤ→eq (h.mx p) (h.mx t) a,
      eq_ℤ→eq (h.my p) (h.my t) b,
      eq_ℤ→eq (h.req p).z (h.req t).z c,
      eq_list→eq (h.req p).xmlname (h.req t).xmlname d,
    )

-- Items that the index takes for the same have the same key.
pub calc_hash_key_of_same :
    (hashidx_size : ℕ) (h : Heap) (p t : Ptr)
    → same_metatile h p t ≡ true
    → calc_hash_key hashidx_size (h.req p) (h.mx p) (h.my p)
      ≡ calc_hash_key hashidx_size (h.req t) (h.mx t) (h.my t)
unfolding calc_hash_key
calc_hash_key_of_same n h p t e = let (a, b, c, d) = same_fields h p t e in rw (a, b, c, d)
