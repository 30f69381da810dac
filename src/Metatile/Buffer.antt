-- ===== src/Metatile/Buffer.antt =====
-- src/metatile.cpp: the buffer that `save` builds by copying is the header, the index in the order
-- of the tiles, and the tiles one after the other.
use mathlib.Core.List.{append_assoc}
use mod_tile.Base.{
  ℕ, zero, suc, ◌+◌, ◌*◌, ◌%◌, ◌≤◌, ◌<◌, ◌≡◌, refl, ◌∙◌, ap, List, [], ◌∷◌, ◌++◌, arith, length,
  get_or, replicate, length-append, take-append, drop-append, drop-replicate, set-append,
  get_or-append,
}
use mod_tile.Metatile.{
  MetaTile, Entry, no_entry, cell, cell_index, offset_table, fill_buffer, write_tiles, memcpy,
  layout_bytes, entry_bytes, metatile_buffer, header_size,
}

-- A metatile whose first tile has both coordinates at multiples of 8.
pub record IsAligned (m : MetaTile) : Type 0 where
  pub column : m.x_ % 8 ≡ 0
  pub row : m.y_ % 8 ≡ 0

-- The index and the tiles of the last `n` rounds, from round `k` and from an offset on.
unfoldable pub entries : MetaTile → ℕ → ℕ → ℕ → List Entry
entries m zero k offset = []
entries m (suc n) k offset =
    record { offset = offset; size = length (cell m k) }
    ∷ entries m n (k + 1) (offset + length (cell m k))

unfoldable pub tiles : MetaTile → ℕ → ℕ → List ℕ
tiles m zero k = []
tiles m (suc n) k = cell m k ++ tiles m n (k + 1)

pub length-entries : (m : MetaTile) (n k offset : ℕ) → length (entries m n k offset) ≡ n
unfolding entries
length-entries m zero k offset = refl
length-entries m (suc n) k offset = ap suc (length-entries m n (k + 1) _)

pub length-entry_bytes : (es : List Entry) → length (entry_bytes es) ≡ 8 * length es
unfolding entry_bytes
length-entry_bytes [] = refl
length-entry_bytes (e ∷ es) = omega (arith, length-entry_bytes es)

memcpy-append :
    (front source : List ℕ) (n k : ℕ)
    → n ≡ length front
    → memcpy (front ++ replicate (length source + k) 0) n source
      ≡ (front ++ source) ++ replicate k 0
memcpy-append front source n k h = rw (
  take-append n front (replicate (length source + k) 0) h,
  drop-append (n + length source) (length source) front (replicate (length source + k) 0)
      (omega arith),
  drop-replicate {A = ℕ} (length source) k 0,
  append_assoc,
)

module _ (m : MetaTile) (v : IsAligned m) where
  pub cell_index-aligned : (k : ℕ) → k < 64 → cell_index m k ≡ k
  unfolding cell_index
  cell_index-aligned k h = omega (arith, v.column, v.row)

  offset_table_lem :
      (n k offset : ℕ) (done : List Entry)
      → k ≡ length done
      → k + n ≤ 64
      → offset_table m n k (done ++ replicate n no_entry) offset
        ≡ (done ++ entries m n k offset, offset + length (tiles m n k))
  unfolding offset_table entries tiles
  offset_table_lem zero k offset done h r = ap (λ s. (done ++ [], s)) (omega arith)
  offset_table_lem (suc n) k offset done h r =
      rw
        (
          cell_index-aligned k (omega arith),
          set-append k done (replicate n no_entry) no_entry
              (record { offset = offset; size = length (cell m k) }) h,
        )
        (simp append_assoc at (
            offset_table_lem n (k + 1) (offset + length (cell m k))
              (done ++ record { offset = offset; size = length (cell m k) } ∷ [])
              (omega (
                arith,
                length-append done (record { offset = offset; size = length (cell m k) } ∷ []),
              ))
              (omega arith))
          ∙ ap (λ s. (done ++ entries m (suc n) k offset, s))
              (omega (arith, length-append (cell m k) (tiles m n (k + 1)))))

  write_tiles_lem :
      (table done-entries : List Entry) (n k offset : ℕ) (front : List ℕ)
      → table ≡ done-entries ++ entries m n k offset
      → k ≡ length done-entries
      → k + n ≤ 64
      → offset ≡ length front
      → write_tiles m table n k (front ++ replicate (length (tiles m n k)) 0) ≡ front ++ tiles m n k
  unfolding write_tiles entries tiles
  write_tiles_lem table done zero k offset front t h r o = refl
  write_tiles_lem table done (suc n) k offset front t h r o =
      rw (here, length-append, memcpy-append front (cell m k) offset (length (tiles m n (k + 1))) o)
        (write_tiles_lem table (done ++ record { offset = offset; size = length (cell m k) } ∷ []) n
            (k + 1) (offset + length (cell m k)) (front ++ cell m k) (rw append_assoc t)
            (omega (
              arith,
              length-append done (record { offset = offset; size = length (cell m k) } ∷ []),
            ))
            (omega arith) (omega (arith, length-append front (cell m k)))
          ∙ append_assoc front (cell m k) (tiles m n (k + 1)))
    where
      here :
          get_or table (cell_index m k) no_entry
          ≡ record { offset = offset; size = length (cell m k) }
      here = rw (cell_index-aligned k (omega arith), t) (get_or-append k done _ _ no_entry h)

  abbrev index : List Entry
  index = entries m 64 0 header_size

  abbrev payload : List ℕ
  payload = tiles m 64 0

  length-index : length (entry_bytes index) ≡ 512
  length-index = omega (arith, length-entry_bytes index, length-entries m 64 0 header_size)

  zeros :
      replicate {A = ℕ} (header_size + length payload) 0
      ≡ replicate (length (layout_bytes m) + (length (entry_bytes index) + length payload)) 0
  unfolding layout_bytes
  zeros = ap (λ n. replicate {A = ℕ} n 0) (omega (arith, length-index))

  headers :
      memcpy
        (memcpy (replicate (header_size + length payload) 0) 0 (layout_bytes m))
        20
        (entry_bytes index)
      ≡ (layout_bytes m ++ entry_bytes index) ++ replicate (length payload) 0
  headers =
      rw
        (
          zeros,
          memcpy-append [] (layout_bytes m) 0 (length (entry_bytes index) + length payload) refl,
        )
        (memcpy-append (layout_bytes m) (entry_bytes index) 20 (length payload)
          (unfold layout_bytes in refl))

  -- For a metatile with its corner at multiples of 8: the buffer that `save` fills by copying is the
  -- header, the 64 entries of the index, whose offsets count the tiles before each one from byte 532
  -- on, and the 64 tiles, column by column, one after the other.
  pub metatile_buffer_lem : metatile_buffer m ≡ layout_bytes m ++ (entry_bytes index ++ payload)
  unfolding metatile_buffer
  metatile_buffer_lem =
      ap (fill_buffer m) (offset_table_lem 64 0 header_size [] refl (omega arith))
      ∙ ap (write_tiles m index 64 0) headers
      ∙ write_tiles_lem index [] 64 0 header_size (layout_bytes m ++ entry_bytes index) refl refl
          (omega arith)
          (unfold layout_bytes in
            omega (arith, length-index, length-append (layout_bytes m) (entry_bytes index)))
      ∙ append_assoc (layout_bytes m) (entry_bytes index) payload
