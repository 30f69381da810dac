-- ===== src/ItemIndex.antt =====
-- src/request_queue.c, the hash index: `struct item_idx` and the functions that look an item up,
-- insert it and remove it. The bucket array holds the first cell of each chain in place; the cells
-- behind it are allocated one by one.
pub mod Hash
pub mod Chain
mod Tests
use mod_tile.Base.{
  ℕ, ◌+◌, ◌*◌, ◌-◌, ◌%◌, ◌^◌, ℤ, pos, negsuc, residue, Bool, true, false, List, [], ◌∷◌, ◌++◌,
  Option, none, some, ltb, ◌==◌, if◌then◌else◌, erase_first, find_first,
}
use mod_tile.Protocol.{Protocol}
use mod_tile.Item.{Ptr, Heap, same_metatile}

-- One entry of `item_hashidx`: `item` may be null, and `next` lists the items of the cells behind.
pub record ItemIdx : Type 0 where
  pub item : Option Ptr
  pub next : List Ptr

-- `char` is signed: a byte from 128 on counts as itself less 256, in a `uint64_t`.
xmlname_hash : List ℕ → ℕ
xmlname_hash [] = 0
xmlname_hash (c ∷ cs) = ((if ltb c 128 then c else 2 ^ 64 - 256 + c) + xmlname_hash cs) % 2 ^ 64

-- `calcHashKey`, of the fields of an item that it reads
unfoldable pub calc_hash_key : ℕ → Protocol → ℤ → ℤ → ℕ
unfolding xmlname_hash
calc_hash_key hashidx_size req mx my = key % hashidx_size
  where
    key : ℕ
    key =
        (xmlname_hash req.xmlname % 512 * 2 ^ 52
          + residue req.z (2 ^ 64) * 2 ^ 48
          + residue mx (2 ^ 24) * 2 ^ 24
          + residue my (2 ^ 24))
        % 2 ^ 64

-- The items of one bucket, as the `while` loops meet them.
unfoldable pub chain : ItemIdx → List Ptr
chain b = elim b.item [ none ↦ [] | some i ↦ i ∷ b.next ]

-- `lookup_item_idx`, within the bucket that the key selects
unfoldable pub lookup_item_idx : Heap → ItemIdx → Ptr → Option Ptr
unfolding chain
lookup_item_idx h b p = find_first (same_metatile h p) (chain b)

-- `insert_item_idx`: an empty first cell takes the item, else a new cell goes to the end.
unfoldable pub insert_item_idx : ItemIdx → Ptr → ItemIdx
insert_item_idx b p = elim b.item [
  | none ↦ record b { item = some p }
  | some _ ↦ record b { next = b.next ++ p ∷ [] }
]

-- The first cell is hit: the second one is copied over it and freed, or it becomes empty.
remove_head : List Ptr → ItemIdx
remove_head [] = record { item = none; next = [] }
remove_head (i ∷ rest) = record { item = some i; next = rest }

-- `remove_item_idx`
unfoldable pub remove_item_idx : Heap → ItemIdx → Ptr → ItemIdx
unfolding remove_head
remove_item_idx h b p = elim b.item [
  | none ↦ b
  | some i ↦
      if same_metatile h p i
      then remove_head b.next
      else record b { next = erase_first (same_metatile h p) b.next }
]
