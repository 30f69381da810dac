-- ===== src/ItemIndex/Chain.antt =====
-- A bucket stands for the list of its items: what each operation does to that list.
use mod_tile.Base.{◌≡◌, [], ◌∷◌, ◌++◌, none, arith, erase_first}
use mod_tile.Item.{Ptr, Heap, same_metatile}
use mod_tile.ItemIndex.{ItemIdx, chain, insert_item_idx, remove_item_idx, remove_head}

-- An empty first cell has no cells behind it.
pub record IsChained (b : ItemIdx) : Type 0 where
  pub none_behind : b.item ≡ none → b.next ≡ []

pub insert-IsChained : (b : ItemIdx) (p : Ptr) → IsChained b → IsChained (insert_item_idx b p)
unfolding insert_item_idx
insert-IsChained b p v = ground arith

pub remove-IsChained :
    (h : Heap) (b : ItemIdx) (p : Ptr) → IsChained b → IsChained (remove_item_idx h b p)
unfolding remove_item_idx remove_head
remove-IsChained h b p v = ground arith

-- A new item goes to the end of its bucket's list.
pub chain-insert :
    (b : ItemIdx) (p : Ptr) → IsChained b → chain (insert_item_idx b p) ≡ chain b ++ p ∷ []
unfolding chain insert_item_idx
chain-insert b p v = ground (arith, v.none_behind)

-- Removal takes the first item of the same metatile out of the bucket's list, and nothing else,
-- wherever it stands; where there is none the list stays as it is.
pub chain-remove :
    (h : Heap) (b : ItemIdx) (p : Ptr)
    → chain (remove_item_idx h b p) ≡ erase_first (same_metatile h p) (chain b)
unfolding chain remove_item_idx remove_head
chain-remove h b p = ground arith
