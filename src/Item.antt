-- ===== src/Item.antt =====
-- includes/gen_tile.h: the items that the request queue links together, on the heap that holds them.
-- An address is a number, and each field of `struct item` is a function of the address. The links
-- `next` and `prev` of an item are its place in one of the lists of RequestQueue.antt; the chain of
-- `duplicates` is the list of the addresses met on following that field to its null end.
use mod_tile.Base.{
  ℕ, ℤ, eq_ℤ, eq_list, ◌≡◌, Bool, true, ◌&&◌, List, ◌==◌, if◌then◌else◌, eq_ℤ_comm, eq_list_comm,
  eq_ℤ_refl, eq_list_refl,
}
use mod_tile.Protocol.{Protocol}

-- `struct item *`
abbrev pub Ptr : Type 0
Ptr = ℕ

pub data QueueEnum : Type 0 where
  queue_request queue_request_prio queue_request_bulk queue_dirty : QueueEnum
  queue_render queue_duplicate queue_request_low : QueueEnum

unfoldable pub QueueEnum-discrete : Discrete QueueEnum
QueueEnum-discrete = hlevel

-- The memory of the items. `allocated` tells the live blocks of the allocator.
pub record Heap : Type 0 where
  pub req : Ptr → Protocol
  pub mx : Ptr → ℤ
  pub my : Ptr → ℤ
  pub fd : Ptr → ℤ
  pub duplicates : Ptr → List Ptr
  pub in_queue : Ptr → QueueEnum
  pub originated_queue : Ptr → QueueEnum
  pub allocated : Ptr → Bool

-- An assignment to a field of the item at one address.
abbrev pub update {ℓ} : {A : Type ℓ} → (Ptr → A) → Ptr → A → Ptr → A
update f p v q = if p == q then v else f q

-- The test by which the index tells items apart: metatile, zoom and style.
abbrev pub same_metatile : Heap → Ptr → Ptr → Bool
same_metatile h p t =
    eq_ℤ (h.mx p) (h.mx t)
    && eq_ℤ (h.my p) (h.my t)
    && eq_ℤ (h.req p).z (h.req t).z
    && eq_list (h.req p).xmlname (h.req t).xmlname

pub same_metatile_refl : (h : Heap) (p : Ptr) → same_metatile h p p ≡ true
same_metatile_refl h p =
    simp (
      eq_ℤ_refl (h.mx p),
      eq_ℤ_refl (h.my p),
      eq_ℤ_refl (h.req p).z,
      eq_list_refl (h.req p).xmlname,
    )

pub same_metatile_comm :
    (h : Heap) (p t : Ptr) → same_metatile h p t ≡ true → same_metatile h t p ≡ true
same_metatile_comm h p t e =
    rw
      (
        eq_ℤ_comm (h.mx t) (h.mx p),
        eq_ℤ_comm (h.my t) (h.my p),
        eq_ℤ_comm (h.req t).z (h.req p).z,
        eq_list_comm (h.req t).xmlname (h.req p).xmlname,
      )
      e
