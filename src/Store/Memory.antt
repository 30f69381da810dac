-- ===== src/Store/Memory.antt =====
-- src/store.c and src/store_ro_composite.c: blocks of memory that are taken and freed.
use mod_tile.Base.{
  ℕ, ◌+◌, ◌≡◌, refl, ◌∙◌, Bool, List, [], ◌∷◌, ◌++◌, Option, none, some, ltb, if◌then◌else◌, count,
  erase, count-erase, count-append, arith, Bool-cases, lt→ltb, ◌<◌, inl, inr,
}
use mod_tile.Item.{Ptr}

-- The blocks are numbered by the calls of `malloc`.
pub record Blocks : Type 0 where
  pub next : ℕ
  pub live : List Ptr
  pub invalid_frees : ℕ

-- `succeeds` tells which calls get a block.
unfoldable pub malloc : (ℕ → Bool) → Blocks → Option Ptr × Blocks
malloc succeeds h =
    if succeeds h.next
    then (some h.next, record h { next = h.next + 1; live = h.next ∷ h.live })
    else (none, record h { next = h.next + 1 })

unfoldable pub free : Ptr → Blocks → Blocks
free p h =
    if ltb 0 (count p h.live)
    then record h { live = erase p h.live }
    else record h { invalid_frees = h.invalid_frees + 1 }

unfoldable pub frees : List Ptr → Blocks → Blocks
frees [] h = h
frees (p ∷ ps) h = frees ps (free p h)

-- Between two heaps some blocks were taken and not freed; each block was freed at most once.
pub record Owns (h h' : Blocks) (ps : List Ptr) : Type 0 where
  pub held : (q : Ptr) → count q h'.live ≡ count q ps + count q h.live
  pub sound : h'.invalid_frees ≡ h.invalid_frees

pub Owns-nothing : (h : Blocks) → Owns h h []
Owns-nothing h = record { held = λ q. omega arith; sound = refl }

pub Owns-both :
    (h h' h'' : Blocks) (ps qs : List Ptr) → Owns h h' ps → Owns h' h'' qs → Owns h h'' (qs ++ ps)
Owns-both h h' h'' ps qs o k = record {
  held = λ q. omega (arith, o.held q, k.held q, count-append q qs ps);
  sound = k.sound ∙ o.sound;
}

-- What `malloc` takes.
abbrev pub Takes : Blocks → Option Ptr → Blocks → Type 0
Takes h none h' = Owns h h' []
Takes h (some p) h' = Owns h h' (p ∷ [])

pub malloc-Takes :
    (succeeds : ℕ → Bool) (h : Blocks) → Takes h (malloc succeeds h).0 (malloc succeeds h).1
unfolding malloc
malloc-Takes succeeds h = elim (Bool-cases (succeeds h.next)) [
  | inl granted ↦ rw granted (record { held = λ q. omega arith; sound = refl })
  | inr failed ↦ rw failed (record { held = λ q. omega arith; sound = refl })
]

pub free-Owns :
    (h h' : Blocks) (p : Ptr) (ps : List Ptr) → Owns h h' (p ∷ ps) → Owns h (free p h') ps
unfolding free
free-Owns h h' p ps o =
    let taken : 0 < count p h'.live = ground (arith, o.held p) in
    rw (lt→ltb 0 (count p h'.live) taken)
      (record { held = λ q. count-erase q p h'.live ∙ ground (arith, o.held q); sound = o.sound })

pub frees-Owns : (h h' : Blocks) (ps qs : List Ptr) → Owns h h' (ps ++ qs) → Owns h (frees ps h') qs
unfolding frees
frees-Owns h h' [] qs o = o
frees-Owns h h' (p ∷ ps) qs o = frees-Owns h (free p h') ps qs (free-Owns h h' p (ps ++ qs) o)
