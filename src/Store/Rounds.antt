-- ===== src/Store/Rounds.antt =====
-- src/store.c and src/store_ro_composite.c: the calls of `init_storage_backend` within one another end.
use mod_tile.Base.{ℕ, ◌<◌, ◌≡◌, false, List, [], Option, none, some, length}
use mod_tile.Item.{Ptr}
use mod_tile.Store.Memory.{Blocks, free, Owns}
use mod_tile.Store.{
  Opening, refused, crashed, overruns, stuck, opened, StoreCalls, block, close_storage, Inner,
}
use mod_tile.Store.Settled.{owned}
use mod_tile.Store.Parts.{Overruns}

module _ (w : StoreCalls) where
  -- A result, a write through NULL only where `malloc` failed, and one outside of a block only where the
  -- text has a part that leads to it.
  abbrev Ends : List ℕ → Opening → Type 0
  Ends o refused = Unit
  Ends o crashed = (n : ℕ) × (w.malloc_succeeds n ≡ false)
  Ends o overruns = Overruns o
  Ends o stuck = ⊥
  Ends o (opened b) = Unit

  module _ (n : ℕ) (init : Inner)
      (inner : (o : List ℕ) (h : Blocks) → length o < n → Ends o (init o h).0) where
    abbrev FailsOn : Option Ptr → Type 0
    FailsOn none = (k : ℕ) × (w.malloc_succeeds k ≡ false)
    FailsOn (some p) = Unit

  record Ended (o : List ℕ) (r : Opening × Blocks) : Type 0 where
    ends : Ends o r.0

  -- What a call leaves, and what is left when the store that it returned is closed and freed.
  abbrev pub GivesBack : List ℕ → Blocks → Opening → Blocks → Type 0
  GivesBack o h refused h' = Owns h h' []
  GivesBack o h crashed h' = (n : ℕ) × (w.malloc_succeeds n ≡ false)
  GivesBack o h overruns h' = Overruns o
  GivesBack o h stuck h' = ⊥
  GivesBack o h (opened b) h' =
      Owns h h' (owned b) × Owns h (free (block b) (close_storage b h')) []
