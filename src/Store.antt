-- ===== src/Store.antt =====
-- src/store.c, src/store_null.c and `init_storage_ro_composite` of src/store_ro_composite.c: which store a
-- text stands for, and the memory that is taken for it, on all paths. Given are the answers of `malloc`
-- and `stat`, and the stores whose libraries are not part of the repository (rados, memcached and the
-- http proxy). Texts are lists of codes, without the byte that ends them.
pub mod Memory
pub mod Settled
pub mod Parts
pub mod Rounds
mod Tests
use mod_tile.Base.{
  ℕ, zero, suc, ◌+◌, ℤ, pos, negsuc, Bool, true, false, List, [], ◌∷◌, ◌++◌, Option, none, some,
  leb, ◌==◌, ◌&&◌, if◌then◌else◌, length, drop,
}
use mod_tile.Item.{Ptr}
use mod_tile.GenTile.Projection.{is_prefix}
use mod_tile.SubmitQueue.{xmlconfig_max}
use mod_tile.Store.Memory.{Blocks, malloc, free, frees}

-- A store with the blocks of its structure and of its context; `strdup` may fail for the file store.
pub data Backend : Type 0 where
  file_store : List ℕ → Ptr → Option Ptr → Backend
  remote_store : List ℕ → Ptr → List Ptr → Backend
  null_store : Ptr → Backend
  composite_store : Ptr → Ptr → List ℕ → Backend → List ℕ → Backend → Backend

-- What `init_storage_backend` returns: NULL, a store, no return by a write through NULL, no defined
-- behaviour by a write outside of a block, or no result since the rounds of the model are used up.
pub data Opening : Type 0 where
  refused crashed overruns stuck : Opening
  opened : Backend → Opening

-- `stat` for a path: an error, a directory or something else.
pub data PathKind : Type 0 where
  no_path a_directory no_directory : PathKind

pub data Remote : Type 0 where
  rados memcached ro_http_proxy : Remote

pub record StoreCalls : Type 0 where
  pub malloc_succeeds : ℕ → Bool
  pub stat : List ℕ → PathKind
  pub init_remote : Remote → List ℕ → Blocks → Option (Ptr × List Ptr) × Blocks

abbrev pub block : Backend → Ptr
block (file_store path s c) = s
block (remote_store options s cs) = s
block (null_store s) = s
block (composite_store s c x b y d) = s

-- `close_storage`; the callers then free the store itself. `free` of NULL does nothing.
unfoldable pub close_storage : Backend → Blocks → Blocks
close_storage (file_store path s none) h = h
close_storage (file_store path s (some c)) h = free c h
close_storage (remote_store options s cs) h = frees cs h
close_storage (null_store s) h = h
close_storage (composite_store s c x b y d) h =
    free c (free (block d) (close_storage d (free (block b) (close_storage b h))))

-- Without a second block the file store has no context.
unfoldable pub file_outcome : List ℕ → Blocks → Blocks → Option Ptr → Option Ptr → Opening × Blocks
file_outcome options h1 h2 none ctx = (refused, h1)
file_outcome options h1 h2 (some s) ctx = (opened (file_store options s ctx), h2)

unfoldable pub init_storage_file : StoreCalls → List ℕ → Blocks → Opening × Blocks
unfolding file_outcome
init_storage_file w options h =
    let (store, h1) = malloc w.malloc_succeeds h in
    let (ctx, h2) = malloc w.malloc_succeeds h1 in file_outcome options h1 h2 store ctx

unfoldable pub null_outcome : Blocks → Option Ptr → Opening × Blocks
null_outcome h1 none = (refused, h1)
null_outcome h1 (some s) = (opened (null_store s), h1)

unfoldable pub init_storage_null : StoreCalls → Blocks → Opening × Blocks
unfolding null_outcome
init_storage_null w h = let (store, h1) = malloc w.malloc_succeeds h in null_outcome h1 store

unfoldable pub remote_outcome : List ℕ → Blocks → Option (Ptr × List Ptr) → Opening × Blocks
remote_outcome options h1 none = (refused, h1)
remote_outcome options h1 (some (s, cs)) = (opened (remote_store options s cs), h1)

unfoldable pub init_storage_remote : StoreCalls → Remote → List ℕ → Blocks → Opening × Blocks
unfolding remote_outcome
init_storage_remote w r options h =
    let (store, h1) = w.init_remote r options h in remote_outcome options h1 store

-- The text before the first "}{" and the text behind it
unfoldable pub split_braces : List ℕ → Option (List ℕ × List ℕ)
split_braces [] = none
split_braces (a ∷ s) =
    let rest = split_braces s in
    if is_prefix (b'}' ∷ b'{' ∷ []) (a ∷ s)
    then some ([], drop 1 s)
    else elim rest [ none ↦ none | some (before, behind) ↦ some (a ∷ before, behind) ]

unfoldable pub split_comma : List ℕ → Option (List ℕ × List ℕ)
split_comma [] = none
split_comma (a ∷ s) =
    let rest = split_comma s in
    if a == b','
    then some ([], s)
    else elim rest [ none ↦ none | some (before, behind) ↦ some (a ∷ before, behind) ]

unfoldable pub drop_last : List ℕ → List ℕ
drop_last [] = []
drop_last (a ∷ []) = []
drop_last (a ∷ b ∷ s) = a ∷ drop_last (b ∷ s)

-- "composite:{"
abbrev pub composite_scheme : List ℕ
composite_scheme = b'c' ∷ b'o' ∷ b'm' ∷ b'p' ∷ b'o' ∷ b's' ∷ b'i' ∷ b't' ∷ b'e' ∷ b':' ∷ b'{' ∷ []

-- The call of `init_storage_backend` within
abbrev pub Inner : Type 0
Inner = List ℕ → Blocks → Opening × Blocks

-- What is given back when the second store cannot be opened; `a` and `t` are the copies of the texts.
unfoldable pub give_up : (a t s c : Ptr) → Backend → Blocks → Blocks
unfolding close_storage
give_up a t s c b h = frees (block b ∷ c ∷ s ∷ []) (close_storage b (frees (a ∷ t ∷ []) h))

-- From the second store on
unfoldable pub after_secondary :
    (a t s c : Ptr) → List ℕ → Backend → List ℕ → Opening → Blocks → Opening × Blocks
unfolding give_up
after_secondary a t s c xml b other refused h = (refused, give_up a t s c b h)
after_secondary a t s c xml b other crashed h = (crashed, h)
after_secondary a t s c xml b other overruns h = (overruns, h)
after_secondary a t s c xml b other stuck h = (stuck, h)
after_secondary a t s c xml b other (opened d) h =
    (opened (composite_store s c xml b other d), frees (a ∷ t ∷ []) h)

unfoldable pub open_secondary :
    Inner
    → (a t s c : Ptr) → List ℕ
    → Backend
    → Blocks
    → Option (List ℕ × List ℕ)
    → Opening × Blocks
unfolding after_secondary give_up
open_secondary init a t s c xml b h none = (refused, give_up a t s c b h)
open_secondary init a t s c xml b h (some (other, options)) =
    let (second, h1) = init options h in
    if leb xmlconfig_max (length other)
    then (overruns, h)
    else after_secondary a t s c xml b other second h1

-- From the first store on
unfoldable pub after_primary :
    Inner → (a t s c : Ptr) → List ℕ → List ℕ → Opening → Blocks → Opening × Blocks
unfolding split_comma open_secondary
after_primary init a t s c xml secondary refused h = (refused, frees (a ∷ t ∷ c ∷ s ∷ []) h)
after_primary init a t s c xml secondary crashed h = (crashed, h)
after_primary init a t s c xml secondary overruns h = (overruns, h)
after_primary init a t s c xml secondary stuck h = (stuck, h)
after_primary init a t s c xml secondary (opened b) h =
    open_secondary init a t s c xml b h (split_comma secondary)

unfoldable pub open_primary :
    Inner → (a t s c : Ptr) → List ℕ → Blocks → Option (List ℕ × List ℕ) → Opening × Blocks
unfolding after_primary
open_primary init a t s c secondary h none = (refused, frees (a ∷ t ∷ c ∷ s ∷ []) h)
open_primary init a t s c secondary h (some (xml, options)) =
    let (first, h1) = init options h in
    if leb xmlconfig_max (length xml)
    then (overruns, h)
    else after_primary init a t s c xml secondary first h1

-- The copies of the two texts: the second one is used without a check. Its last byte is cut off; where it
-- has none the write is before the block.
unfoldable pub with_copies :
    Inner → (s c a : Ptr) → List ℕ → List ℕ → Blocks → Option Ptr → Opening × Blocks
unfolding drop_last open_primary split_comma
with_copies init s c a before behind h none = (crashed, h)
with_copies init s c a before behind h (some t) =
    if length behind == 0
    then (overruns, h)
    else open_primary init a t s c (drop_last behind) h
        (split_comma (drop (length composite_scheme) before))

unfoldable pub with_copy :
    StoreCalls → Inner → (s c : Ptr) → List ℕ → List ℕ → Blocks → Option Ptr → Opening × Blocks
unfolding with_copies
with_copy w init s c before behind h none = (refused, frees (c ∷ s ∷ []) h)
with_copy w init s c before behind h (some a) =
    let (other, h1) = malloc w.malloc_succeeds h in with_copies init s c a before behind h1 other

unfoldable pub open_texts :
    StoreCalls → Inner → (s c : Ptr) → Blocks → Option (List ℕ × List ℕ) → Opening × Blocks
unfolding with_copy
open_texts w init s c h none = (refused, frees (c ∷ s ∷ []) h)
open_texts w init s c h (some (before, behind)) =
    let (copy, h1) = malloc w.malloc_succeeds h in with_copy w init s c before behind h1 copy

unfoldable pub with_blocks :
    StoreCalls → Inner → List ℕ → Blocks → Option Ptr → Option Ptr → Opening × Blocks
unfolding split_braces open_texts
with_blocks w init options h none none = (refused, h)
with_blocks w init options h none (some c) = (refused, free c h)
with_blocks w init options h (some s) none = (refused, free s h)
with_blocks w init options h (some s) (some c) = open_texts w init s c h (split_braces options)

unfoldable pub init_storage_ro_composite : StoreCalls → Inner → List ℕ → Blocks → Opening × Blocks
unfolding with_blocks
init_storage_ro_composite w init options h =
    let (store, h1) = malloc w.malloc_succeeds h in
    let (ctx, h2) = malloc w.malloc_succeeds h1 in with_blocks w init options h2 store ctx

-- "rados://", "memcached://", "ro_http_proxy://" and "null://"
abbrev pub rados_scheme : List ℕ
rados_scheme = b'r' ∷ b'a' ∷ b'd' ∷ b'o' ∷ b's' ∷ b':' ∷ b'/' ∷ b'/' ∷ []

abbrev pub memcached_scheme : List ℕ
memcached_scheme =
    b'm' ∷ b'e' ∷ b'm' ∷ b'c' ∷ b'a' ∷ b'c' ∷ b'h' ∷ b'e' ∷ b'd' ∷ b':' ∷ b'/' ∷ b'/' ∷ []

abbrev pub ro_http_proxy_scheme : List ℕ
ro_http_proxy_scheme =
    b'r' ∷ b'o' ∷ b'_' ∷ b'h' ∷ b't' ∷ b't' ∷ b'p' ∷ b'_' ∷ b'p' ∷ b'r' ∷ b'o' ∷ b'x' ∷ b'y' ∷ b':'
    ∷ b'/' ∷ b'/' ∷ []

abbrev pub null_scheme : List ℕ
null_scheme = b'n' ∷ b'u' ∷ b'l' ∷ b'l' ∷ b':' ∷ b'/' ∷ b'/' ∷ []

-- A path: there must be a directory.
unfoldable pub path_outcome : StoreCalls → List ℕ → Blocks → PathKind → Opening × Blocks
unfolding init_storage_file
path_outcome w options h no_path = (refused, h)
path_outcome w options h a_directory = init_storage_file w options h
path_outcome w options h no_directory = (refused, h)

-- The rounds bound how deep composite stores are nested.
unfoldable pub init_storage_backend : ℕ → StoreCalls → List ℕ → Blocks → Opening × Blocks
unfolding path_outcome init_storage_remote init_storage_ro_composite init_storage_null
init_storage_backend zero w options h = (stuck, h)
init_storage_backend (suc rounds) w options h =
    let composite = init_storage_ro_composite w (init_storage_backend rounds w) options h in
    if length options == 0
    then (refused, h)
    else if is_prefix (b'/' ∷ []) options
    then path_outcome w options h (w.stat options)
    else if is_prefix rados_scheme options
    then init_storage_remote w rados options h
    else if is_prefix memcached_scheme options
    then init_storage_remote w memcached options h
    else if is_prefix ro_http_proxy_scheme options
    then init_storage_remote w ro_http_proxy options h
    else if is_prefix composite_scheme options
    then composite
    else if is_prefix null_scheme options
    then init_storage_null w h
    else (refused, h)
