-- ===== src/Store/Settled.antt =====
-- src/store.c and src/store_ro_composite.c: what is taken from the heap is given back, on all paths.
use mod_tile.Base.{
  Bool, true, false, if◌then◌else◌, ℕ, zero, suc, ◌≡◌, List, [], ◌∷◌, ◌++◌, Option, none, some,
  ◌==◌, leb, length, drop, count, count-append, arith, if_both, subst,
}
use mathlib.Core.List.{append_assoc}
use mod_tile.Item.{Ptr}
use mod_tile.GenTile.Projection.{is_prefix}
use mod_tile.SubmitQueue.{xmlconfig_max}
use mod_tile.Store.Memory.{
  Blocks, malloc, free, frees, Owns, Owns-nothing, Owns-both, Takes, malloc-Takes, free-Owns,
  frees-Owns,
}
use mod_tile.Store.{
  Backend, file_store, remote_store, null_store, composite_store, Opening, refused, crashed,
  overruns, stuck, opened, PathKind, no_path, a_directory, no_directory, Remote, StoreCalls, block,
  close_storage, init_storage_file, file_outcome, init_storage_null, null_outcome,
  init_storage_remote, remote_outcome, path_outcome, rados, memcached, ro_http_proxy, rados_scheme,
  memcached_scheme, ro_http_proxy_scheme, null_scheme, Inner, give_up, after_secondary,
  open_secondary, after_primary, open_primary, with_copies, with_copy, open_texts, with_blocks,
  init_storage_ro_composite, init_storage_backend, split_comma, split_braces, drop_last,
  composite_scheme,
}

-- The blocks of a store
abbrev pub owned : Backend → List Ptr
owned (file_store path s none) = s ∷ []
owned (file_store path s (some c)) = c ∷ s ∷ []
owned (remote_store options s cs) = cs ++ s ∷ []
owned (null_store s) = s ∷ []
owned (composite_store s c x b y d) = owned b ++ (owned d ++ c ∷ s ∷ [])

Owns-same :
    (h h' : Blocks) (ps qs : List Ptr)
    → ((q : Ptr) → count q ps ≡ count q qs)
    → Owns h h' ps
    → Owns h h' qs
Owns-same h h' ps qs e o = record { held = λ q. omega (arith, o.held q, e q); sound = o.sound }

-- Closing a store and freeing it gives back what it owns.
pub close_storage-Owns :
    (h h' : Blocks) (b : Backend) (ps : List Ptr)
    → Owns h h' (owned b ++ ps)
    → Owns h (free (block b) (close_storage b h')) ps
unfolding close_storage
close_storage-Owns h h' (file_store path s none) ps o = free-Owns h h' s ps o
close_storage-Owns h h' (file_store path s (some c)) ps o =
    free-Owns h (free c h') s ps (free-Owns h h' c (s ∷ ps) o)
close_storage-Owns h h' (remote_store options s cs) ps o =
    free-Owns h (frees cs h') s ps
      (frees-Owns h h' cs (s ∷ ps) (subst (Owns h h') (append_assoc cs (s ∷ []) ps) o))
close_storage-Owns h h' (null_store s) ps o = free-Owns h h' s ps o
close_storage-Owns h h' (composite_store s c x b y d) ps o =
    let one = close_storage-Owns h h' b (owned d ++ (c ∷ s ∷ ps)) (simp append_assoc at o) in
    let two = close_storage-Owns h (free (block b) (close_storage b h')) d (c ∷ s ∷ ps) one in
    free-Owns h _ s ps (free-Owns h _ c (s ∷ ps) two)

-- What a call leaves: nothing, or the blocks of the store that it returns.
abbrev pub Settles : Blocks → Opening → Blocks → Type 0
Settles h refused h' = Owns h h' []
Settles h crashed h' = Unit
Settles h overruns h' = Unit
Settles h stuck h' = Unit
Settles h (opened b) h' = Owns h h' (owned b)

give_up-Owns :
    (h h' : Blocks) (a t s c : Ptr) (b : Backend)
    → Owns h h' (owned b ++ (a ∷ t ∷ c ∷ s ∷ []))
    → Owns h (give_up a t s c b h') []
unfolding give_up frees
give_up-Owns h h' a t s c b o =
    let copies =
      Owns-same h h' _ (a ∷ t ∷ (owned b ++ (c ∷ s ∷ [])))
        (λ q. omega (
          arith,
          count-append q (owned b) (a ∷ t ∷ c ∷ s ∷ []),
          count-append q (owned b) (c ∷ s ∷ []),
        ))
        o in
    let closed = close_storage-Owns h _ b (c ∷ s ∷ []) (frees-Owns h h' (a ∷ t ∷ []) _ copies) in
    frees-Owns h _ (c ∷ s ∷ []) [] closed

settled_unless :
    (h0 h : Blocks) (outside : Bool) (r : Opening × Blocks)
    → Settles h0 r.0 r.1
    → Settles h0 (if outside then (overruns, h) else r).0 (if outside then (overruns, h) else r).1
settled_unless h0 h true r k = tt
settled_unless h0 h false r k = k

module _ (w : StoreCalls) (init : Inner)
    (inner : (o : List ℕ) (h : Blocks) → Settles h (init o h).0 (init o h).1) (h0 : Blocks)
    (s c : Ptr) where
  module _ (a t : Ptr) where
    after_secondary-Settles :
        (xml : List ℕ) (b : Backend) (other : List ℕ) (h h' : Blocks) (second : Opening)
        → Owns h0 h (owned b ++ (a ∷ t ∷ c ∷ s ∷ []))
        → Settles h second h'
        → Settles h0
            (after_secondary a t s c xml b other second h').0
            (after_secondary a t s c xml b other second h').1
    unfolding after_secondary
    after_secondary-Settles xml b other h h' refused o k =
        give_up-Owns h0 h' a t s c b (Owns-both h0 h h' _ [] o k)
    after_secondary-Settles xml b other h h' crashed o k = tt
    after_secondary-Settles xml b other h h' overruns o k = tt
    after_secondary-Settles xml b other h h' stuck o k = tt
    after_secondary-Settles xml b other h h' (opened d) o k =
        frees-Owns h0 h' (a ∷ t ∷ []) (owned b ++ (owned d ++ c ∷ s ∷ [])) (
          Owns-same h0 h' _ _
            (λ q. omega (
              arith,
              count-append q (owned d) (owned b ++ (a ∷ t ∷ c ∷ s ∷ [])),
              count-append q (owned b) (a ∷ t ∷ c ∷ s ∷ []),
              count-append q (owned b) (owned d ++ (c ∷ s ∷ [])),
              count-append q (owned d) (c ∷ s ∷ []),
            ))
            (Owns-both h0 h h' _ (owned d) o k))

    open_secondary-Settles :
        (xml : List ℕ) (b : Backend) (h : Blocks) (parts : Option (List ℕ × List ℕ))
        → Owns h0 h (owned b ++ (a ∷ t ∷ c ∷ s ∷ []))
        → Settles h0
            (open_secondary init a t s c xml b h parts).0
            (open_secondary init a t s c xml b h parts).1
    unfolding open_secondary
    open_secondary-Settles xml b h none o = give_up-Owns h0 h a t s c b o
    open_secondary-Settles xml b h (some (other, options)) o =
        settled_unless h0 h (leb xmlconfig_max (length other)) _
          (after_secondary-Settles xml b other h _ _ o (inner options h))

    after_primary-Settles :
        (xml secondary : List ℕ) (h h' : Blocks) (first : Opening)
        → Owns h0 h (a ∷ t ∷ c ∷ s ∷ [])
        → Settles h first h'
        → Settles h0
            (after_primary init a t s c xml secondary first h').0
            (after_primary init a t s c xml secondary first h').1
    unfolding after_primary
    after_primary-Settles xml secondary h h' refused o k =
        frees-Owns h0 h' (a ∷ t ∷ c ∷ s ∷ []) [] (Owns-both h0 h h' _ [] o k)
    after_primary-Settles xml secondary h h' crashed o k = tt
    after_primary-Settles xml secondary h h' overruns o k = tt
    after_primary-Settles xml secondary h h' stuck o k = tt
    after_primary-Settles xml secondary h h' (opened b) o k =
        open_secondary-Settles xml b h' (split_comma secondary) (Owns-both h0 h h' _ (owned b) o k)

    open_primary-Settles :
        (secondary : List ℕ) (h : Blocks) (parts : Option (List ℕ × List ℕ))
        → Owns h0 h (a ∷ t ∷ c ∷ s ∷ [])
        → Settles h0
            (open_primary init a t s c secondary h parts).0
            (open_primary init a t s c secondary h parts).1
    unfolding open_primary
    open_primary-Settles secondary h none o = frees-Owns h0 h (a ∷ t ∷ c ∷ s ∷ []) [] o
    open_primary-Settles secondary h (some (xml, options)) o =
        settled_unless h0 h (leb xmlconfig_max (length xml)) _
          (after_primary-Settles xml secondary h _ _ o (inner options h))

  with_copies-Settles :
      (a : Ptr) (before behind : List ℕ) (h h' : Blocks) (other : Option Ptr)
      → Owns h0 h (a ∷ c ∷ s ∷ [])
      → Takes h other h'
      → Settles h0
          (with_copies init s c a before behind h' other).0
          (with_copies init s c a before behind h' other).1
  unfolding with_copies
  with_copies-Settles a before behind h h' none o k = tt
  with_copies-Settles a before behind h h' (some t) o k =
      settled_unless h0 h' (length behind == 0) _ (
        open_primary-Settles a t (drop_last behind) h'
          (split_comma (drop (length composite_scheme) before))
          (Owns-same h0 h' (t ∷ a ∷ c ∷ s ∷ []) (a ∷ t ∷ c ∷ s ∷ []) (λ q. omega arith)
            (Owns-both h0 h h' _ (t ∷ []) o k)))

  with_copy-Settles :
      (before behind : List ℕ) (h h' : Blocks) (copy : Option Ptr)
      → Owns h0 h (c ∷ s ∷ [])
      → Takes h copy h'
      → Settles h0
          (with_copy w init s c before behind h' copy).0
          (with_copy w init s c before behind h' copy).1
  unfolding with_copy
  with_copy-Settles before behind h h' none o k =
      frees-Owns h0 h' (c ∷ s ∷ []) [] (Owns-both h0 h h' _ [] o k)
  with_copy-Settles before behind h h' (some a) o k =
      with_copies-Settles a before behind h' _ _ (Owns-both h0 h h' _ (a ∷ []) o k)
        (malloc-Takes w.malloc_succeeds h')

  open_texts-Settles :
      (h : Blocks) (parts : Option (List ℕ × List ℕ))
      → Owns h0 h (c ∷ s ∷ [])
      → Settles h0 (open_texts w init s c h parts).0 (open_texts w init s c h parts).1
  unfolding open_texts
  open_texts-Settles h none o = frees-Owns h0 h (c ∷ s ∷ []) [] o
  open_texts-Settles h (some (before, behind)) o =
      with_copy-Settles before behind h _ _ o (malloc-Takes w.malloc_succeeds h)

module _ (w : StoreCalls) where
  with_blocks-Settles :
      (init : Inner)
      → ((o : List ℕ) (h : Blocks) → Settles h (init o h).0 (init o h).1)
      → (options : List ℕ) (h h1 h2 : Blocks) (store ctx : Option Ptr) → Takes h store h1
      → Takes h1 ctx h2
      → Settles h
          (with_blocks w init options h2 store ctx).0
          (with_blocks w init options h2 store ctx).1
  unfolding with_blocks
  with_blocks-Settles init inner options h h1 h2 none none o k = Owns-both h h1 h2 _ [] o k
  with_blocks-Settles init inner options h h1 h2 none (some c) o k =
      free-Owns h h2 c [] (Owns-both h h1 h2 _ (c ∷ []) o k)
  with_blocks-Settles init inner options h h1 h2 (some s) none o k =
      free-Owns h h2 s [] (Owns-both h h1 h2 _ [] o k)
  with_blocks-Settles init inner options h h1 h2 (some s) (some c) o k =
      open_texts-Settles w init inner h s c h2 (split_braces options)
        (Owns-both h h1 h2 _ (c ∷ []) o k)

  -- The stores of other libraries take and give back their memory likewise.
  abbrev pub TakesBlocks : Blocks → Option (Ptr × List Ptr) → Blocks → Type 0
  TakesBlocks h none h' = Owns h h' []
  TakesBlocks h (some (s, cs)) h' = Owns h h' (cs ++ s ∷ [])

  abbrev pub RemoteTakes : Type 0
  RemoteTakes =
      (r : Remote) (o : List ℕ) (h : Blocks)
      → TakesBlocks h (w.init_remote r o h).0 (w.init_remote r o h).1

  file-Settles :
      (options : List ℕ) (h h1 h2 : Blocks) (store ctx : Option Ptr)
      → Takes h store h1
      → Takes h1 ctx h2
      → Settles h (file_outcome options h1 h2 store ctx).0 (file_outcome options h1 h2 store ctx).1
  unfolding file_outcome
  file-Settles options h h1 h2 none ctx o k = o
  file-Settles options h h1 h2 (some s) none o k = Owns-both h h1 h2 _ [] o k
  file-Settles options h h1 h2 (some s) (some c) o k = Owns-both h h1 h2 _ (c ∷ []) o k

  null-Settles :
      (h h1 : Blocks) (store : Option Ptr)
      → Takes h store h1
      → Settles h (null_outcome h1 store).0 (null_outcome h1 store).1
  unfolding null_outcome
  null-Settles h h1 none o = o
  null-Settles h h1 (some s) o = o

  remote-Settles :
      (options : List ℕ) (h h1 : Blocks) (store : Option (Ptr × List Ptr))
      → TakesBlocks h store h1
      → Settles h (remote_outcome options h1 store).0 (remote_outcome options h1 store).1
  unfolding remote_outcome
  remote-Settles options h h1 none o = o
  remote-Settles options h h1 (some (s, cs)) o = o

  path-Settles :
      (options : List ℕ) (h : Blocks) (k : PathKind)
      → Settles h (path_outcome w options h k).0 (path_outcome w options h k).1
  unfolding path_outcome init_storage_file
  path-Settles options h no_path = Owns-nothing h
  path-Settles options h no_directory = Owns-nothing h
  path-Settles options h a_directory =
      file-Settles options h _ _ _ _ (malloc-Takes w.malloc_succeeds h)
        (malloc-Takes w.malloc_succeeds (malloc w.malloc_succeeds h).1)

  abbrev Settled : Blocks → Opening × Blocks → Type 0
  Settled h r = Settles h r.0 r.1

  -- Where the stores of other libraries keep to it: NULL is returned with all memory given back that was
  -- taken, and a store with just its own blocks taken; no block is freed twice on the way.
  pub init_storage_backend-Settles :
      RemoteTakes
      → (rounds : ℕ) (options : List ℕ) (h : Blocks)
      → Settles h
          (init_storage_backend rounds w options h).0
          (init_storage_backend rounds w options h).1
  unfolding init_storage_backend init_storage_remote init_storage_null init_storage_ro_composite
  init_storage_backend-Settles remote zero options h = tt
  init_storage_backend-Settles remote (suc rounds) options h =
      let away = λ (r : Remote).
        remote-Settles options h _ (w.init_remote r options h).0 (remote r options h) in
      let two =
        with_blocks-Settles (init_storage_backend rounds w)
          (λ o k. init_storage_backend-Settles remote rounds o k) options h _ _ _ _
          (malloc-Takes w.malloc_succeeds h)
          (malloc-Takes w.malloc_succeeds (malloc w.malloc_succeeds h).1) in
      if_both (Settled h) (length options == 0) (Owns-nothing h) (
        if_both (Settled h) (is_prefix (b'/' ∷ []) options)
          (path-Settles options h (w.stat options))
          (if_both (Settled h) (is_prefix rados_scheme options) (away rados) (
            if_both (Settled h) (is_prefix memcached_scheme options) (away memcached) (
              if_both (Settled h) (is_prefix ro_http_proxy_scheme options) (away ro_http_proxy) (
                if_both (Settled h) (is_prefix composite_scheme options) two (
                  if_both (Settled h) (is_prefix null_scheme options)
                    (null-Settles h _ _ (malloc-Takes w.malloc_succeeds h)) (Owns-nothing h)))))))
