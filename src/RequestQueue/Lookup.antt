-- ===== src/RequestQueue/Lookup.antt =====
-- src/request_queue.c: the index finds a metatile exactly where a list of the queue holds it.
use mod_tile.Base.{
  ◌<◌, ◌≡◌, true, false, none, some, arith, find_first-none, find_first-some, Bool-cases, inl, inr,
}
use mod_tile.Item.{Ptr, same_metatile}
use mod_tile.ItemIndex.{chain, lookup_item_idx}
use mod_tile.ItemIndex.Hash.{calc_hash_key_of_same}
use mod_tile.RequestQueue.{RequestQueue, hash_key, lookup}
use mod_tile.RequestQueue.Invariant.{IsValid, links}

module _ (q : RequestQueue) (v : IsValid q) (p : Ptr) where
  pub lookup-none : (t : Ptr) → lookup q p ≡ none → 0 < links q t → same_metatile q.heap p t ≡ false
  unfolding lookup_item_idx
  lookup-none t e h = elim (Bool-cases (same_metatile q.heap p t)) [
    | inr miss ↦ miss
    | inl hit ↦
        find_first-none (same_metatile q.heap p) (chain (q.item_hashidx (hash_key q p))) t e (
          ground (
            arith,
            v.indexed (hash_key q p) t,
            calc_hash_key_of_same q.hashidx_size q.heap p t hit,
          ))
  ]

  pub lookup-some :
      (t : Ptr) → lookup q p ≡ some t → (same_metatile q.heap p t ≡ true) × (0 < links q t)
  unfolding lookup_item_idx
  lookup-some t e =
      let (same, there) = find_first-some (same_metatile q.heap p) _ t e in
      (same, ground (arith, v.indexed (hash_key q p) t))
