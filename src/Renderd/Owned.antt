-- ===== src/Renderd/Owned.antt =====
-- src/renderd.c, `send_response`: the queues stay valid, and no item is used after its end.
use mod_tile.Base.{
  ◌≢◌, ℕ, ◌≤◌, ◌<◌, ◌≡◌, refl, sym, ◌∙◌, ap, ℤ, Bool, true, false, List, [], ◌∷◌, count, arith,
  ◌==◌, if◌then◌else◌, dec_lt, count-erase, ltb,
}
use mod_tile.Protocol.{ProtoCmd}
use mod_tile.Item.{Ptr, QueueEnum, update, queue_render, same_metatile}
use mod_tile.ItemIndex.{chain}
use mod_tile.RequestQueue.{RequestQueue, hash_key, request_queue_remove_request}
use mod_tile.RequestQueue.Invariant.{IsValid, links}
use mod_tile.RequestQueue.Owned.{IsOwned, duplicate_unlinked, remove-IsOwned}
use mod_tile.RequestQueue.Remove.{remove-IsValid}
use mod_tile.Renderd.{send_response}
use mod_tile.Renderd.Respond.{Responded, respond_all-Responded, respond_all-messages, replies}

-- Freeing these items in their order frees only what is allocated.
abbrev pub FreesLive : List Ptr → (Ptr → Bool) → Type 0
FreesLive [] allocated = Unit
FreesLive (p ∷ ps) allocated = (allocated p ≡ true) × FreesLive ps (update allocated p false)

all_live :
    (ps : List Ptr) (allocated : Ptr → Bool)
    → ((d : Ptr) → 0 < count d ps → allocated d ≡ true)
    → ((d : Ptr) → count d ps ≤ 1)
    → FreesLive ps allocated
all_live [] allocated h k = tt
all_live (p ∷ ps) allocated h k = (
  ground (arith, h p),
  all_live ps (update allocated p false) (λ d c. ground (arith, h d, k d))
      (λ d. omega (arith, k d)),
)

module _ {q q' : RequestQueue} {ps : List Ptr} (r : Responded q ps q') where
  heads_same : (c : QueueEnum) → q'.heads c ≡ q.heads c
  heads_same c = ap (λ (f : QueueEnum → List Ptr). f c) r.heads

  pub links_same : (t : Ptr) → links q' t ≡ links q t
  links_same t =
      ap (λ c. count t (q'.heads c)) (ap (λ (f : Ptr → QueueEnum). f t) r.in_queue)
      ∙ ap (count t) (heads_same (q.heap.in_queue t))

  module _ (gone : (d : Ptr) (c : QueueEnum) → 0 < count d ps → count d (q.heads c) ≡ 0) where
    kept_req : (t : Ptr) → 0 < links q t → q'.heap.req t ≡ q.heap.req t
    kept_req t h = r.req t (ground (arith, gone t (q.heap.in_queue t)))

    same_kept :
        (s t : Ptr)
        → 0 < links q s
        → 0 < links q t
        → same_metatile q'.heap s t ≡ same_metatile q.heap s t
    same_kept s t hs ht = rw (kept_req s hs, kept_req t ht, r.mx, r.my) refl

    key_kept : (t : Ptr) → 0 < links q t → hash_key q' t ≡ hash_key q t
    key_kept t h = rw (kept_req t h, r.mx, r.my, r.hashidx_size) refl

    module _ (v : IsValid q) where
      indexed_kept :
          (k : ℕ) (t : Ptr)
          → count t (chain (q'.item_hashidx k)) ≡ (if hash_key q' t == k then links q' t else 0)
      indexed_kept k t = elim (dec_lt 0 (links q t)) [
        | yes h ↦ rw (r.item_hashidx, links_same t, key_kept t h) (v.indexed k t)
        | no n ↦ rw (r.item_hashidx, links_same t) (ground (arith, v.indexed k t))
      ]

      unique_kept :
          (s t : Ptr) → 0 < links q' s → 0 < links q' t → same_metatile q'.heap s t ≡ true → s ≡ t
      unique_kept s t hs ht same =
          let hs' = rw (links_same s) at hs in
          let ht' = rw (links_same t) at ht in
          v.unique s t hs' ht' (sym (same_kept s t hs' ht') ∙ same)

      live_kept : (c : QueueEnum) (p : Ptr) → 0 < count p (q.heads c) → q'.heap.allocated p ≡ true
      live_kept c p h = ground (arith, r.allocated p, gone p c, v.live c p h)

    responded-IsValid : IsValid q → IsValid q'
    responded-IsValid v = record {
      counted = λ c w. rw (r.nums, r.heads) (v.counted c w);
      limited = λ c w. rw r.nums (v.limited c w);
      tagged = λ c p h. rw r.in_queue (v.tagged c p (rw r.heads at h));
      linked_once = λ c p. rw r.heads (v.linked_once c p);
      no_duplicate = rw r.heads v.no_duplicate;
      chained = rw r.item_hashidx v.chained;
      indexed = λ k t. indexed_kept v k t;
      unique = λ s t hs ht same. unique_kept v s t hs ht same;
      silent = λ p h. rw (r.fd, r.duplicates) (v.silent p (rw r.heads at h));
      live = λ c p h. live_kept v c p (rw r.heads at h);
    }

    responded-IsOwned :
        IsOwned q
        → ((t d : Ptr) → 0 < links q t → 0 < count d (q.heap.duplicates t) → count d ps ≡ 0)
        → IsOwned q'
    responded-IsOwned o apart = record {
      marked =
          λ p d h k. rw r.in_queue (o.marked p d (rw (links_same p) at h) (rw r.duplicates at k));
      live = λ p d h k.
          let h' = rw (links_same p) at h in
          let k' = rw r.duplicates at k in
          ground (arith, r.allocated d, apart p d h' k', o.live p d h' k');
      once = λ p d h. rw r.duplicates (o.once p d (rw (links_same p) at h));
      owner = λ s t d hs ht ks kt.
          o.owner s t d (rw (links_same s) at hs) (rw (links_same t) at ht) (rw r.duplicates at ks)
            (rw r.duplicates at kt);
    }

module _ (q : RequestQueue) (v : IsValid q) (o : IsOwned q) (p : Ptr) (rsp : ProtoCmd) (time : ℤ)
    (rendering : q.heap.in_queue p ≡ queue_render)
    (taken : 0 < count p (q.heads queue_render)) where
  abbrev answered : List Ptr
  answered = p ∷ q.heap.duplicates p

  abbrev removed : RequestQueue
  removed = request_queue_remove_request q p time

  linked : 0 < links q p
  linked = ground arith

  not_own : (t : Ptr) → 0 < links q t → count p (q.heap.duplicates t) ≡ 0
  not_own t h = ground (arith, o.marked t p h)

  answered_gone : (d : Ptr) (c : QueueEnum) → 0 < count d answered → count d (removed.heads c) ≡ 0
  unfolding request_queue_remove_request
  answered_gone d c h =
      ground (
        arith,
        count-erase d p (q.heads c),
        v.linked_once c p,
        duplicate_unlinked q v o p d c linked,
      )

  kept_links : (t : Ptr) → 0 < links removed t → (0 < links q t) × (p ≢ t)
  unfolding request_queue_remove_request
  kept_links t h =
      let here = count-erase t p (q.heads (q.heap.in_queue t)) in
      let one = v.linked_once queue_render p in
      (ground (arith, here), λ e. ground (arith, here, one, rendering, e))

  apart :
      (t d : Ptr) → 0 < links removed t → 0 < count d (q.heap.duplicates t) → count d answered ≡ 0
  apart t d h k =
      let (h', ne) = kept_links t h in ground (arith, not_own t h', o.owner p t d linked h')

  pub answered_once : (d : Ptr) → count d answered ≤ 1
  answered_once d = ground (arith, o.once p d linked, not_own p linked)

  pub response-IsValid : IsValid (send_response q p rsp time).1
  unfolding send_response
  response-IsValid =
      responded-IsValid (respond_all-Responded rsp answered removed) answered_gone
        (remove-IsValid q p time v rendering taken)

  pub response-IsOwned : IsOwned (send_response q p rsp time).1
  unfolding send_response request_queue_remove_request
  response-IsOwned =
      responded-IsOwned (respond_all-Responded rsp answered removed) answered_gone
        (remove-IsOwned q v o p time) (λ t d h k. apart t d h k)

  -- For valid and owned queues and an item in the list of those being rendered: the item and its
  -- duplicates are different and allocated, so each is still allocated when its turn comes;
  -- `send_response` frees exactly these, no other address is freed or taken; and it sends the answer to
  -- exactly those among them that have a reader and asked for a rendering, one message each, in their
  -- order.
  pub send_response_lem :
      FreesLive answered q.heap.allocated
      × ((d : Ptr)
          → (send_response q p rsp time).1.heap.allocated d
            ≡ (if ltb 0 (count d answered) then false else q.heap.allocated d))
      × ((send_response q p rsp time).0 ≡ replies q.heap.fd q.heap.req rsp answered)
  send_response_lem = (
    all_live answered q.heap.allocated
        (λ d h. ground (arith, v.live queue_render d, o.live p d linked)) answered_once,
    λ d.
        unfold send_response request_queue_remove_request in
        (respond_all-Responded rsp answered removed).allocated d,
    unfold send_response request_queue_remove_request in
        respond_all-messages rsp answered removed answered_once,
  )
