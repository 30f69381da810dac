-- ===== src/SubmitQueue/Fifo.antt =====
-- src/render_submit_queue.c, `enqueue` and `fetch`: the linked list is a bounded queue.
use mathlib.Core.List.{append_assoc, append-nil}
use mod_tile.Base.{
  subst, ℕ, ◌+◌, ◌-◌, ◌≤◌, ◌<◌, ◌≡◌, refl, sym, ◌∙◌, ap, ℤ, true, false, List, [], ◌∷◌, ◌++◌, map,
  count, count-append, length, length-append, arith, Option, none, some, inl, inr, ◌==◌, Bool-cases,
}
use mod_tile.Item.{Ptr, update}
use mod_tile.SubmitQueue.{
  QItems, SubmitQueue, BulkRequest, Fetch, waits, finished, fails, got, fetch, request_of,
  unlink_head, new_item, append_item, enqueue, finish_workers,
}

-- The list behind an item, to the tail
abbrev pub Behind : (Ptr → Option Ptr) → Ptr → Option Ptr → List Ptr → Type 0
Behind next p tail [] = (next p ≡ none) × (tail ≡ some p)
Behind next p tail (r ∷ ps) = (next p ≡ some r) × Behind next r tail ps

abbrev pub Linked : (Ptr → Option Ptr) → Option Ptr → Option Ptr → List Ptr → Type 0
Linked next head tail [] = (head ≡ none) × (tail ≡ none)
Linked next head tail (p ∷ ps) = (head ≡ some p) × Behind next p tail ps

-- The pointers lead through these items, `qLen` counts them and is within its bound.
pub record IsQueue (q : SubmitQueue) (ps : List Ptr) : Type 0 where
  pub linked : Linked q.items.next q.q_head q.q_tail ps
  pub counted : q.q_len ≡ length ps
  pub bounded : q.q_len ≤ q.q_max_len
  pub once : (e : Ptr) → count e ps ≤ 1

abbrev pub contents : SubmitQueue → List Ptr → List BulkRequest
contents q ps = map (request_of q.items) ps

-- What `fetch` owes to a queue with these items.
abbrev pub TakesHead : SubmitQueue → List Ptr → Fetch → Type 0
TakesHead q ps waits = (ps ≡ []) × (q.work_complete ≡ false)
TakesHead q ps finished = (ps ≡ []) × (q.work_complete ≡ true)
TakesHead q ps fails = ⊥
TakesHead q ps (got r q') =
    (rest : List Ptr) × IsQueue q' rest
    × (contents q ps ≡ r ∷ contents q' rest)
    × (q'.work_complete ≡ q.work_complete)

unlink-IsQueue :
    (q : SubmitQueue) (p : Ptr) (rest : List Ptr)
    → IsQueue q (p ∷ rest)
    → IsQueue (unlink_head q p) rest
unfolding unlink_head
unlink-IsQueue q p [] i =
    let e : (q.q_len - 1 == 0) ≡ true = ground (arith, i.counted) in
    rw e (record {
      linked = (refl, refl);
      counted = omega (arith, i.counted);
      bounded = omega (arith, i.bounded);
      once = λ e. omega arith;
    })
unlink-IsQueue q p (r ∷ rest) i =
    let e : (q.q_len - 1 == 0) ≡ false = ground (arith, i.counted) in
    rw e (record {
      linked = (i.linked.1.0, i.linked.1.1);
      counted = omega (arith, i.counted);
      bounded = omega (arith, i.bounded);
      once = λ e. omega (arith, i.once e);
    })

unlink_rest :
    (q : SubmitQueue) (p : Ptr)
    → ((unlink_head q p).items ≡ q.items) × ((unlink_head q p).work_complete ≡ q.work_complete)
unfolding unlink_head
unlink_rest q p = ground arith

pub fetch-TakesHead : (q : SubmitQueue) (ps : List Ptr) → IsQueue q ps → TakesHead q ps (fetch q)
unfolding fetch
fetch-TakesHead q [] i =
    let e : (q.q_len == 0) ≡ true = ground (arith, i.counted) in
    rw e
      (elim (Bool-cases q.work_complete) [ inl k ↦ rw k (refl, refl) | inr k ↦ rw k (refl, refl) ])
fetch-TakesHead q (p ∷ rest) i =
    let e : (q.q_len == 0) ≡ false = ground (arith, i.counted) in
    let (items, work) = unlink_rest q p in
    rw e (
      subst
        (λ (h : Option Ptr).
          TakesHead q (p ∷ rest)
            (elim h [ none ↦ fails | some e ↦ got (request_of q.items e) (unlink_head q e) ]))
        (sym i.linked.0)
        (
          rest,
          unlink-IsQueue q p rest i,
          ap (λ (m : QItems). request_of q.items p ∷ map (request_of m) rest) (sym items),
          work,
        ))

module _ (next : Ptr → Option Ptr) (e : Ptr) where
  tail-Behind : (p t : Ptr) (ps : List Ptr) → Behind next p (some t) ps → 0 < count t (p ∷ ps)
  tail-Behind p t [] h = ground (arith, h.1)
  tail-Behind p t (r ∷ ps) h = omega (arith, tail-Behind r t ps h.1)

  linked_next : Ptr → Ptr → Option Ptr
  linked_next t = update (update next e none) t (some e)

  Behind-append :
      (p t : Ptr) (ps : List Ptr)
      → Behind next p (some t) ps
      → count e (p ∷ ps) ≡ 0
      → ((d : Ptr) → count d (p ∷ ps) ≤ 1)
      → Behind (linked_next t) p (some e) (ps ++ e ∷ [])
  unfolding linked_next
  Behind-append p t [] (h, l) n once = (ground (arith, l), (ground (arith, l), refl))
  Behind-append p t (r ∷ ps) (h, b) n once = (
    ground (arith, tail-Behind r t ps b, once p),
    Behind-append r t ps b (omega (arith, n)) (λ d. omega (arith, once d)),
  )

no_tail : (next : Ptr → Option Ptr) (p : Ptr) (ps : List Ptr) → ¬ Behind next p none ps
no_tail next p [] (h, l) = cc
no_tail next p (r ∷ ps) (h, b) = no_tail next r ps b

module _ (q : SubmitQueue) (e : Ptr) (xmlname : List ℕ) (x y z : ℤ) where
  abbrev filled : SubmitQueue
  filled = record q { items = new_item q.items e xmlname x y z }

  abbrev appended : Option Ptr → SubmitQueue
  appended tail = elim tail [
    | some t ↦ record filled {
      items = record filled.items { next = update filled.items.next t (some e) };
      q_tail = some e;
      q_len = q.q_len + 1;
    }
    | none ↦ record filled { q_head = some e; q_tail = some e; q_len = q.q_len + 1 }
  ]

  linked :
      (ps : List Ptr)
      → count e ps ≡ 0
      → ((d : Ptr) → count d ps ≤ 1)
      → (tail : Option Ptr) → Linked q.items.next q.q_head tail ps
      → Linked
          (appended tail).items.next
          (appended tail).q_head
          (appended tail).q_tail
          (ps ++ e ∷ [])
  unfolding new_item linked_next
  linked [] fresh once none h = (refl, (ground arith, refl))
  linked [] fresh once (some t) h = absurd (cc)
  linked (p ∷ ps) fresh once none h = absurd (no_tail q.items.next p ps h.1)
  linked (p ∷ ps) fresh once (some t) h = (h.0, Behind-append q.items.next e p t ps h.1 fresh once)

  module _ (ps : List Ptr) (i : IsQueue q ps) (fresh : count e ps ≡ 0)
      (room : (q.q_len == q.q_max_len) ≡ false) where
    counted : q.q_len + 1 ≡ length (ps ++ e ∷ [])
    counted = omega (arith, i.counted, length-append ps (e ∷ []))

    bounded : q.q_len + 1 ≤ q.q_max_len
    bounded = ground (arith, i.bounded)

    once : (d : Ptr) → count d (ps ++ e ∷ []) ≤ 1
    once d = ground (arith, i.once d, count-append d ps (e ∷ []))

    append-IsQueue :
        (tail : Option Ptr)
        → Linked q.items.next q.q_head tail ps
        → IsQueue (appended tail) (ps ++ e ∷ [])
    append-IsQueue none h = record {
      linked = linked ps fresh i.once none h;
      counted = counted;
      bounded = bounded;
      once = once;
    }
    append-IsQueue (some t) h = record {
      linked = linked ps fresh i.once (some t) h;
      counted = counted;
      bounded = bounded;
      once = once;
    }

  -- What `enqueue` owes to a queue with these items: it waits for room, or it adds the request behind
  -- all others.
  abbrev pub Appends : List Ptr → Option SubmitQueue → Type 0
  Appends ps none = q.q_len ≡ q.q_max_len
  Appends ps (some q') =
      IsQueue q' (ps ++ e ∷ [])
      × (contents q' (ps ++ e ∷ []) ≡ contents q ps ++ request_of filled.items e ∷ [])
      × (q'.work_complete ≡ q.work_complete)

  kept_map :
      (ps : List Ptr)
      → count e ps ≡ 0
      → map (request_of filled.items) (ps ++ e ∷ [])
        ≡ map (request_of q.items) ps ++ request_of filled.items e ∷ []
  unfolding request_of new_item
  kept_map [] fresh = refl
  kept_map (p ∷ ps) fresh =
      let apart : (e == p) ≡ false = ground (arith, fresh) in
      rw (apart, kept_map ps (omega (arith, fresh))) refl

  append_all :
      (ps : List Ptr) (i : IsQueue q ps)
      → count e ps ≡ 0
      → (q.q_len == q.q_max_len) ≡ false
      → (tail : Option Ptr) → Linked q.items.next q.q_head tail ps
      → Appends ps (some (appended tail))
  unfolding request_of
  append_all ps i fresh room none h =
      (append-IsQueue ps i fresh room none h, unfold request_of in kept_map ps fresh, refl)
  append_all ps i fresh room (some t) h =
      (append-IsQueue ps i fresh room (some t) h, unfold request_of in kept_map ps fresh, refl)

  pub enqueue-Appends :
      (ps : List Ptr) → IsQueue q ps → count e ps ≡ 0 → Appends ps (enqueue q e xmlname x y z)
  unfolding enqueue append_item
  enqueue-Appends ps i fresh = elim (Bool-cases (q.q_len == q.q_max_len)) [
    | inl h ↦ rw h (ground arith)
    | inr h ↦ rw h (append_all ps i fresh h q.q_tail i.linked)
  ]

-- Every history of calls, with what was handed in and what was taken out. A new item has an address
-- that is in no list.
pub data Run (q : SubmitQueue) : List BulkRequest → List BulkRequest → SubmitQueue → Type 0 where
  start : Run q [] [] q
  enqueues :
      {r s : SubmitQueue} {ins outs : List BulkRequest} (e : Ptr) (xmlname : List ℕ) (x y z : ℤ)
      → Run q ins outs r
      → ((ps : List Ptr) → IsQueue r ps → count e ps ≡ 0)
      → enqueue r e xmlname x y z ≡ some s
      → Run q (ins ++ request_of (new_item r.items e xmlname x y z) e ∷ []) outs s
  fetches :
      {r s : SubmitQueue} {ins outs : List BulkRequest} (b : BulkRequest)
      → Run q ins outs r
      → fetch r ≡ got b s
      → Run q ins (outs ++ b ∷ []) s
  finishes :
      {r : SubmitQueue} {ins outs : List BulkRequest}
      → Run q ins outs r
      → Run q ins outs (finish_workers r)

finish-IsQueue : {q : SubmitQueue} {ps : List Ptr} → IsQueue q ps → IsQueue (finish_workers q) ps
unfolding finish_workers
finish-IsQueue i = record {
  linked = i.linked;
  counted = i.counted;
  bounded = i.bounded;
  once = i.once;
}

-- From a queue that holds some requests, whatever threads hand in and take out requests in whatever
-- order: the pointers lead through a list again that is counted and within its bound, and the requests
-- that were held first, followed by those handed in, are those taken out, followed by those held now,
-- in the same order. So none is lost, doubled or overtaken.
pub Run-IsQueue :
    {q r : SubmitQueue} {ins outs : List BulkRequest} (ps : List Ptr)
    → IsQueue q ps
    → Run q ins outs r
    → (rs : List Ptr) × IsQueue r rs × (contents q ps ++ ins ≡ outs ++ contents r rs)
unfolding finish_workers
Run-IsQueue ps i start = (ps, i, append-nil _)
Run-IsQueue {q} ps i
      (enqueues {r = r} {s = s} {ins = ins} {outs = outs} e xmlname x y z run fresh k) =
    let (rs, j, eq) = Run-IsQueue ps i run in
    let (j', c, _) =
      subst (Appends r e xmlname x y z rs) k
        (enqueue-Appends r e xmlname x y z rs j (fresh rs j)) in
    (
      rs ++ e ∷ [],
      j',
      sym (append_assoc (contents q ps) ins _)
          ∙ ap (λ (l : List BulkRequest). l ++ request_of (new_item r.items e xmlname x y z) e ∷ [])
              eq
          ∙ append_assoc outs (contents r rs) _
          ∙ ap (λ (l : List BulkRequest). outs ++ l) (sym c),
    )
Run-IsQueue {q} ps i (fetches {r = r} {s = s} {ins = ins} {outs = outs} b run k) =
    let (rs, j, eq) = Run-IsQueue ps i run in
    let (rest, j', c, _) = subst (TakesHead r rs) k (fetch-TakesHead r rs j) in
    (
      rest,
      j',
      eq
          ∙ ap (λ (l : List BulkRequest). outs ++ l) c
          ∙ sym (append_assoc outs (b ∷ []) (contents s rest)),
    )
Run-IsQueue ps i (finishes run) =
    let (rs, j, eq) = Run-IsQueue ps i run in (rs, finish-IsQueue j, eq)
