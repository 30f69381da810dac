-- ===== src/Renderd/Connections.antt =====
-- src/renderd.c, `process_loop`: the connections and the queues stay in step.
use mathlib.Core.List.{append_assoc}
use mod_tile.Base.{
  subst, ◌≢◌, ℕ, suc, ◌+◌, ◌≤◌, ◌≡◌, refl, sym, ap, ℤ, pos, negsuc, eq_ℤ, eq_ℤ_refl, eq_ℤ→eq, ltb_ℤ,
  ◌+ℤ◌, ◌-ℤ◌, true, false, Bool, ◌||◌, List, [], ◌∷◌, ◌++◌, length, length-append, arith, Option,
  none, some, inl, inr, if◌then◌else◌, if_both, Bool-cases, ltb, ◌==◌,
}
use mod_tile.Protocol.{Protocol}
use mod_tile.Item.{Ptr}
use mod_tile.RequestQueue.{RequestQueue, request_queue_clear_requests_by_fd, fd_invalid}
use mod_tile.RequestQueue.Clear.{clear-IsValid}
use mod_tile.RequestQueue.Owned.{clear-IsOwned}
use mod_tile.Renderd.{
  Server, Arrival, quiet, hung_up, arrived, serve, serve_slot, serve_slots, accept_connection,
  accept_event, take_slot, new_slot, poll_round, max_connections,
}
use mod_tile.Renderd.Steps.{IsSound, Step-IsSound, receives, lacks_memory}
use mod_tile.Renderd.Connected.{AllOpen, serve-AllOpen, clear-AllOpen}

abbrev pub member : ℤ → List ℤ → Bool
member x [] = false
member x (y ∷ ys) = eq_ℤ x y || member x ys

-- The slots in use.
abbrev pub used : List ℤ → ℕ
used [] = 0
used (y ∷ ys) = (if eq_ℤ y fd_invalid then 0 else 1) + used ys

abbrev pub is_open : List ℤ → ℤ → Bool
is_open slots x = eq_ℤ x fd_invalid || member x slots

member-append : (x : ℤ) (xs ys : List ℤ) → member x (xs ++ ys) ≡ (member x xs || member x ys)
member-append x [] ys = refl
member-append x (y ∷ xs) ys = ground (arith, member-append x xs ys)

used-append : (xs ys : List ℤ) → used (xs ++ ys) ≡ used xs + used ys
used-append [] ys = omega arith
used-append (y ∷ xs) ys = omega (arith, used-append xs ys)

-- The queues are sound; `num_conns` counts the slots in use, of which there are not too many; and
-- whoever the queues would answer has an open connection.
pub record IsServing (slots : List ℤ) (s : Server) : Type 0 where
  pub sound : IsSound s.queue
  pub counted : s.num_conns ≡ pos (used slots)
  pub bounded : length slots ≤ max_connections
  pub connected : AllOpen (is_open slots) s.queue

-- The allocator gives addresses that are not in use.
abbrev pub GivesFree : (RequestQueue → Option Ptr) → Type 0
GivesFree malloc = (q : RequestQueue) (p : Ptr) → malloc q ≡ some p → q.heap.allocated p ≡ false

-- An end of the connection that is read on an open descriptor, if on any
abbrev CanEnd : Arrival → ℤ → Type 0
CanEnd hung_up fd = eq_ℤ fd fd_invalid ≡ false
CanEnd quiet fd = Unit
CanEnd (arrived req) fd = Unit

serve-IsSound :
    (malloc : Option Ptr) (q : RequestQueue) (req : Protocol) (fd : ℤ)
    → IsSound q
    → ((p : Ptr) → malloc ≡ some p → q.heap.allocated p ≡ false)
    → IsSound (serve malloc q req fd).1
serve-IsSound none q req fd s free = Step-IsSound (lacks_memory req fd) s
serve-IsSound (some p) q req fd s free = Step-IsSound (receives p req fd (free p refl)) s

module _ (malloc : RequestQueue → Option Ptr) (gives : GivesFree malloc) (before : List ℤ) (fd : ℤ)
    (behind : List ℤ) (s : Server) (i : IsServing (before ++ fd ∷ behind) s) where
  abbrev slots : List ℤ
  slots = before ++ fd ∷ behind

  here : is_open slots fd ≡ true
  here = rw (member-append fd before (fd ∷ behind), eq_ℤ_refl fd) (ground arith)

  arrived-IsServing :
      (req : Protocol)
      → IsServing slots (record s { queue = (serve (malloc s.queue) s.queue req fd).1 })
  arrived-IsServing req = record {
    sound = serve-IsSound (malloc s.queue) s.queue req fd i.sound (λ p e. gives s.queue p e);
    counted = i.counted;
    bounded = i.bounded;
    connected =
        serve-AllOpen (is_open slots) (malloc s.queue) s.queue req fd refl here i.sound
          (λ p e. gives s.queue p e) i.connected;
  }

  hung_up-IsServing :
      eq_ℤ fd fd_invalid ≡ false
      → IsServing (before ++ fd_invalid ∷ behind) (record s {
        num_conns = s.num_conns -ℤ pos 1;
        queue = request_queue_clear_requests_by_fd s.queue fd;
      })
  hung_up-IsServing n = record {
    sound = record {
      valid = clear-IsValid s.queue fd i.sound.valid;
      owned = clear-IsOwned s.queue i.sound.valid i.sound.owned fd;
    };
    counted = ground (
      arith,
      i.counted,
      used-append before (fd ∷ behind),
      used-append before (fd_invalid ∷ behind),
    );
    bounded = omega (
      arith,
      i.bounded,
      length-append before (fd ∷ behind),
      length-append before (fd_invalid ∷ behind),
    );
    connected =
        clear-AllOpen (is_open slots) refl s.queue i.sound.valid i.connected fd
          (λ e. ground (arith, eq_ℤ_refl fd, e)) (is_open (before ++ fd_invalid ∷ behind)) refl
          keeps;
  }
    where
      keeps :
          (x : ℤ)
          → x ≢ fd
          → is_open slots x ≡ true
          → is_open (before ++ fd_invalid ∷ behind) x ≡ true
      keeps x ne h = ground (
        arith,
        eq_ℤ→eq x fd,
        member-append x before (fd ∷ behind),
        member-append x before (fd_invalid ∷ behind),
      )

  serve_slot-IsServing :
      (a : Arrival)
      → CanEnd a fd
      → IsServing (before ++ (serve_slot malloc a fd s).1 ∷ behind) (serve_slot malloc a fd s).2
  unfolding serve_slot
  serve_slot-IsServing quiet h = i
  serve_slot-IsServing hung_up n = hung_up-IsServing n
  serve_slot-IsServing (arrived req) h = arrived-IsServing req

-- Only a connection that is there is read.
pos_end : (n : ℕ) (a : Arrival) → CanEnd a (pos n)
pos_end n quiet = tt
pos_end n hung_up = refl
pos_end n (arrived req) = tt

read_end : (fd : ℤ) (a : Arrival) → CanEnd (if ltb_ℤ fd (pos 0) then quiet else a) fd
read_end (pos n) a = if_both (λ x. CanEnd x (pos n)) (ltb_ℤ (pos n) (pos 0)) tt (pos_end n a)
read_end (negsuc n) a = let e : ltb 0 (0 + suc n) ≡ true = ground arith in rw e tt

one_more :
    {s : Server} (before : List ℤ) (fd : ℤ) (behind : List ℤ)
    → IsServing (before ++ fd ∷ behind) s
    → IsServing ((before ++ fd ∷ []) ++ behind) s
one_more {s} before fd behind =
    subst (λ l. IsServing l s) (sym (append_assoc before (fd ∷ []) behind))

one_less :
    {s : Server} (before : List ℤ) (fd : ℤ) (behind : List ℤ)
    → IsServing ((before ++ fd ∷ []) ++ behind) s
    → IsServing (before ++ fd ∷ behind) s
one_less {s} before fd behind = subst (λ l. IsServing l s) (append_assoc before (fd ∷ []) behind)

serve_slots-IsServing :
    (malloc : RequestQueue → Option Ptr) (gives : GivesFree malloc) (arrivals : ℤ → Arrival)
    (before fds : List ℤ) (s : Server)
    → IsServing (before ++ fds) s
    → IsServing
        (before ++ (serve_slots malloc arrivals fds s).1)
        (serve_slots malloc arrivals fds s).2
unfolding serve_slots
serve_slots-IsServing malloc gives arrivals before [] s i = i
serve_slots-IsServing malloc gives arrivals before (fd ∷ fds) s i =
    let a = if ltb_ℤ fd (pos 0) then quiet else arrivals fd in
    let fd' = (serve_slot malloc a fd s).1 in
    let s1 = (serve_slot malloc a fd s).2 in
    one_less before fd' (serve_slots malloc arrivals fds s1).1 (
      serve_slots-IsServing malloc gives arrivals (before ++ fd' ∷ []) fds s1 (
        one_more before fd' fds
          (serve_slot-IsServing malloc gives before fd fds s i a (read_end fd (arrivals fd)))))

-- What a new connection does to the slots.
record HasTaken (fds taken : List ℤ) : Type 0 where
  one : used taken ≡ used fds + 1
  kept : (x : ℤ) → is_open fds x ≡ true → is_open taken x ≡ true

abbrev TakesSlot : List ℤ → Option (List ℤ) → Type 0
TakesSlot fds none = Unit
TakesSlot fds (some r) = HasTaken fds r × (length r ≡ length fds)

behind-TakesSlot :
    (fd : ℤ) (fds : List ℤ) (o : Option (List ℤ))
    → TakesSlot fds o
    → TakesSlot (fd ∷ fds) (elim o [ none ↦ none | some r ↦ some (fd ∷ r) ])
behind-TakesSlot fd fds none h = tt
behind-TakesSlot fd fds (some r) (h, l) =
    (record { one = omega (arith, h.one); kept = λ x k. ground (arith, h.kept x) }, ap suc l)

take_slot-TakesSlot :
    (incoming : ℤ) (fds : List ℤ)
    → eq_ℤ incoming fd_invalid ≡ false
    → TakesSlot fds (take_slot incoming fds)
unfolding take_slot
take_slot-TakesSlot incoming [] n = tt
take_slot-TakesSlot incoming (fd ∷ fds) n = elim (Bool-cases (eq_ℤ fd fd_invalid)) [
  | inl e ↦ rw e (
    record {
      one = ground arith;
      kept = λ x k. ground (arith, eq_ℤ→eq x fd, eq_ℤ→eq fd fd_invalid);
    },
    refl,
  )
  | inr e ↦
      rw e (behind-TakesSlot fd fds (take_slot incoming fds) (take_slot-TakesSlot incoming fds n))
]

abbrev HasRoom : List ℤ → Option (List ℤ) → Type 0
HasRoom fds none = Unit
HasRoom fds (some r) = HasTaken fds r × (length r ≤ max_connections)

new_slot-HasRoom :
    (incoming : ℤ) (fds : List ℤ)
    → eq_ℤ incoming fd_invalid ≡ false
    → length fds ≤ max_connections
    → HasRoom fds (new_slot incoming fds)
unfolding new_slot
new_slot-HasRoom incoming fds n h =
    reuse (take_slot incoming fds) (take_slot-TakesSlot incoming fds n)
  where
    grown : HasTaken fds (fds ++ incoming ∷ [])
    grown = record {
      one = ground (arith, used-append fds (incoming ∷ []));
      kept = λ x k. ground (arith, member-append x fds (incoming ∷ []));
    }

    extend :
        HasRoom fds (if length fds == max_connections then none else some (fds ++ incoming ∷ []))
    extend = elim (Bool-cases (length fds == max_connections)) [
      | inl e ↦ rw e tt
      | inr e ↦ rw e (grown, ground (arith, length-append fds (incoming ∷ [])))
    ]

    reuse :
        (o : Option (List ℤ))
        → TakesSlot fds o
        → HasRoom fds (elim o [
          | some r ↦ some r
          | none ↦ if length fds == max_connections then none else some (fds ++ incoming ∷ [])
        ])
    reuse none k = extend
    reuse (some r) (k, l) = (k, omega (arith, l))

record_slot :
    (s : Server) (o : Option (List ℤ))
    → IsServing s.slots s
    → HasRoom s.slots o
    → (λ (r : Server). IsServing r.slots r)
        (elim o [
          | none ↦ s
          | some fds ↦ record s { slots = fds; num_conns = s.num_conns +ℤ pos 1 }
        ])
record_slot s none i h = i
record_slot s (some fds) i (h, l) = record {
  sound = i.sound;
  counted = ground (arith, i.counted, h.one);
  bounded = l;
  connected = λ t d a b. h.kept (s.queue.heap.fd d) (i.connected t d a b);
}

accept-IsServing :
    (incoming : Option ℤ) (s : Server)
    → IsServing s.slots s
    → IsServing (accept_event incoming s).slots (accept_event incoming s)
unfolding accept_event accept_connection
accept-IsServing none s i = i
accept-IsServing (some (negsuc n)) s i = let e : ltb 0 (0 + suc n) ≡ true = ground arith in rw e i
accept-IsServing (some (pos n)) s i =
    if_both (λ r. IsServing r.slots r) (ltb_ℤ (pos n) (pos 0)) i
      (record_slot s (new_slot (pos n) s.slots) i (new_slot-HasRoom (pos n) s.slots refl i.bounded))

-- For an allocator that gives free addresses, and a server whose queues are sound, whose `num_conns` is
-- the number of its open connections, of which there are 2048 slots at most, and whose queues would
-- answer to open connections only: what one call of `poll` leads to, whatever is accepted, read, refused
-- or closed, leaves a server of which the same holds.
pub poll_round-IsServing :
    (malloc : RequestQueue → Option Ptr) (incoming : Option ℤ) (arrivals : ℤ → Arrival) (s : Server)
    → GivesFree malloc
    → IsServing s.slots s
    → IsServing
        (poll_round malloc incoming arrivals s).1.slots
        (poll_round malloc incoming arrivals s).1
unfolding poll_round
poll_round-IsServing malloc incoming arrivals s gives i =
    let s1 = accept_event incoming s in
    let j =
      serve_slots-IsServing malloc gives arrivals [] s1.slots s1 (accept-IsServing incoming s i) in
    record { sound = j.sound; counted = j.counted; bounded = j.bounded; connected = j.connected }
