-- ===== src/SubmitQueue/Tests.antt =====
-- Runs of the submission of requests.
use mod_tile.Base.{
  ℕ, ◌≡◌, refl, pos, List, [], ◌∷◌, ◌++◌, Option, none, some, arith, replicate, get_or, count,
}
use mod_tile.Item.{Ptr}
use mod_tile.Protocol.{cmd_done, cmd_not_done, eq_cmd}
use mod_tile.SubmitQueue.{
  QItems, SubmitQueue, BulkRequest, spawn_workers, finish_workers, enqueue, append_item, new_item,
  fetch, request_of, unlink_head, got, Fetch, finished, no_speed, Reply, lost, replied,
}
use mod_tile.SubmitQueue.Fifo.{IsQueue, contents, Run, Run-IsQueue}
use mod_tile.SubmitQueue.Stats.{process_all, speed_of, times, process_all_lem}

abbrev memory : QItems
memory = record {
  mapname = λ p. [];
  x = λ p. pos 0;
  y = λ p. pos 0;
  z = λ p. pos 0;
  next = λ p. some 77;
}

abbrev idle : SubmitQueue
idle = spawn_workers memory 2

idle-IsQueue : IsQueue idle []
unfolding spawn_workers
idle-IsQueue = record {
  linked = (refl, refl);
  counted = refl;
  bounded = omega arith;
  once = λ e. omega arith;
}

abbrev osm : List ℕ
osm = b'o' ∷ b's' ∷ b'm' ∷ []

-- What a call that finds room leaves.
abbrev or_idle : Option SubmitQueue → SubmitQueue
or_idle o = elim o [ none ↦ idle | some q ↦ q ]

abbrev one : SubmitQueue
one = or_idle (enqueue idle 5 osm (pos 8) (pos 16) (pos 10))

fresh_five : (ps : List Ptr) → IsQueue idle ps → count 5 ps ≡ 0
unfolding spawn_workers
fresh_five [] i = refl
fresh_five (p ∷ ps) i = absurd (omega (arith, i.counted))

abbrev after_fetch : Fetch → SubmitQueue
after_fetch (got b q) = q
after_fetch _ = idle

abbrev five : BulkRequest
five = request_of (new_item memory 5 osm (pos 8) (pos 16) (pos 10)) 5

abbrev taken : SubmitQueue
taken = finish_workers (after_fetch (fetch one))

Run-IsQueue_example :
    (rs : List Ptr) × IsQueue taken rs
    × (contents idle [] ++ (five ∷ []) ≡ (five ∷ []) ++ contents taken rs)
unfolding spawn_workers enqueue append_item fetch
Run-IsQueue_example = Run-IsQueue [] idle-IsQueue (
    Run.finishes (
      Run.fetches five (Run.enqueues 5 osm (pos 8) (pos 16) (pos 10) Run.start fresh_five refl)
        refl))

-- The workers stop when the queue is empty.
stops : fetch taken ≡ finished
unfolding spawn_workers enqueue append_item fetch finish_workers unlink_head
stops = refl

abbrev answers : List (ℕ × Reply)
answers =
    (10, replied cmd_done 30)
    ∷ (10, lost)
    ∷ (11, replied cmd_done 7)
    ∷ (10, replied cmd_not_done 3)
    ∷ (10, replied cmd_done 20)
    ∷ []

process_all_example :
    get_or (process_all answers (replicate 21 no_speed)) 10 no_speed ≡ speed_of (times 10 answers)
unfolding eq_cmd
process_all_example =
    process_all_lem answers (replicate 21 no_speed) 10 (omega arith) refl (omega arith)
