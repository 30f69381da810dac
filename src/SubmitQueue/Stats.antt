-- ===== src/SubmitQueue/Stats.antt =====
-- src/render_submit_queue.c, `process`: the statistics against the times that they are about.
use mod_tile.Base.{
  ℕ, suc, ◌+◌, ◌<◌, ◌≡◌, refl, ap, ◌∙◌, Bool, true, false, ◌&&◌, List, [], ◌∷◌, length, zero,
  get_or, set, length-set, arith, ◌==◌, ltb, if◌then◌else◌, Bool-cases, inl, inr,
}
use mod_tile.Protocol.{cmd_done, eq_cmd}
use mod_tile.SubmitQueue.{SpeedStat, no_speed, count_rendered, Reply, lost, replied, process}

abbrev pub least : List ℕ → ℕ
least [] = 0
least (x ∷ []) = x
least (x ∷ y ∷ xs) = if ltb x (least (y ∷ xs)) then x else least (y ∷ xs)

abbrev pub greatest : List ℕ → ℕ
greatest [] = 0
greatest (x ∷ xs) = if ltb (greatest xs) x then x else greatest xs

abbrev pub sum : List ℕ → ℕ
sum [] = 0
sum (x ∷ xs) = x + sum xs

-- What the statistics of some times should be
abbrev pub speed_of : List ℕ → SpeedStat
speed_of ts = record {
  time_min = least ts;
  time_max = greatest ts;
  time_total = sum ts;
  no_rendered = length ts;
}

abbrev pub AllPositive : List ℕ → Type 0
AllPositive [] = Unit
AllPositive (t ∷ ts) = (0 < t) × AllPositive ts

least_positive : (t : ℕ) (ts : List ℕ) → AllPositive (t ∷ ts) → 0 < least (t ∷ ts)
least_positive t [] (h, _) = h
least_positive t (u ∷ ts) (h, k) = ground (arith, least_positive u ts k)

count_one :
    (t : ℕ) (ts : List ℕ)
    → AllPositive (t ∷ ts)
    → count_rendered (speed_of ts) t ≡ speed_of (t ∷ ts)
unfolding count_rendered
count_one t [] h = ground arith
count_one t (u ∷ ts) (h, k) = ground (arith, least_positive u ts k)

-- All answers, the last one first, at their zooms
unfoldable pub process_all : List (ℕ × Reply) → List SpeedStat → List SpeedStat
process_all [] stats = stats
process_all ((z, r) ∷ rs) stats = (process z r (process_all rs stats)).1

-- The times of the requests at one zoom that were rendered
abbrev pub times : ℕ → List (ℕ × Reply) → List ℕ
times k [] = []
times k ((z, lost) ∷ rs) = times k rs
times k ((z, replied cmd t) ∷ rs) =
    if (z == k) && eq_cmd cmd cmd_done then t ∷ times k rs else times k rs

get_or-set :
    (xs : List SpeedStat) (i k : ℕ) (v : SpeedStat)
    → k < length xs
    → get_or (set xs i v) k no_speed ≡ (if i == k then v else get_or xs k no_speed)
get_or-set [] i k v h = absurd (omega arith)
get_or-set (x ∷ xs) zero zero v h = refl
get_or-set (x ∷ xs) zero (suc k) v h = ground arith
get_or-set (x ∷ xs) (suc i) zero v h = ground arith
get_or-set (x ∷ xs) (suc i) (suc k) v h = get_or-set xs i k v (omega (arith, h)) ∙ ground arith

length-process_all :
    (rs : List (ℕ × Reply)) (stats : List SpeedStat) → length (process_all rs stats) ≡ length stats
unfolding process_all process
length-process_all [] stats = refl
length-process_all ((z, lost) ∷ rs) stats = length-process_all rs stats
length-process_all ((z, replied cmd t) ∷ rs) stats = ground (
  arith,
  length-process_all rs stats,
  length-set (process_all rs stats) z (count_rendered (get_or (process_all rs stats) z no_speed) t),
)

rest_positive :
    (b : Bool) (t : ℕ) (ts : List ℕ) → AllPositive (if b then t ∷ ts else ts) → AllPositive ts
rest_positive true t ts p = p.1
rest_positive false t ts p = p

module _ (a : List SpeedStat) (z k t : ℕ) where
  abbrev counted : List SpeedStat
  counted = set a z (count_rendered (get_or a z no_speed) t)

  count_at :
      (m : Bool) (ts : List ℕ)
      → (z == k) ≡ m
      → k < length a
      → get_or a k no_speed ≡ speed_of ts
      → AllPositive (if m then t ∷ ts else ts)
      → get_or counted k no_speed ≡ speed_of (if m then t ∷ ts else ts)
  count_at true ts m h e p =
      let same : z ≡ k = ground arith in
      get_or-set a z k _ h
      ∙ rw m
          (ap (λ s. count_rendered s t) (ap (λ i. get_or a i no_speed) same ∙ e) ∙ count_one t ts p)
  count_at false ts m h e p = get_or-set a z k _ h ∙ rw m e

  count_step :
      (b : Bool) (ts : List ℕ)
      → k < length a
      → get_or a k no_speed ≡ speed_of ts
      → AllPositive (if (z == k) && b then t ∷ ts else ts)
      → get_or (if◌then◌else◌ {A = Bool × List SpeedStat} b (true, counted) (true, a)).1 k no_speed
        ≡ speed_of (if (z == k) && b then t ∷ ts else ts)
  count_step true ts h e p = elim (Bool-cases (z == k)) [
    | inl m ↦ rw m (count_at true ts m h e (rw m at p))
    | inr m ↦ rw m (count_at false ts m h e (rw m at p))
  ]
  count_step false ts h e p = elim (Bool-cases (z == k)) [ inl m ↦ rw m e | inr m ↦ rw m e ]

-- For any answers at any zooms, and a zoom of the statistics at which no request that was rendered took
-- less than a millisecond: its least and greatest time, their sum and the number of requests are those
-- of the requests at this zoom that were rendered, whatever came at the other zooms or was not done.
pub process_all_lem :
    (rs : List (ℕ × Reply)) (stats : List SpeedStat) (k : ℕ)
    → k < length stats
    → get_or stats k no_speed ≡ no_speed
    → AllPositive (times k rs)
    → get_or (process_all rs stats) k no_speed ≡ speed_of (times k rs)
unfolding process_all process
process_all_lem [] stats k h e p = e
process_all_lem ((z, lost) ∷ rs) stats k h e p = process_all_lem rs stats k h e p
process_all_lem ((z, replied cmd t) ∷ rs) stats k h e p =
    count_step (process_all rs stats) z k t (eq_cmd cmd cmd_done) (times k rs)
      (omega (arith, length-process_all rs stats))
      (process_all_lem rs stats k h e
        (rest_positive ((z == k) && eq_cmd cmd cmd_done) t (times k rs) p))
      p
