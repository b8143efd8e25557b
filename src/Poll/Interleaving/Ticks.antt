-- ===== src/Poll/Interleaving/Ticks.antt =====
-- The slots that the ticks under way may still fill, over the list of them.
use hyperscale_job_scheduler.Base.{
  ℕ, suc, ◌+◌, ◌*◌, ◌≤◌, min, List, [], ◌∷◌, ◌++◌, length, ◌≡◌, refl, ap, arith, String,
}
use hyperscale_job_scheduler.Exec.{ok}
use hyperscale_job_scheduler.Constants.{poll_batch_size}
use hyperscale_job_scheduler.Poll.Interleaving.{Phase, waiting, polling, counting}
use hyperscale_job_scheduler.Poll.{Batch}
use hyperscale_job_scheduler.Poll.Capacity.{jobs_in}

-- The slots that a tick may still fill.
abbrev pub open_slots : Phase → ℕ
open_slots (waiting free) = min free poll_batch_size
open_slots (polling now slots ts) = slots
open_slots (counting now slots t r ts) = slots

abbrev pub all_open : List Phase → ℕ
all_open [] = 0
all_open (p ∷ ps) = open_slots p + all_open ps

-- A tick fills at most POLL_BATCH_SIZE slots, and a dequeue gave it no more than it asked for.
abbrev pub IsBounded : Phase → Type 0
IsBounded (counting now slots t r ts) =
    (slots ≤ poll_batch_size) × ((ids : List String) → r ≡ ok ids → length ids ≤ slots)
IsBounded p = open_slots p ≤ poll_batch_size

abbrev pub AllBounded : List Phase → Type 0
AllBounded [] = Unit {0}
AllBounded (p ∷ ps) = IsBounded p × AllBounded ps

pub all_open-append :
    (before : List Phase) (p : Phase) (after : List Phase)
    → all_open (before ++ (p ∷ after)) ≡ open_slots p + all_open (before ++ after)
all_open-append [] p after = refl
all_open-append (x ∷ before) p after = omega (arith, all_open-append before p after)

pub length-middle :
    (before : List Phase) (p : Phase) (after : List Phase)
    → length (before ++ (p ∷ after)) ≡ suc (length (before ++ after))
length-middle [] p after = refl
length-middle (x ∷ before) p after = ap suc (length-middle before p after)

pub IsBounded-open : (p : Phase) → IsBounded p → open_slots p ≤ poll_batch_size
IsBounded-open (waiting free) h = h
IsBounded-open (polling now slots ts) h = h
IsBounded-open (counting now slots t r ts) h = h.0

pub all_open-le : (ps : List Phase) → AllBounded ps → all_open ps ≤ length ps * poll_batch_size
all_open-le [] h = omega arith
all_open-le (p ∷ ps) h = omega (arith, IsBounded-open p h.0, all_open-le ps h.1)

-- A tick in the middle, and those around it.
pub AllBounded-middle :
    (before : List Phase) (p : Phase) (after : List Phase)
    → AllBounded (before ++ (p ∷ after))
    → IsBounded p × AllBounded (before ++ after)
AllBounded-middle [] p after h = h
AllBounded-middle (x ∷ before) p after h =
    let (hp, rest) = AllBounded-middle before p after h.1 in (hp, (h.0, rest))

pub AllBounded-replace :
    (before : List Phase) (p q : Phase) (after : List Phase)
    → IsBounded q
    → AllBounded (before ++ (p ∷ after))
    → AllBounded (before ++ (q ∷ after))
AllBounded-replace [] p q after hq h = (hq, h.1)
AllBounded-replace (x ∷ before) p q after hq h = (h.0, AllBounded-replace before p q after hq h.1)

pub jobs_in-append :
    (before : List Batch) (b : Batch) (after : List Batch)
    → jobs_in (before ++ (b ∷ after)) ≡ length b.job_ids + jobs_in (before ++ after)
jobs_in-append [] b after = refl
jobs_in-append (x ∷ before) b after = omega (arith, jobs_in-append before b after)
