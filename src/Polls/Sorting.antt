-- ===== src/Polls/Sorting.antt =====
-- check.py: what stays of the requests when they are sorted by time.
use cactus_runner.Prelude.{suc, ◌≤◌, ◌<◌, max, List, [], ◌∷◌, some, ◌≡◌, refl, arith, length}
use cactus_runner.Definitions.{Time}
use cactus_runner.Models.{RequestEntry}
use cactus_runner.Polls.{insert_by_time, sorted_by_time, last_time, requests_in_window}

count-insert :
    (a b : Time) (r : RequestEntry) (rs : List RequestEntry)
    → requests_in_window a b (insert_by_time r rs) ≡ requests_in_window a b (r ∷ rs)
unfolding requests_in_window
count-insert a b r [] = refl
count-insert a b r (s ∷ rs) = ground (arith, count-insert a b r rs)

pub requests_in_window-sorted :
    (a b : Time) (rs : List RequestEntry)
    → requests_in_window a b (sorted_by_time rs) ≡ requests_in_window a b rs
unfolding sorted_by_time requests_in_window
requests_in_window-sorted a b [] = refl
requests_in_window-sorted a b (r ∷ rs) =
    ground (arith, count-insert a b r (sorted_by_time rs), requests_in_window-sorted a b rs)

length-insert :
    (r : RequestEntry) (rs : List RequestEntry) → length (insert_by_time r rs) ≡ suc (length rs)
length-insert r [] = refl
length-insert r (s ∷ rs) = ground (arith, length-insert r rs)

pub length-sorted : (rs : List RequestEntry) → length (sorted_by_time rs) ≡ length rs
unfolding sorted_by_time
length-sorted [] = refl
length-sorted (r ∷ rs) = ground (arith, length-insert r (sorted_by_time rs), length-sorted rs)

IsOrdered : List RequestEntry → Type 0
IsOrdered [] = Unit
IsOrdered (r ∷ []) = Unit
IsOrdered (r ∷ s ∷ rest) = (r.timestamp ≤ s.timestamp) × IsOrdered (s ∷ rest)

insert-IsOrdered :
    (r : RequestEntry) (rs : List RequestEntry) → IsOrdered rs → IsOrdered (insert_by_time r rs)
unfolding IsOrdered
insert-IsOrdered r [] h = tt
insert-IsOrdered r (s ∷ []) h = ground arith
insert-IsOrdered r (s ∷ t ∷ rest) h = ground (arith, insert-IsOrdered r (t ∷ rest))

sorted-IsOrdered : (rs : List RequestEntry) → IsOrdered (sorted_by_time rs)
unfolding sorted_by_time IsOrdered
sorted-IsOrdered [] = tt
sorted-IsOrdered (r ∷ rs) = insert-IsOrdered r (sorted_by_time rs) (sorted-IsOrdered rs)

-- The time of the latest request.
pub latest : List RequestEntry → Time
latest [] = 0
latest (r ∷ rest) = max r.timestamp (latest rest)

last_time-latest :
    (r : RequestEntry) (rest : List RequestEntry)
    → IsOrdered (r ∷ rest)
    → last_time (r ∷ rest) ≡ some (latest (r ∷ rest))
unfolding last_time latest IsOrdered
last_time-latest r [] h = ground arith
last_time-latest r (s ∷ []) h = ground arith
last_time-latest r (s ∷ t ∷ rest) h = ground (arith, last_time-latest s (t ∷ rest))

latest-insert :
    (r : RequestEntry) (rs : List RequestEntry) → latest (insert_by_time r rs) ≡ latest (r ∷ rs)
unfolding latest
latest-insert r [] = refl
latest-insert r (s ∷ rs) = ground (arith, latest-insert r rs)

latest-sorted : (rs : List RequestEntry) → latest (sorted_by_time rs) ≡ latest rs
unfolding sorted_by_time latest
latest-sorted [] = refl
latest-sorted (r ∷ rs) = ground (arith, latest-insert r (sorted_by_time rs), latest-sorted rs)

last_time-of :
    (rs : List RequestEntry) → IsOrdered rs → 0 < length rs → last_time rs ≡ some (latest rs)
last_time-of [] h e = absurd (omega arith)
last_time-of (r ∷ rs) h e = last_time-latest r rs h

pub last_time-sorted :
    (r : RequestEntry) (rs : List RequestEntry)
    → last_time (sorted_by_time (r ∷ rs)) ≡ some (latest (r ∷ rs))
last_time-sorted r rs = grind (
  arith,
  last_time-of (sorted_by_time (r ∷ rs)),
  sorted-IsOrdered (r ∷ rs),
  length-sorted (r ∷ rs),
  latest-sorted (r ∷ rs),
)
