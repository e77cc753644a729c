-- ===== src/Workers/Tests.antt =====
-- The pool on one person's worker.
use fileshare.Prelude.{
  ℕ, ◌≡◌, refl, ◌⊎◌, true, false, List, [], ◌∷◌, ℕ_eq, List_eq, length, contains, bytes,
}
use fileshare.Workers.{
  WorkerKey, Err, running, Pool, fire, Event, begins, start_ends, releases, fires, steps,
}
use fileshare.Workers.InUse.{IsKept}
use fileshare.Workers.Keeps.{steps-IsKept, steps-fire_used}
use fileshare.Workers.Acquire.{ran, Round, out_of_rounds, refused, acquired, acquire}
use fileshare.Workers.Rounds.{acquire-ends}

abbrev alice : WorkerKey
alice = record { person = bytes "alice"; share = bytes "media" }

abbrev empty_pool : Pool
empty_pool = record {
  hold = 5;
  workers = [];
  gone = [];
  failures = [];
  stopped = false;
  next = 0;
  uses = [];
}

empty_pool-IsKept : IsKept empty_pool
empty_pool-IsKept = (refl, tt, tt, tt)

-- A second use while the first lasts; the timer that ran out late is of no effect.
abbrev busy : List Event
busy =
    begins alice 0 ∷ start_ends 0 alice 0 (running 7) ∷ releases 0 ∷ begins alice 1 ∷ fires 0 ∷ []

still_used : contains (steps busy empty_pool).uses 0 ≡ true
unfolding steps
still_used = refl

kept_open : length (steps busy empty_pool).workers ≡ 1
unfolding steps
kept_open = refl

closed_idle : length (steps (releases 0 ∷ fires 0 ∷ []) (steps busy empty_pool)).workers ≡ 0
unfolding steps
closed_idle = refl

steps-IsKept_example : IsKept (steps busy empty_pool)
steps-IsKept_example = steps-IsKept busy empty_pool empty_pool-IsKept

steps-fire_used_example : fire 0 (steps busy empty_pool) ≡ steps busy empty_pool
steps-fire_used_example = steps-fire_used busy empty_pool 0 empty_pool-IsKept still_used

-- A worker that does not answer, and another that is started in its place.
abbrev dead_pool : Pool
dead_pool = record empty_pool {
  workers =
      record { id = 0; key = alice; start = running 7; refs = 0; timed = true; closed = false }
      ∷ [];
  next = 1;
}

abbrev rounds : ℕ → Round
rounds n = record { now = 0; own = ran 8; settled = ran 8; alive = false }

acquire_again : (acquire 2 rounds alice dead_pool).1 ≡ acquired 1
unfolding acquire
acquire_again = refl

acquire_once : (acquire 1 rounds alice dead_pool).1 ≡ out_of_rounds
unfolding acquire
acquire_once = refl

acquire-ends_example :
    ((e : Err) × ((acquire 2 rounds alice dead_pool).1 ≡ refused e))
    ⊎ ((id : ℕ) × ((acquire 2 rounds alice dead_pool).1 ≡ acquired id)
        × (contains (acquire 2 rounds alice dead_pool).0.uses id ≡ true))
acquire-ends_example = acquire-ends 0 rounds alice dead_pool refl
