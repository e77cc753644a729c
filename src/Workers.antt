-- ===== src/Workers.antt =====
-- workerpool.go: the workers of people on shares, as the steps that each goroutine takes under the
-- pool's lock. A worker is told apart by a number, as the code tells pointers apart; it is in the
-- pool's map or it is gone from it.
pub mod InUse
pub mod Starts
pub mod Keeps
pub mod Stopped
pub mod Acquire
pub mod Found
pub mod Rounds
mod Tests
use fileshare.Prelude.{
  ℕ, suc, ◌+◌, ◌-◌, ◌≡◌, refl, subst, ◌↔◌, Bool, true, false, ◌&&◌, Option, none, some, List, [],
  ◌∷◌, ◌++◌, arith, ltb, if◌then◌else◌, Comparable, ◌==◌, ℕ_eq, list_eq_iff, List_eq, any,
  delete_if, null, contains, keyed, lookup, Text,
}

pub record WorkerKey : Type 0 where
  pub person : Text
  pub share : Text

unfoldable pub same_worker : WorkerKey → WorkerKey → Bool
same_worker a b = a.person == b.person && a.share == b.share

pub same_worker_iff : (a b : WorkerKey) → (same_worker a b ≡ true) ↔ (a ≡ b)
unfolding same_worker
same_worker_iff a b = (to, λ e. subst (λ c. same_worker a c ≡ true) e (itself a))
  where
    to : same_worker a b ≡ true → a ≡ b
    to h =
        let p : a.person ≡ b.person = (list_eq_iff a.person b.person).0 (ground arith) in
        let s : a.share ≡ b.share = (list_eq_iff a.share b.share).0 (ground arith) in ground arith

    itself : (c : WorkerKey) → same_worker c c ≡ true
    itself c =
        ground (arith, (list_eq_iff c.person c.person).1 refl, (list_eq_iff c.share c.share).1 refl)

instance abbrev pub WorkerKey_eq : Comparable WorkerKey
WorkerKey_eq = record { equal = same_worker; equal_iff = same_worker_iff }

-- `errPoolClosed`, a worker for nobody, and what the launcher answers.
pub data Err : Type 0 where
  pool_closed nobody : Err
  start_failed : ℕ → Err

-- Before a worker's `ready` is closed, and what was set then.
pub data Start : Type 0 where
  starting : Start
  running : ℕ → Start
  broken : Err → Start

-- `closed` says that close was called, or waits for `ready`; `timed` that an idle timer runs.
pub record Worker : Type 0 where
  pub id : ℕ
  pub key : WorkerKey
  pub start : Start
  pub refs : ℕ
  pub timed : Bool
  pub closed : Bool

pub record Failure : Type 0 where
  pub key : WorkerKey
  pub err : Err
  pub until : ℕ

-- The pool; `next` is the number of the next worker, and `uses` has the worker of each acquire that
-- took a reference and has not given it up.
pub record Pool : Type 0 where
  pub hold : ℕ
  pub workers : List Worker
  pub gone : List Worker
  pub failures : List Failure
  pub stopped : Bool
  pub next : ℕ
  pub uses : List ℕ

abbrev pub worker_key : Worker → WorkerKey
worker_key w = w.key

abbrev pub failure_key : Failure → WorkerKey
failure_key f = f.key

abbrev pub is_worker : ℕ → Worker → Bool
is_worker id w = w.id == id

-- A start ends once.
abbrev pub is_starting : ℕ → Worker → Bool
is_starting id w =
    is_worker id w && elim w.start [ starting ↦ true | running f ↦ false | broken e ↦ false ]

-- A change of the workers that a test picks, and those workers.
abbrev pub change_if : (Worker → Bool) → (Worker → Worker) → List Worker → List Worker
change_if q f [] = []
change_if q f (w ∷ ws) = let rest = change_if q f ws in if q w then f w ∷ rest else w ∷ rest

abbrev pub pick : (Worker → Bool) → List Worker → List Worker
pick q [] = []
pick q (w ∷ ws) = let rest = pick q ws in if q w then w ∷ rest else rest

abbrev pub close_worker : Worker → Worker
close_worker w = record w { closed = true; timed = false }

-- One use of a worker less.
abbrev pub remove_use : ℕ → List ℕ → List ℕ
remove_use id [] = []
remove_use id (u ∷ us) = let rest = remove_use id us in if u == id then us else u ∷ rest

-- `delete(p.m, w.key)` where the worker is the one of the map, with what becomes of the worker.
abbrev pub take_out : (Worker → Bool) → (Worker → Worker) → Pool → Pool
take_out q f p = record p {
  workers = delete_if q p.workers;
  gone = change_if q f (pick q p.workers ++ p.gone);
}

-- What a turn of `acquire` under the lock comes to.
pub data Turn : Type 0 where
  refuses : Err → Turn
  starts waits : ℕ → Turn

abbrev pub new_worker : ℕ → WorkerKey → Worker
new_worker id k = record {
  id = id;
  key = k;
  start = starting;
  refs = 1;
  timed = false;
  closed = false;
}

abbrev pub use_worker : Worker → Worker
use_worker w = record w { refs = suc w.refs; timed = false }

abbrev pub enter_at : WorkerKey → Pool → Option Worker → Pool × Turn
enter_at k p none = (
  record p { workers = new_worker p.next k ∷ p.workers; next = suc p.next; uses = p.next ∷ p.uses },
  starts p.next,
)
enter_at k p (some w) = (
  record p { workers = change_if (is_worker w.id) use_worker p.workers; uses = w.id ∷ p.uses },
  waits w.id,
)

-- The map, once no failure is held.
unfoldable pub enter : WorkerKey → Pool → Pool × Turn
unfolding same_worker
enter k p = enter_at k p (lookup worker_key k p.workers)

abbrev pub forget_failure : WorkerKey → Pool → Pool
forget_failure k p = record p { failures = delete_if (keyed failure_key k) p.failures }

abbrev pub begin_at : WorkerKey → ℕ → Pool → Option Failure → Pool × Turn
begin_at k now p none = enter k p
begin_at k now p (some f) =
    if ltb now f.until then (p, refuses f.err) else enter k (forget_failure k p)

-- The first section of a round of `acquire`.
unfoldable pub begin : WorkerKey → ℕ → Pool → Pool × Turn
unfolding enter
begin k now p =
    if null k.person
    then (p, refuses nobody)
    else if p.stopped
    then (p, refuses pool_closed)
    else begin_at k now p (lookup failure_key k p.failures)

abbrev pub hold_failure : ℕ → WorkerKey → Err → Pool → Pool
hold_failure now k pool_closed p = p
hold_failure now k e p = record p {
  failures =
      record { key = k; err = e; until = now + p.hold }
      ∷ delete_if (keyed failure_key k) p.failures;
}

abbrev pub set_start : Start → Worker → Worker
set_start s w = record w { start = s }

-- A start that ended: the worker's own acquire goes on with it, or gives its use up.
unfoldable pub started : ℕ → WorkerKey → ℕ → Start → Pool → Pool
unfolding same_worker
started now k id (broken e) p =
    hold_failure now k e
      (record (take_out (is_starting id) (set_start (broken e)) p) { uses = remove_use id p.uses })
started now k id s p = record p {
  workers = change_if (is_starting id) (set_start s) p.workers;
  gone = change_if (is_starting id) (set_start s) p.gone;
}

abbrev pub drop_ref : Worker → Worker
drop_ref w = record w { refs = w.refs - 1 }

-- The last use is over: the idle timer runs.
abbrev pub arm_timer : Worker → Worker
arm_timer w = if w.refs == 0 then record w { timed = true } else w

-- The first call of a releaser; a further one does nothing.
unfoldable pub release_use : ℕ → Pool → Pool
release_use id p =
    if contains p.uses id
    then record p {
      workers = change_if (is_worker id) (λ w. arm_timer (drop_ref w)) p.workers;
      gone = change_if (is_worker id) drop_ref p.gone;
      uses = remove_use id p.uses;
    }
    else p

abbrev pub is_idle : ℕ → Worker → Bool
is_idle id w = is_worker id w && w.refs == 0

-- An idle timer that goes off, also one that was stopped too late; a worker that is used again is
-- left alone.
unfoldable pub fire : ℕ → Pool → Pool
fire id p = if any (is_idle id) p.workers then take_out (is_worker id) close_worker p else p

-- `forget`
unfoldable pub forget : ℕ → Pool → Pool
forget id p = take_out (is_worker id) close_worker p

-- A use that failed without a release: the worker it waited for is broken.
abbrev pub give_up : ℕ → Pool → Pool
give_up id p = record p { uses = remove_use id p.uses }

-- A worker that does not answer is released and forgotten.
unfoldable pub drop_dead : ℕ → Pool → Pool
unfolding release_use forget
drop_dead id p = forget id (release_use id p)

abbrev pub close_all : List Worker → List Worker
close_all [] = []
close_all (w ∷ ws) = close_worker w ∷ close_all ws

unfoldable pub reset : Pool → Pool
reset p = record p { workers = []; gone = close_all p.workers ++ p.gone; failures = [] }

-- `Close` before its reset.
abbrev pub stop : Pool → Pool
stop p = record p { stopped = true }

unfoldable pub close_pool : Pool → Pool
unfolding reset
close_pool p = reset (stop p)

-- What the goroutines of the front do, in any order.
pub data Event : Type 0 where
  begins : WorkerKey → ℕ → Event
  start_ends : ℕ → WorkerKey → ℕ → Start → Event
  gives_up releases finds_dead fires : ℕ → Event
  resets closes : Event

unfoldable pub step : Event → Pool → Pool
unfolding begin started release_use drop_dead fire reset close_pool
step (begins k now) p = (begin k now p).0
step (start_ends now k id s) p = started now k id s p
step (gives_up id) p = give_up id p
step (releases id) p = release_use id p
step (finds_dead id) p = drop_dead id p
step (fires id) p = fire id p
step resets p = reset p
step closes p = close_pool p

unfoldable pub steps : List Event → Pool → Pool
unfolding step
steps [] p = p
steps (e ∷ es) p = steps es (step e p)
