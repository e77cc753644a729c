-- ===== src/Workers/Starts.antt =====
-- The steps of workerpool.go that begin an acquire and end the start of a worker, against IsKept.
use fileshare.Prelude.{
  ℕ, suc, ◌≤◌, ◌<◌, ◌≡◌, refl, ◌⊎◌, inl, inr, Bool, true, false, ◌&&◌, ◌||◌, Option, none, some,
  ◌∷◌, ◌++◌, arith, ltb, if◌then◌else◌, ℕ_eq, List_eq, delete_if, null, All, All-append,
  All-delete_if, All-find, All-imply, keyed, lookup,
}
use fileshare.Workers.{
  WorkerKey, WorkerKey_eq, Err, pool_closed, nobody, start_failed, Start, starting, running, broken,
  Worker, Failure, Pool, worker_key, failure_key, is_worker, is_starting, change_if, pick,
  remove_use, take_out, refuses, use_worker, enter_at, enter, forget_failure, begin_at, begin,
  hold_failure, set_start, started,
}
use fileshare.Workers.InUse.{
  uses_of, IsCounted, is_over, IsKept, All-change, picked, distinct-change, distinct-delete,
  lookup-absent, uses_of-unknown, uses_of-remove, All-remove, All-later,
}

enter-IsKept : (k : WorkerKey) (p : Pool) → IsKept p → IsKept (enter k p).0
unfolding enter
enter-IsKept k p h = at (lookup worker_key k p.workers) refl
  where
    fresh :
        (w : Worker)
        → IsCounted p w
        → (uses_of w.id (p.next ∷ p.uses) ≤ w.refs) × (w.id < suc p.next)
    fresh w (n, l) = (ground arith, omega (arith, l))

    taken :
        (v w : Worker)
        → IsCounted p w
        → is_worker v.id w ≡ true
        → (uses_of w.id (v.id ∷ p.uses) ≤ suc w.refs) × (w.id < p.next)
    taken v w (n, l) e = (ground arith, l)

    left :
        (v w : Worker)
        → IsCounted p w
        → is_worker v.id w ≡ false
        → (uses_of w.id (v.id ∷ p.uses) ≤ w.refs) × (w.id < p.next)
    left v w (n, l) e = (ground arith, l)

    at : (o : Option Worker) → lookup worker_key k p.workers ≡ o → IsKept (enter_at k p o).0
    at none e = (
      ground (arith, lookup-absent k p.workers e, h.0),
      (
        (ground (arith, uses_of-unknown p.uses p.next h.2), omega arith),
        All-imply (IsCounted p) _ p.workers fresh h.1,
      ),
      (omega arith, All-later p.next p.uses h.2),
      h.3,
    )
    at (some v) e = (
      distinct-change (is_worker v.id) use_worker (λ w. refl) p.workers h.0,
      All-change (IsCounted p) _ (is_worker v.id) use_worker (taken v) (left v) p.workers h.1,
      ((All-find (IsCounted p) (keyed worker_key k) p.workers e h.1).0.1, h.2),
      h.3,
    )

pub begin-IsKept : (k : WorkerKey) (now : ℕ) (p : Pool) → IsKept p → IsKept (begin k now p).0
unfolding begin
begin-IsKept k now p h = tests (null k.person) p.stopped
  where
    held :
        (f : Failure) (t : Bool)
        → IsKept (if t then (p, refuses f.err) else enter k (forget_failure k p)).0
    held f true = h
    held f false = enter-IsKept k (forget_failure k p) h

    at : (o : Option Failure) → IsKept (begin_at k now p o).0
    at none = enter-IsKept k p h
    at (some f) = held f (ltb now f.until)

    tests :
        (anon off : Bool)
        → IsKept
            (if anon
              then (p, refuses nobody)
              else if off
              then (p, refuses pool_closed)
              else begin_at k now p (lookup failure_key k p.failures)).0
    tests true off = h
    tests false true = h
    tests false false = at (lookup failure_key k p.failures)

-- Fewer uses count no less.
pub fewer :
    (p : Pool) (id : ℕ) (w : Worker)
    → IsCounted p w
    → (uses_of w.id (remove_use id p.uses) ≤ w.refs) × (w.id < p.next)
fewer p id w (n, l) = (omega (arith, n, uses_of-remove id w.id p.uses), l)

-- What is taken out of the map is over, where its change makes it so.
pub taken_out :
    (p : Pool) (q : Worker → Bool) (f : Worker → Worker)
    → ((w : Worker) → q w ≡ true → is_over (f w) ≡ true)
    → All (λ w. is_over w ≡ true) p.gone
    → All (λ w. is_over w ≡ true) (change_if q f (pick q p.workers ++ p.gone))
taken_out p q f ends h =
    All-change (λ w. (is_over w ≡ true) ⊎ (q w ≡ true)) (λ w. is_over w ≡ true) q f
      (λ w k e. ends w e) (λ w k e. elim k [ inl o ↦ o | inr y ↦ absurd (ground arith) ])
      (pick q p.workers ++ p.gone)
      (All-append (λ w. (is_over w ≡ true) ⊎ (q w ≡ true)) (pick q p.workers) p.gone
        (All-imply (λ w. q w ≡ true) _ (pick q p.workers) (λ w e. inr e) (picked q p.workers))
        (All-imply (λ w. is_over w ≡ true) _ p.gone (λ w o. inl o) h))

ended : (id : ℕ) (e : Err) (w : Worker) → is_over (set_start (broken e) w) ≡ true
ended id e w = ground arith

still_over :
    (id : ℕ) (s : Start) (w : Worker)
    → is_over w ≡ true
    → is_starting id w ≡ true
    → is_over (set_start s w) ≡ true
still_over id s w o e = at w.start o e
  where
    over_at : Start → Bool
    over_at t = w.closed || elim t [ starting ↦ false | running f ↦ false | broken e ↦ true ]

    starting_at : Start → Bool
    starting_at t =
        is_worker id w && elim t [ starting ↦ true | running f ↦ false | broken e ↦ false ]

    at : (t : Start) → over_at t ≡ true → starting_at t ≡ true → over_at s ≡ true
    at starting o e = ground arith
    at (running f) o e = absurd (ground arith)
    at (broken b) o e = absurd (ground arith)

set_start-IsKept :
    (id : ℕ) (s : Start) (p : Pool)
    → IsKept p
    → IsKept (record p {
      workers = change_if (is_starting id) (set_start s) p.workers;
      gone = change_if (is_starting id) (set_start s) p.gone;
    })
set_start-IsKept id s p h = (
  distinct-change (is_starting id) (set_start s) (λ w. refl) p.workers h.0,
  All-change (IsCounted p) _ (is_starting id) (set_start s) (λ w k e. k) (λ w k e. k) p.workers h.1,
  h.2,
  All-change (λ w. is_over w ≡ true) _ (is_starting id) (set_start s)
      (λ w o e. still_over id s w o e) (λ w o e. o) p.gone h.3,
)

pub started-IsKept :
    (now : ℕ) (k : WorkerKey) (id : ℕ) (s : Start) (p : Pool)
    → IsKept p
    → IsKept (started now k id s p)
unfolding started
started-IsKept now k id (broken e) p h = held e ended_pool
  where
    q : Pool
    q = record (take_out (is_starting id) (set_start (broken e)) p) { uses = remove_use id p.uses }

    ended_pool : IsKept q
    ended_pool = (
      distinct-delete (is_starting id) p.workers h.0,
      All-imply (IsCounted p) _ (delete_if (is_starting id) p.workers) (fewer p id)
          (All-delete_if (IsCounted p) (is_starting id) p.workers h.1),
      All-remove p.next id p.uses h.2,
      taken_out p (is_starting id) (set_start (broken e)) (λ w t. ended id e w) h.3,
    )

    held : (f : Err) → IsKept q → IsKept (hold_failure now k f q)
    held pool_closed i = i
    held nobody i = i
    held (start_failed n) i = i
started-IsKept now k id starting p h = set_start-IsKept id starting p h
started-IsKept now k id (running f) p h = set_start-IsKept id (running f) p h
