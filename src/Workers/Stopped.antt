-- ===== src/Workers/Stopped.antt =====
-- Close of workerpool.go, and the steps after it.
use fileshare.Prelude.{
  ℕ, ◌≡◌, refl, sym, ap, subst, Bool, true, false, List, [], ◌∷◌, arith, if◌then◌else◌, ℕ_eq,
  List_eq, any, delete_if, contains,
}
use fileshare.Workers.{
  WorkerKey, pool_closed, nobody, start_failed, Start, starting, running, broken, Pool, is_worker,
  is_starting, change_if, close_worker, remove_use, take_out, Turn, refuses, starts, waits, begin,
  set_start, started, drop_ref, arm_timer, release_use, is_idle, fire, close_pool, Event, begins,
  start_ends, gives_up, releases, finds_dead, fires, resets, closes, step, steps,
}

-- Nobody is served.
abbrev pub IsStopped : Pool → Type 0
IsStopped p = (p.stopped ≡ true) × (p.workers ≡ [])

begin-stopped : (k : WorkerKey) (now : ℕ) (p : Pool) → p.stopped ≡ true → (begin k now p).0 ≡ p
unfolding begin
begin-stopped k now p h = ground arith

started-IsStopped :
    (now : ℕ) (k : WorkerKey) (id : ℕ) (s : Start) (p : Pool)
    → IsStopped p
    → IsStopped (started now k id s p)
unfolding started
started-IsStopped now k id starting p (e, n) =
    (e, ap (change_if (is_starting id) (set_start starting)) n)
started-IsStopped now k id (running f) p (e, n) =
    (e, ap (change_if (is_starting id) (set_start (running f))) n)
started-IsStopped now k id (broken pool_closed) p (e, n) = (e, ap (delete_if (is_starting id)) n)
started-IsStopped now k id (broken nobody) p (e, n) = (e, ap (delete_if (is_starting id)) n)
started-IsStopped now k id (broken (start_failed c)) p (e, n) =
    (e, ap (delete_if (is_starting id)) n)

release-IsStopped : (id : ℕ) (p : Pool) → IsStopped p → IsStopped (release_use id p)
unfolding release_use
release-IsStopped id p (e, n) = at (contains p.uses id)
  where
    at :
        (t : Bool)
        → IsStopped (
            if t
            then record p {
              workers = change_if (is_worker id) (λ w. arm_timer (drop_ref w)) p.workers;
              gone = change_if (is_worker id) drop_ref p.gone;
              uses = remove_use id p.uses;
            }
            else p)
    at true = (e, ap (change_if (is_worker id) (λ w. arm_timer (drop_ref w))) n)
    at false = (e, n)

fire-IsStopped : (id : ℕ) (p : Pool) → IsStopped p → IsStopped (fire id p)
unfolding fire
fire-IsStopped id p (e, n) = at (any (is_idle id) p.workers)
  where
    at : (t : Bool) → IsStopped (if t then take_out (is_worker id) close_worker p else p)
    at true = (e, ap (delete_if (is_worker id)) n)
    at false = (e, n)

step-IsStopped : (e : Event) (p : Pool) → IsStopped p → IsStopped (step e p)
unfolding step
step-IsStopped (begins k now) p h = subst IsStopped (sym (begin-stopped k now p h.0)) h
step-IsStopped (start_ends now k id s) p h = started-IsStopped now k id s p h
step-IsStopped (gives_up id) p h = h
step-IsStopped (releases id) p h = release-IsStopped id p h
step-IsStopped (finds_dead id) p h =
    let (e, n) = release-IsStopped id p h in (e, ap (delete_if (is_worker id)) n)
step-IsStopped (fires id) p h = fire-IsStopped id p h
step-IsStopped resets p h = (h.0, refl)
step-IsStopped closes p h = (refl, refl)

steps-IsStopped : (es : List Event) (p : Pool) → IsStopped p → IsStopped (steps es p)
unfolding steps
steps-IsStopped [] p h = h
steps-IsStopped (e ∷ es) p h = steps-IsStopped es (step e p) (step-IsStopped e p h)

abbrev pub is_refused : Turn → Bool
is_refused (refuses e) = true
is_refused (starts id) = false
is_refused (waits id) = false

begin-refused :
    (k : WorkerKey) (now : ℕ) (p : Pool) → p.stopped ≡ true → is_refused (begin k now p).1 ≡ true
unfolding begin
begin-refused k now p h = ground arith

-- Once the pool is closed, whatever steps follow, no worker is in the map, and every acquire is
-- refused without changing the pool.
pub close_pool-steps :
    (es : List Event) (p : Pool) (k : WorkerKey) (now : ℕ)
    → ((steps es (close_pool p)).workers ≡ [])
      × (is_refused (begin k now (steps es (close_pool p))).1 ≡ true)
      × ((begin k now (steps es (close_pool p))).0 ≡ steps es (close_pool p))
unfolding close_pool
close_pool-steps es p k now =
    let h : IsStopped (steps es (close_pool p)) = steps-IsStopped es (close_pool p) (refl, refl) in
    (
      h.1,
      begin-refused k now (steps es (close_pool p)) h.0,
      begin-stopped k now (steps es (close_pool p)) h.0,
    )
