-- ===== src/Workers/Keeps.antt =====
-- Each step of workerpool.go against IsKept, in any order, and the idle timer of a worker in use.
use fileshare.Prelude.{
  ℕ, suc, ◌≤◌, ◌<◌, ◌≡◌, refl, sym, subst, inl, inr, Bool, true, false, List, [], ◌∷◌, arith,
  if◌then◌else◌, Bool-cases, ℕ_eq, List_eq, any, All, All-append, All-delete_if, contains,
  All-imply,
}
use fileshare.Workers.{
  WorkerKey_eq, Worker, Pool, is_worker, change_if, close_worker, remove_use, take_out, drop_ref,
  arm_timer, release_use, is_idle, fire, close_all, reset, stop, Event, begins, start_ends,
  gives_up, releases, finds_dead, fires, resets, closes, step, steps,
}
use fileshare.Workers.InUse.{
  uses_of, IsCounted, is_over, IsKept, All-change, distinct-change, distinct-delete,
  uses_of-removed, All-remove,
}
use fileshare.Workers.Starts.{begin-IsKept, fewer, taken_out, started-IsKept}

take_out-IsKept : (id : ℕ) (p : Pool) → IsKept p → IsKept (take_out (is_worker id) close_worker p)
take_out-IsKept id p h = (
  distinct-delete (is_worker id) p.workers h.0,
  All-delete_if (IsCounted p) (is_worker id) p.workers h.1,
  h.2,
  taken_out p (is_worker id) close_worker (λ w e. refl) h.3,
)

fire-IsKept : (id : ℕ) (p : Pool) → IsKept p → IsKept (fire id p)
unfolding fire
fire-IsKept id p h = at (any (is_idle id) p.workers)
  where
    at : (t : Bool) → IsKept (if t then take_out (is_worker id) close_worker p else p)
    at true = take_out-IsKept id p h
    at false = h

pub arm_timer-same :
    (w : Worker)
    → ((arm_timer w).key ≡ w.key) × ((arm_timer w).refs ≡ w.refs) × ((arm_timer w).id ≡ w.id)
arm_timer-same w = (ground arith, ground arith, ground arith)

release-IsKept : (id : ℕ) (p : Pool) → IsKept p → IsKept (release_use id p)
unfolding release_use
release-IsKept id p h = at (contains p.uses id) refl
  where
    let_go_one :
        contains p.uses id ≡ true
        → (w : Worker) → IsCounted p w
        → is_worker id w ≡ true
        → (uses_of (arm_timer (drop_ref w)).id (remove_use id p.uses)
            ≤ (arm_timer (drop_ref w)).refs)
          × ((arm_timer (drop_ref w)).id < p.next)
    let_go_one e w (n, l) t =
        let (k, r, i) = arm_timer-same (drop_ref w) in
        let same : w.id ≡ id = ground arith in
        let one : uses_of w.id p.uses ≡ suc (uses_of w.id (remove_use id p.uses)) =
          subst (λ j. uses_of j p.uses ≡ suc (uses_of j (remove_use id p.uses))) (sym same)
            (uses_of-removed id p.uses e) in
        rw (r, i) (omega (arith, n, one), l)

    at :
        (t : Bool)
        → contains p.uses id ≡ t
        → IsKept (
            if t
            then record p {
              workers = change_if (is_worker id) (λ w. arm_timer (drop_ref w)) p.workers;
              gone = change_if (is_worker id) drop_ref p.gone;
              uses = remove_use id p.uses;
            }
            else p)
    at false e = h
    at true e = (
      distinct-change (is_worker id) (λ w. arm_timer (drop_ref w))
          (λ w. (arm_timer-same (drop_ref w)).0) p.workers h.0,
      All-change (IsCounted p) _ (is_worker id) (λ w. arm_timer (drop_ref w)) (let_go_one e)
          (λ w k t. fewer p id w k) p.workers h.1,
      All-remove p.next id p.uses h.2,
      All-change (λ w. is_over w ≡ true) _ (is_worker id) drop_ref (λ w o t. o) (λ w o t. o) p.gone
          h.3,
    )

close_all-over : (ws : List Worker) → All (λ w. is_over w ≡ true) (close_all ws)
close_all-over [] = tt
close_all-over (w ∷ ws) = (refl, close_all-over ws)

reset-IsKept : (p : Pool) → IsKept p → IsKept (reset p)
unfolding reset
reset-IsKept p h =
    (refl, tt, h.2, All-append _ (close_all p.workers) p.gone (close_all-over p.workers) h.3)

step-IsKept : (e : Event) (p : Pool) → IsKept p → IsKept (step e p)
unfolding step
step-IsKept (begins k now) p h = begin-IsKept k now p h
step-IsKept (start_ends now k id s) p h = started-IsKept now k id s p h
step-IsKept (gives_up id) p h = (
  h.0,
  All-imply (IsCounted p) _ p.workers (fewer p id) h.1,
  All-remove p.next id p.uses h.2,
  h.3,
)
step-IsKept (releases id) p h = release-IsKept id p h
step-IsKept (finds_dead id) p h = take_out-IsKept id (release_use id p) (release-IsKept id p h)
step-IsKept (fires id) p h = fire-IsKept id p h
step-IsKept resets p h = reset-IsKept p h
step-IsKept closes p h = reset-IsKept (stop p) h

-- In whatever order acquires begin and end, workers start, fail and die, uses are released, timers
-- go off and the pool is reset and closed: the map has one worker for a person and share, with at
-- least as many references as there are uses of it, and a worker that is out of the map is closed or
-- never ran.
pub steps-IsKept : (es : List Event) (p : Pool) → IsKept p → IsKept (steps es p)
unfolding steps
steps-IsKept [] p h = h
steps-IsKept (e ∷ es) p h = steps-IsKept es (step e p) (step-IsKept e p h)

used-busy :
    (id : ℕ) (p : Pool) (ws : List Worker)
    → contains p.uses id ≡ true
    → All (IsCounted p) ws
    → any (is_idle id) ws ≡ false
used-busy id p [] u h = refl
used-busy id p (w ∷ ws) u h = elim (Bool-cases (is_worker id w)) [
  | inr e ↦ ground (arith, used-busy id p ws u h.1)
  | inl e ↦
      let same : w.id ≡ id = ground arith in
      let one : uses_of w.id p.uses ≡ suc (uses_of w.id (remove_use id p.uses)) =
        subst (λ j. uses_of j p.uses ≡ suc (uses_of j (remove_use id p.uses))) (sym same)
          (uses_of-removed id p.uses u) in
      ground (arith, one, h.0.0, used-busy id p ws u h.1)
]

-- After any steps, an idle timer that goes off for a worker that somebody uses, who got it from
-- acquire or waits for it there and has not released it, changes nothing.
pub steps-fire_used :
    (es : List Event) (p : Pool) (id : ℕ)
    → IsKept p
    → contains (steps es p).uses id ≡ true
    → fire id (steps es p) ≡ steps es p
unfolding fire
steps-fire_used es p id h u =
    rw (used-busy id (steps es p) (steps es p).workers u (steps-IsKept es p h).1) refl
