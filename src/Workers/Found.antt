-- ===== src/Workers/Found.antt =====
-- Of the rounds of acquire: the worker that a round finds, its removal, and the round that follows.
use fileshare.Prelude.{
  ℕ, suc, ◌≡◌, refl, sym, subst, ◌⊎◌, inl, inr, Bool, true, false, Option, none, some, List, [],
  ◌∷◌, arith, ltb, if◌then◌else◌, Bool-cases, ◌==◌, nat_eq_iff, ℕ_eq, List_eq, any, delete_if, null,
  All, contains, keyed, lookup, distinct,
}
use fileshare.Workers.{
  WorkerKey, same_worker_iff, WorkerKey_eq, pool_closed, nobody, Worker, Failure, Pool, worker_key,
  failure_key, is_worker, change_if, remove_use, Turn, refuses, starts, waits, enter_at, enter,
  forget_failure, begin_at, begin, started, drop_ref, arm_timer, release_use, drop_dead,
}
use fileshare.Workers.InUse.{All-change}
use fileshare.Workers.Keeps.{arm_timer-same}
use fileshare.Workers.Acquire.{
  Ended, ran, failed_with, Round, Acquired, out_of_rounds, refused, acquired, own_start, take_turn,
  acquire,
}

-- It returned, with a worker only if the use of it is counted.
unfoldable pub Returns : Pool × Acquired → Type 0
Returns (p, out_of_rounds) = ⊥
Returns (p, refused e) = Unit
Returns (p, acquired id) = contains p.uses id ≡ true

-- The turns that do not wait.
IsEntry : Pool × Turn → Type 0
IsEntry (p, refuses e) = Unit
IsEntry (p, starts id) = contains p.uses id ≡ true
IsEntry (p, waits id) = ⊥

pub own_start-Returns :
    (r : Round) (k : WorkerKey) (id : ℕ) (e : Ended) (p : Pool)
    → contains p.uses id ≡ true
    → Returns (own_start r k id e p)
unfolding Returns started
own_start-Returns r k id (ran f) p h = h
own_start-Returns r k id (failed_with e) p h = tt

entry-Returns :
    (r : Round) (k : WorkerKey) (t : Pool × Turn) (again : Pool → Pool × Acquired)
    → IsEntry t
    → Returns (take_turn r k t again)
unfolding Returns IsEntry
entry-Returns r k (p, refuses e) again h = tt
entry-Returns r k (p, starts id) again h = own_start-Returns r k id r.own p h
entry-Returns r k (p, waits id) again h = absurd h

-- The workers of a person on a share are all this one.
pub OnlyThis : WorkerKey → ℕ → Worker → Type 0
OnlyThis k id w = (keyed worker_key k w ≡ false) ⊎ (is_worker id w ≡ true)

-- Where nobody has a worker for a key, a round does not wait.
enter-IsEntry :
    (k : WorkerKey) (p : Pool) → lookup worker_key k p.workers ≡ none → IsEntry (enter k p)
unfolding enter IsEntry
enter-IsEntry k p h = at (lookup worker_key k p.workers) h
  where
    at : (o : Option Worker) → o ≡ none → IsEntry (enter_at k p o)
    at none e = ground arith
    at (some w) e = absurd (ground arith)

begin-IsEntry :
    (k : WorkerKey) (now : ℕ) (p : Pool)
    → lookup worker_key k p.workers ≡ none
    → IsEntry (begin k now p)
unfolding begin IsEntry
begin-IsEntry k now p h = tests (null k.person) p.stopped
  where
    held :
        (f : Failure) (t : Bool)
        → IsEntry (if t then (p, refuses f.err) else enter k (forget_failure k p))
    held f true = tt
    held f false = enter-IsEntry k (forget_failure k p) h

    at : (o : Option Failure) → IsEntry (begin_at k now p o)
    at none = enter-IsEntry k p h
    at (some f) = held f (ltb now f.until)

    tests :
        (anon off : Bool)
        → IsEntry (
            if anon
            then (p, refuses nobody)
            else if off
            then (p, refuses pool_closed)
            else begin_at k now p (lookup failure_key k p.failures))
    tests true off = tt
    tests false true = tt
    tests false false = at (lookup failure_key k p.failures)

-- The round after a worker was dropped returns.
pub last-Returns :
    (n : ℕ) (rounds : ℕ → Round) (k : WorkerKey) (p : Pool)
    → lookup worker_key k p.workers ≡ none
    → Returns (acquire (suc n) rounds k p)
unfolding acquire
last-Returns n rounds k p h =
    entry-Returns (rounds n) k (begin k (rounds n).now p) (λ q. acquire n rounds k q)
      (begin-IsEntry k (rounds n).now p h)

-- The worker that is found is the only one of its key.
pub only_this :
    (k : WorkerKey) (ws : List Worker) (v : Worker)
    → distinct worker_key ws ≡ true
    → lookup worker_key k ws ≡ some v
    → All (OnlyThis k v.id) ws
unfolding OnlyThis
only_this k [] v d e = tt
only_this k (w ∷ ws) v d e = elim (Bool-cases (keyed worker_key k w)) [
  | inr n ↦ (inl n, only_this k ws v (ground arith) (ground arith))
  | inl y ↦
      let same : w.key ≡ k = (same_worker_iff w.key k).0 y in
      let none_else : any (keyed worker_key k) ws ≡ false =
        subst (λ j. any (keyed worker_key j) ws ≡ false) same (ground arith) in
      let found : w ≡ v = ground arith in
      (
        inr (subst (λ u. is_worker u.id w ≡ true) found ((nat_eq_iff w.id w.id).1 refl)),
        others ws none_else,
      )
]
  where
    others : (us : List Worker) → any (keyed worker_key k) us ≡ false → All (OnlyThis k v.id) us
    others [] h = tt
    others (u ∷ us) h = (inl (ground arith), others us (ground arith))

pub change-only :
    (k : WorkerKey) (id : ℕ) (q : Worker → Bool) (f : Worker → Worker)
    → ((w : Worker) → ((f w).key ≡ w.key) × ((f w).id ≡ w.id))
    → (ws : List Worker) → All (OnlyThis k id) ws
    → All (OnlyThis k id) (change_if q f ws)
unfolding OnlyThis
change-only k id q f same =
    All-change (OnlyThis k id) (OnlyThis k id) q f (λ w o e. moved w o (same w)) (λ w o e. o)
  where
    moved :
        (w : Worker)
        → OnlyThis k id w
        → ((f w).key ≡ w.key) × ((f w).id ≡ w.id)
        → OnlyThis k id (f w)
    moved w (inl n) (a, b) = inl (subst (λ j. (j == k) ≡ false) (sym a) n)
    moved w (inr y) (a, b) = inr (subst (λ j. (j == id) ≡ true) (sym b) y)

delete-only :
    (k : WorkerKey) (id : ℕ) (ws : List Worker)
    → All (OnlyThis k id) ws
    → lookup worker_key k (delete_if (is_worker id) ws) ≡ none
unfolding OnlyThis
delete-only k id [] h = refl
delete-only k id (w ∷ ws) (inl n, h) = ground (arith, delete-only k id ws h)
delete-only k id (w ∷ ws) (inr y, h) = ground (arith, delete-only k id ws h)

pub drop_dead-lookup :
    (k : WorkerKey) (id : ℕ) (p : Pool)
    → All (OnlyThis k id) p.workers
    → lookup worker_key k (drop_dead id p).workers ≡ none
unfolding drop_dead
drop_dead-lookup k id p h =
    delete-only k id (release_use id p).workers (released (contains p.uses id))
  where
    released :
        (t : Bool)
        → All
            (OnlyThis k id)
            (if t
              then record p {
                workers = change_if (is_worker id) (λ w. arm_timer (drop_ref w)) p.workers;
                gone = change_if (is_worker id) drop_ref p.gone;
                uses = remove_use id p.uses;
              }
              else p).workers
    released true =
        change-only k id (is_worker id) (λ w. arm_timer (drop_ref w))
          (λ w. let (a, r, b) = arm_timer-same (drop_ref w) in (a, b)) p.workers h
    released false = h
