-- ===== src/Workers/Rounds.antt =====
-- The rounds of acquire: the first, which may wait, and the one after a worker was dropped.
use fileshare.Prelude.{
  ℕ, suc, ◌≡◌, refl, ◌⊎◌, inl, inr, Bool, true, false, Option, none, some, arith, ltb,
  if◌then◌else◌, ℕ_eq, List_eq, null, All, contains, lookup, distinct,
}
use fileshare.Workers.{
  WorkerKey, WorkerKey_eq, Err, pool_closed, nobody, Start, starting, running, broken, Worker,
  Failure, Pool, worker_key, failure_key, is_worker, is_starting, refuses, use_worker, enter_at,
  enter, forget_failure, begin_at, begin, set_start, started, drop_dead,
}
use fileshare.Workers.Acquire.{
  Ended, ran, failed_with, start_ended, Round, Acquired, out_of_rounds, refused, acquired,
  worker_at, start_of, after_wait, wait_for, take_turn, acquire,
}
use fileshare.Workers.Found.{
  Returns, own_start-Returns, OnlyThis, last-Returns, only_this, change-only, drop_dead-lookup,
}

module _ (n : ℕ) (rounds : ℕ → Round) (k : WorkerKey) where
  again : Pool → Pool × Acquired
  again q = acquire (suc n) rounds k q

  waited-Returns :
      (id : ℕ) (e : Ended) (alive : Bool) (p : Pool)
      → All (OnlyThis k id) p.workers
      → contains p.uses id ≡ true
      → Returns (after_wait id e alive p again)
  unfolding again Returns
  waited-Returns id (failed_with e) alive p h u = tt
  waited-Returns id (ran f) true p h u = u
  waited-Returns id (ran f) false p h u =
      last-Returns n rounds k (drop_dead id p) (drop_dead-lookup k id p h)

  wait-Returns :
      (r : Round) (id : ℕ) (s : Start) (p : Pool)
      → All (OnlyThis k id) p.workers
      → contains p.uses id ≡ true
      → Returns (wait_for r k id s p again)
  unfolding Returns started
  wait-Returns r id (running f) p h u = waited-Returns id (ran f) r.alive p h u
  wait-Returns r id (broken e) p h u = tt
  wait-Returns r id starting p h u = settled r.settled
    where
      settled :
          (e : Ended)
          → Returns (after_wait id e r.alive (started r.now k id (start_ended e) p) again)
      settled (failed_with e) = tt
      settled (ran f) =
          waited-Returns id (ran f) r.alive (started r.now k id (running f) p)
            (change-only k id (is_starting id) (set_start (running f)) (λ w. (refl, refl)) p.workers
              h)
            u

  enter_turn :
      (r : Round) (p : Pool)
      → distinct worker_key p.workers ≡ true
      → Returns (take_turn r k (enter k p) again)
  unfolding enter Returns
  enter_turn r p d = at (lookup worker_key k p.workers) refl
    where
      at :
          (o : Option Worker)
          → lookup worker_key k p.workers ≡ o
          → Returns (take_turn r k (enter_at k p o) again)
      at none e = own_start-Returns r k p.next r.own (enter_at k p none).0 (ground arith)
      at (some v) e =
          let q : Pool = (enter_at k p (some v)).0 in
          wait-Returns r v.id (start_of (worker_at v.id q)) q
            (change-only k v.id (is_worker v.id) use_worker (λ w. (refl, refl)) p.workers
              (only_this k p.workers v d e))
            (ground arith)

  first_turn :
      (r : Round) (p : Pool)
      → distinct worker_key p.workers ≡ true
      → Returns (take_turn r k (begin k r.now p) again)
  unfolding begin Returns
  first_turn r p d = tests (null k.person) p.stopped
    where
      held :
          (f : Failure) (t : Bool)
          → Returns
              (take_turn r k (if t then (p, refuses f.err) else enter k (forget_failure k p)) again)
      held f true = tt
      held f false = enter_turn r (forget_failure k p) d

      at : (o : Option Failure) → Returns (take_turn r k (begin_at k r.now p o) again)
      at none = enter_turn r p d
      at (some f) = held f (ltb r.now f.until)

      tests :
          (anon off : Bool)
          → Returns (
              take_turn r k
                (if anon
                  then (p, refuses nobody)
                  else if off
                  then (p, refuses pool_closed)
                  else begin_at k r.now p (lookup failure_key k p.failures))
                again)
      tests true off = tt
      tests false true = tt
      tests false false = at (lookup failure_key k p.failures)

acquire-Returns :
    (n : ℕ) (rounds : ℕ → Round) (k : WorkerKey) (p : Pool)
    → distinct worker_key p.workers ≡ true
    → Returns (acquire (suc (suc n)) rounds k p)
unfolding acquire again
acquire-Returns n rounds k p d = first_turn n rounds k (rounds (suc n)) p d

-- Alone in a pool that has one worker for a person and share, acquire returns within two rounds,
-- however starts end and whether workers answer: with an error, or with a worker whose use is
-- counted.
pub acquire-ends :
    (n : ℕ) (rounds : ℕ → Round) (k : WorkerKey) (p : Pool)
    → distinct worker_key p.workers ≡ true
    → ((e : Err) × ((acquire (suc (suc n)) rounds k p).1 ≡ refused e))
      ⊎ ((id : ℕ) × ((acquire (suc (suc n)) rounds k p).1 ≡ acquired id)
          × (contains (acquire (suc (suc n)) rounds k p).0.uses id ≡ true))
unfolding Returns
acquire-ends n rounds k p d =
    outcome (acquire (suc (suc n)) rounds k p) (acquire-Returns n rounds k p d)
  where
    outcome :
        (r : Pool × Acquired)
        → Returns r
        → ((e : Err) × (r.1 ≡ refused e))
          ⊎ ((id : ℕ) × (r.1 ≡ acquired id) × (contains r.0.uses id ≡ true))
    outcome (q, out_of_rounds) h = absurd h
    outcome (q, refused e) h = inl (e, refl)
    outcome (q, acquired id) h = inr (id, refl, h)
