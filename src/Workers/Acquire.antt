-- ===== src/Workers/Acquire.antt =====
-- workerpool.go: the loop of acquire, alone in the pool, on fuel, its rounds.
use fileshare.Prelude.{
  ℕ, zero, suc, Bool, true, false, Option, none, some, ℕ_eq, List_eq, find_first,
}
use fileshare.Workers.{
  WorkerKey, WorkerKey_eq, Err, Start, starting, running, broken, Worker, Pool, is_worker, Turn,
  refuses, starts, waits, begin, started, give_up, drop_dead,
}

-- How a start ends.
pub data Ended : Type 0 where
  ran : ℕ → Ended
  failed_with : Err → Ended

abbrev pub start_ended : Ended → Start
start_ended (ran f) = running f
start_ended (failed_with e) = broken e

-- What a round of acquire meets: the time, how its own start ends, how a start that it waits for
-- ends, and whether a worker answers.
pub record Round : Type 0 where
  pub now : ℕ
  pub own : Ended
  pub settled : Ended
  pub alive : Bool

pub data Acquired : Type 0 where
  out_of_rounds : Acquired
  refused : Err → Acquired
  acquired : ℕ → Acquired

-- The worker with this number, in the map or gone.
abbrev pub worker_at : ℕ → Pool → Option Worker
worker_at id p = elim (find_first (is_worker id) p.workers) [
  | some w ↦ some w
  | none ↦ find_first (is_worker id) p.gone
]

abbrev pub start_of : Option Worker → Start
start_of none = starting
start_of (some w) = w.start

-- The end of the acquire that starts a worker.
abbrev pub own_start : Round → WorkerKey → ℕ → Ended → Pool → Pool × Acquired
own_start r k id (ran f) p = (started r.now k id (running f) p, acquired id)
own_start r k id (failed_with e) p = (started r.now k id (broken e) p, refused e)

-- What an acquire that waited does, with what it would do in another round.
abbrev pub after_wait : ℕ → Ended → Bool → Pool → (Pool → Pool × Acquired) → Pool × Acquired
after_wait id (failed_with e) alive p again = (give_up id p, refused e)
after_wait id (ran f) true p again = (p, acquired id)
after_wait id (ran f) false p again = again (drop_dead id p)

-- `<-w.ready`: the start that is waited for ends, unless it has.
abbrev pub wait_for :
    Round → WorkerKey → ℕ → Start → Pool → (Pool → Pool × Acquired) → Pool × Acquired
wait_for r k id starting p again =
    after_wait id r.settled r.alive (started r.now k id (start_ended r.settled) p) again
wait_for r k id (running f) p again = after_wait id (ran f) r.alive p again
wait_for r k id (broken e) p again = after_wait id (failed_with e) r.alive p again

abbrev pub take_turn : Round → WorkerKey → Pool × Turn → (Pool → Pool × Acquired) → Pool × Acquired
take_turn r k (p, refuses e) again = (p, refused e)
take_turn r k (p, starts id) again = own_start r k id r.own p
take_turn r k (p, waits id) again = wait_for r k id (start_of (worker_at id p)) p again

-- `acquire`, for so many rounds, each of which meets what it meets.
unfoldable pub acquire : ℕ → (ℕ → Round) → WorkerKey → Pool → Pool × Acquired
unfolding begin started drop_dead
acquire zero rounds k p = (p, out_of_rounds)
acquire (suc n) rounds k p =
    take_turn (rounds n) k (begin k (rounds n).now p) (λ q. acquire n rounds k q)
