-- ===== src/Workers/InUse.antt =====
-- What is kept of the pool, and the lemmas on its lists: of workers, and of the uses of each.
use fileshare.Prelude.{
  All-imply, ℕ, suc, ◌≤◌, ◌<◌, ◌≡◌, refl, Bool, true, false, ◌||◌, none, List, [], ◌∷◌, arith,
  if◌then◌else◌, ◌==◌, ℕ_eq, List_eq, any, delete_if, All, contains, keyed, lookup, distinct,
}
use fileshare.Workers.{
  WorkerKey, WorkerKey_eq, starting, running, broken, Worker, Pool, worker_key, change_if, pick,
  remove_use,
}

abbrev pub uses_of : ℕ → List ℕ → ℕ
uses_of id [] = 0
uses_of id (u ∷ us) = let rest = uses_of id us in if u == id then suc rest else rest

abbrev pub IsCounted : Pool → Worker → Type 0
IsCounted p w = (uses_of w.id p.uses ≤ w.refs) × (w.id < p.next)

-- A worker outside the map is closed, or never ran.
abbrev pub is_over : Worker → Bool
is_over w = w.closed || elim w.start [ starting ↦ false | running f ↦ false | broken e ↦ true ]

-- One worker for a person and share, at least as many references to each as there are uses of it,
-- numbers that were given out, and nothing left open outside the map.
abbrev pub IsKept : Pool → Type 0
IsKept p =
    (distinct worker_key p.workers ≡ true)
    × All (IsCounted p) p.workers
    × All (λ u. u < p.next) p.uses
    × All (λ w. is_over w ≡ true) p.gone

module _ (P Q : Worker → Type 0) (q : Worker → Bool) (f : Worker → Worker) where
  pub All-change :
      ((w : Worker) → P w → q w ≡ true → Q (f w))
      → ((w : Worker) → P w → q w ≡ false → Q w)
      → (ws : List Worker) → All P ws
      → All Q (change_if q f ws)
  All-change moved stays [] h = tt
  All-change moved stays (w ∷ ws) h = at (q w) refl (All-change moved stays ws h.1)
    where
      at :
          (t : Bool)
          → q w ≡ t
          → All Q (change_if q f ws)
          → All Q (if t then f w ∷ change_if q f ws else w ∷ change_if q f ws)
      at true e rest = (moved w h.0 e, rest)
      at false e rest = (stays w h.0 e, rest)

pub All-pick :
    (P : Worker → Type 0) (q : Worker → Bool) (ws : List Worker) → All P ws → All P (pick q ws)
All-pick P q [] h = tt
All-pick P q (w ∷ ws) h = at (q w) (All-pick P q ws h.1)
  where
    at : (t : Bool) → All P (pick q ws) → All P (if t then w ∷ pick q ws else pick q ws)
    at true rest = (h.0, rest)
    at false rest = rest

pub picked : (q : Worker → Bool) (ws : List Worker) → All (λ w. q w ≡ true) (pick q ws)
picked q [] = tt
picked q (w ∷ ws) = at (q w) refl (picked q ws)
  where
    at :
        (t : Bool)
        → q w ≡ t
        → All (λ w. q w ≡ true) (pick q ws)
        → All (λ w. q w ≡ true) (if t then w ∷ pick q ws else pick q ws)
    at true e rest = (e, rest)
    at false e rest = rest

pub any-change :
    (k : WorkerKey) (q : Worker → Bool) (f : Worker → Worker)
    → ((w : Worker) → (f w).key ≡ w.key)
    → (ws : List Worker) → any (keyed worker_key k) (change_if q f ws) ≡ any (keyed worker_key k) ws
any-change k q f same [] = refl
any-change k q f same (w ∷ ws) = ground (arith, same w, any-change k q f same ws)

pub distinct-change :
    (q : Worker → Bool) (f : Worker → Worker)
    → ((w : Worker) → (f w).key ≡ w.key)
    → (ws : List Worker) → distinct worker_key ws ≡ true
    → distinct worker_key (change_if q f ws) ≡ true
distinct-change q f same [] h = refl
distinct-change q f same (w ∷ ws) h = at (q w) (distinct-change q f same ws (ground arith))
  where
    at :
        (t : Bool)
        → distinct worker_key (change_if q f ws) ≡ true
        → distinct worker_key (if t then f w ∷ change_if q f ws else w ∷ change_if q f ws) ≡ true
    at true d = ground (arith, same w, any-change w.key q f same ws, d)
    at false d = ground (arith, any-change w.key q f same ws, d)

pub any-delete :
    (k : WorkerKey) (q : Worker → Bool) (ws : List Worker)
    → any (keyed worker_key k) ws ≡ false
    → any (keyed worker_key k) (delete_if q ws) ≡ false
any-delete k q [] h = refl
any-delete k q (w ∷ ws) h = ground (arith, any-delete k q ws)

pub distinct-delete :
    (q : Worker → Bool) (ws : List Worker)
    → distinct worker_key ws ≡ true
    → distinct worker_key (delete_if q ws) ≡ true
distinct-delete q [] h = refl
distinct-delete q (w ∷ ws) h = ground (arith, distinct-delete q ws, any-delete w.key q ws)

pub lookup-absent :
    (k : WorkerKey) (ws : List Worker)
    → lookup worker_key k ws ≡ none
    → any (keyed worker_key k) ws ≡ false
lookup-absent k [] h = refl
lookup-absent k (w ∷ ws) h = ground (arith, lookup-absent k ws)

-- Numbers that are not yet given out are not used.
pub uses_of-unknown : (us : List ℕ) (n : ℕ) → All (λ u. u < n) us → uses_of n us ≡ 0
uses_of-unknown [] n h = refl
uses_of-unknown (u ∷ us) n h = ground (arith, uses_of-unknown us n h.1)

pub uses_of-remove : (id i : ℕ) (us : List ℕ) → uses_of i (remove_use id us) ≤ uses_of i us
uses_of-remove id i [] = omega arith
uses_of-remove id i (u ∷ us) = ground (arith, uses_of-remove id i us)

-- One use less of a worker that is used.
pub uses_of-removed :
    (id : ℕ) (us : List ℕ)
    → contains us id ≡ true
    → uses_of id us ≡ suc (uses_of id (remove_use id us))
uses_of-removed id [] h = absurd (ground arith)
uses_of-removed id (u ∷ us) h = ground (arith, uses_of-removed id us)

pub All-remove :
    (n id : ℕ) (us : List ℕ) → All (λ u. u < n) us → All (λ u. u < n) (remove_use id us)
All-remove n id [] h = tt
All-remove n id (u ∷ us) h = at (u == id) (All-remove n id us h.1)
  where
    at :
        (t : Bool)
        → All (λ u. u < n) (remove_use id us)
        → All (λ u. u < n) (if t then us else u ∷ remove_use id us)
    at true rest = h.1
    at false rest = (h.0, rest)

pub All-later : (n : ℕ) (us : List ℕ) → All (λ u. u < n) us → All (λ u. u < suc n) us
All-later n us h = All-imply (λ u. u < n) (λ u. u < suc n) us (λ u l. omega (arith, l)) h
