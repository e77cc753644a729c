-- ===== src/Generations/Onward.antt =====
-- That no step of any goroutine takes a connection back on its way to its removal (generation.go).
use fileshare.Prelude.{
  ℕ, suc, ◌≡◌, refl, inl, inr, Bool, true, false, ◌&&◌, ◌||◌, Option, none, some, [], ◌∷◌, ◌++◌,
  map, arith, if◌then◌else◌, Bool-cases, ◌==◌, ℕ_eq, List_eq, all, nth, All-nth,
}
use fileshare.Generations.{
  Conn, Feed, received, is_refused, is_given, shut_conn, shut, is_removed, is_left, serve_returns,
  stop_returns, start_next, Event, receives, shuts, returns, starts, counts, enters, server_closes,
  closes, uncounts, removes, at_conn, step,
}
use fileshare.Generations.Tracked.{rank}
use fileshare.Generations.Keeps.{IsKept}
use fileshare.Generations.Kept.{stop_returns-removed}
use fileshare.Generations.Drained.{
  IsAt, nth-append, nth-map, count_phase-IsAt, enter_phase-IsAt, close_conn-IsAt,
  uncount_phase-IsAt, remove_phase-IsAt,
}

if-IsAt :
    {i r : ℕ} (b : Bool) (f g : Feed)
    → (b ≡ true → IsAt f i r)
    → (b ≡ false → IsAt g i r)
    → IsAt (if b then f else g) i r
if-IsAt true f g h k = h refl
if-IsAt false f g h k = k refl

shut_conn-rank : (g : ℕ) (c : Conn) → rank (shut_conn g c) ≡ rank c
unfolding shut_conn rank
shut_conn-rank g c = elim (Bool-cases (c.generation == g && c.tracked)) [
  | inl e ↦ rw e refl
  | inr e ↦ rw e refl
]

shut_conn-same :
    (g : ℕ) (c : Conn)
    → ((shut_conn g c).generation ≡ c.generation) × ((shut_conn g c).closing ≡ c.closing)
unfolding shut_conn
shut_conn-same g c = elim (Bool-cases (c.generation == g && c.tracked)) [
  | inl e ↦ rw e (refl, refl)
  | inr e ↦ rw e (refl, refl)
]

module _ {f : Feed} {i r : ℕ} (a : IsAt f i r) where
  at_conn-IsAt :
      (j : ℕ) (go : Conn → Feed)
      → ((c : Conn) → nth f.conns j ≡ some c → IsAt (go c) i r)
      → IsAt (at_conn j f go) i r
  at_conn-IsAt j go h = at (nth f.conns j) h
    where
      at :
          (o : Option Conn)
          → ((c : Conn) → o ≡ some c → IsAt (go c) i r)
          → IsAt (elim o [ none ↦ f | some c ↦ go c ]) i r
      at none h = a
      at (some c) h = h c refl

  shut-IsAt : IsAt (shut f) i r
  unfolding shut
  shut-IsAt =
      if-IsAt f.stopped f (record f { stopped = true; conns = map (shut_conn f.current) f.conns })
        (λ e. a)
        λ e.
          let (g, x) = shut_conn-same f.current a.conn in
          record {
            conn = shut_conn f.current a.conn;
            found = nth-map (shut_conn f.current) f.conns i a.found;
            far = omega (arith, a.far, shut_conn-rank f.current a.conn);
            ending = rw x (rw g (ground (arith, a.ending)));
          }

  returns-IsAt : IsAt (serve_returns f) i r
  unfolding serve_returns
  returns-IsAt =
      if-IsAt (all is_left f.conns) (record f { returned = true }) f
        (λ e. record { conn = a.conn; found = a.found; far = a.far; ending = a.ending }) (λ e. a)

  starts-IsAt : IsKept f → IsAt (start_next f) i r
  unfolding start_next
  starts-IsAt k =
      if-IsAt (stop_returns f)
        (record f { current = suc f.current; stopped = false; returned = false }) f
        (λ e.
          let gone =
            All-nth (λ c. is_removed c.closing ≡ true) f.conns i a.found
              (stop_returns-removed f k e) in
          record { conn = a.conn; found = a.found; far = a.far; ending = ground arith })
        (λ e. a)

  receives-IsAt :
      IsAt (if f.returned then f else record f { conns = f.conns ++ (received f.current ∷ []) }) i r
  receives-IsAt =
      if-IsAt f.returned f (record f { conns = f.conns ++ (received f.current ∷ []) }) (λ e. a)
        λ e. record {
          conn = a.conn;
          found = nth-append f.conns (received f.current ∷ []) i a.found;
          far = a.far;
          ending = a.ending;
        }

  pub step-IsAt : (e : Event) → IsKept f → IsAt (step e f) i r
  unfolding step
  step-IsAt receives k = receives-IsAt
  step-IsAt shuts k = shut-IsAt
  step-IsAt returns k = returns-IsAt
  step-IsAt starts k = starts-IsAt k
  step-IsAt (counts j) k = at_conn-IsAt j _ (λ c at. count_phase-IsAt a j c c.phase at refl)
  step-IsAt (enters j) k = at_conn-IsAt j _ (λ c at. enter_phase-IsAt a j c c.phase at refl)
  step-IsAt (server_closes j) k =
      at_conn-IsAt j _ (λ c at. close_conn-IsAt a j c (is_given c.phase) c.closing at refl)
  step-IsAt (closes j) k =
      at_conn-IsAt j _
        (λ c at. close_conn-IsAt a j c (is_refused c.phase || c.to_close) c.closing at refl)
  step-IsAt (uncounts j) k = at_conn-IsAt j _ (λ c at. uncount_phase-IsAt a j c c.closing at refl)
  step-IsAt (removes j) k = at_conn-IsAt j _ (λ c at. remove_phase-IsAt a j c c.closing at refl)
