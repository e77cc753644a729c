-- ===== src/Generations/Ends.antt =====
-- That a generation that is stopped comes to its end (generation.go): each connection it still has goes
-- from the feed to its removal by the steps of the program's own goroutines, whatever else happens in
-- between.
use fileshare.Prelude.{
  ℕ, zero, suc, ◌-◌, ◌≤◌, ◌<◌, ◌≡◌, refl, sym, ◌∙◌, subst, inl, inr, true, false, ◌||◌, none, some,
  List, [], ◌∷◌, arith, Bool-cases, ◌==◌, nat_eq_iff, ℕ_eq, List_eq, nth, set_at, All-nth,
}
use fileshare.Generations.{
  taken, counted, refused, given, not_closed, closed, uncounted, removed, Conn, Feed, first_feed,
  is_stopped, count_phase, enter_phase, close_conn, is_refused, uncount_phase, remove_phase,
  is_removed, Event, counts, enters, closes, uncounts, removes, at_conn, step, steps, is_counted,
}
use fileshare.Generations.Tracked.{rank, IsTracked, removed-uncounted}
use fileshare.Generations.Keeps.{IsKept}
use fileshare.Generations.Kept.{step-IsKept, steps-IsKept, first_feed-IsKept}
use fileshare.Generations.Drained.{IsAt, nth-set_at, removed-rank}
use fileshare.Generations.Onward.{step-IsAt}

-- The step of the program's own that a connection waits for at a place on its way: of Accept, of
-- whoever closes a connection that Accept refused or shut took, and of the two parts of its close.
unfoldable pub own_step : ℕ → ℕ → Event
own_step i zero = counts i
own_step i (suc zero) = enters i
own_step i (suc (suc zero)) = closes i
own_step i (suc (suc (suc zero))) = uncounts i
own_step i (suc (suc (suc (suc r)))) = removes i

-- A run in which those steps are taken, one after another, from a place on, with any others between.
pub data Takes (i : ℕ) : ℕ → List Event → Type 0 where
  done : {r : ℕ} {es : List Event} → 5 ≤ r → Takes i r es
  take :
      {r : ℕ} {e : Event} {es : List Event}
      → r < 5
      → e ≡ own_step i r
      → Takes i (suc r) es
      → Takes i r (e ∷ es)
  skip : {r : ℕ} {e : Event} {es : List Event} → Takes i r es → Takes i r (e ∷ es)

module _ {f : Feed} {i r : ℕ} (a : IsAt f i r) where
  further-IsAt :
      (n : ℕ) (d : Conn)
      → d.generation ≡ a.conn.generation
      → (is_removed a.conn.closing ≡ true → is_removed d.closing ≡ true)
      → suc r ≤ rank d
      → IsAt (record f { conns = set_at i d f.conns; open_count = n }) i (suc r)
  further-IsAt n d g gone le = record {
    conn = d;
    found = nth-set_at f.conns i i d a.conn a.found a.found ∙ rw ((nat_eq_iff i i).1 refl) refl;
    far = le;
    ending = rw g (elim (Bool-cases (is_removed a.conn.closing)) [
      | inl e ↦ let x = gone e in ground arith
      | inr e ↦ ground (arith, a.ending)
    ]);
  }

  found-IsAt : (go : Conn → Feed) → IsAt (go a.conn) i (suc r) → IsAt (at_conn i f go) i (suc r)
  found-IsAt go h =
      subst (λ o. IsAt (elim o [ none ↦ f | some d ↦ go d ]) i (suc r)) (sym a.found) h

  counts-moves : r ≡ 0 → rank a.conn ≡ r → IsAt (step (counts i) f) i (suc r)
  unfolding step rank
  counts-moves z e =
      let p : a.conn.phase ≡ taken = ground arith in
      let q : a.conn.closing ≡ not_closed = ground arith in
      found-IsAt (λ d. count_phase i d d.phase f)
        (subst (λ x. IsAt (count_phase i a.conn x f) i (suc r)) (sym p)
          (further-IsAt (suc f.open_count) (record a.conn { phase = counted }) refl (λ g. g)
            (ground arith)))

  enters-moves : r ≡ 1 → rank a.conn ≡ r → IsAt (step (enters i) f) i (suc r)
  unfolding step rank
  enters-moves z e =
      let p : a.conn.phase ≡ counted = ground arith in
      let q : a.conn.closing ≡ not_closed = ground arith in
      found-IsAt (λ d. enter_phase i d d.phase f)
        (subst (λ x. IsAt (enter_phase i a.conn x f) i (suc r)) (sym p)
          (elim (Bool-cases (is_stopped f a.conn.generation)) [
            | inl s ↦ rw s (
                further-IsAt f.open_count (record a.conn { phase = refused }) refl (λ g. g)
                  (ground arith))
            | inr s ↦ rw s (
                further-IsAt f.open_count (record a.conn { phase = given; tracked = true }) refl
                  (λ g. g) (ground arith))
          ]))

  closes-moves : IsKept f → r ≡ 2 → rank a.conn ≡ r → IsAt (step (closes i) f) i (suc r)
  unfolding step rank
  closes-moves k z e =
      let q : a.conn.closing ≡ not_closed = ground arith in
      let h = All-nth (IsTracked f.current f.stopped f.returned) f.conns i a.found k.tracked in
      let own : (is_refused a.conn.phase || a.conn.to_close) ≡ true =
        ground (arith, h.held, h.live, a.ending) in
      found-IsAt (λ d. close_conn i d (is_refused d.phase || d.to_close) d.closing f)
        (subst (λ b. IsAt (close_conn i a.conn b a.conn.closing f) i (suc r)) (sym own)
          (subst (λ x. IsAt (close_conn i a.conn true x f) i (suc r)) (sym q)
            (further-IsAt f.open_count (record a.conn { closing = closed }) refl
              (λ g. absurd (ground arith)) (ground arith))))

  uncounts-moves : r ≡ 3 → rank a.conn ≡ r → IsAt (step (uncounts i) f) i (suc r)
  unfolding step rank
  uncounts-moves z e =
      let q : a.conn.closing ≡ closed = ground arith in
      found-IsAt (λ d. uncount_phase i d d.closing f)
        (subst (λ x. IsAt (uncount_phase i a.conn x f) i (suc r)) (sym q)
          (further-IsAt (f.open_count - 1) (record a.conn { closing = uncounted }) refl
            (λ g. absurd (ground arith)) (ground arith)))

  removes-moves : r ≡ 4 → rank a.conn ≡ r → IsAt (step (removes i) f) i (suc r)
  unfolding step rank
  removes-moves z e =
      let q : a.conn.closing ≡ uncounted = ground arith in
      found-IsAt (λ d. remove_phase i d d.closing f)
        (subst (λ x. IsAt (remove_phase i a.conn x f) i (suc r)) (sym q)
          (further-IsAt f.open_count (record a.conn { closing = removed; tracked = false }) refl
            (λ g. refl) (ground arith)))

-- The step that a connection waits for takes it on.
moves :
    {f : Feed} {i : ℕ} (r : ℕ) (a : IsAt f i r)
    → IsKept f
    → r < 5
    → rank a.conn ≡ r
    → IsAt (step (own_step i r) f) i (suc r)
unfolding own_step
moves zero a k lt e = counts-moves a refl e
moves (suc zero) a k lt e = enters-moves a refl e
moves (suc (suc zero)) a k lt e = closes-moves a k refl e
moves (suc (suc (suc zero))) a k lt e = uncounts-moves a refl e
moves (suc (suc (suc (suc zero)))) a k lt e = removes-moves a refl e
moves (suc (suc (suc (suc (suc r))))) a k lt e = absurd (omega arith)

own_step-IsAt :
    {f : Feed} {i r : ℕ} → IsAt f i r → IsKept f → r < 5 → IsAt (step (own_step i r) f) i (suc r)
own_step-IsAt {f} {i} {r} a k lt = elim (Bool-cases (rank a.conn == r)) [
  | inl e ↦ moves r a k lt ((nat_eq_iff (rank a.conn) r).0 e)
  | inr e ↦
      let ahead : IsAt f i (suc r) = record {
        conn = a.conn;
        found = a.found;
        far = ground (arith, a.far);
        ending = a.ending;
      } in
      step-IsAt ahead (own_step i r) k
]

steps-IsAt : (es : List Event) (f : Feed) {i r : ℕ} → IsAt f i r → IsKept f → IsAt (steps es f) i r
unfolding steps
steps-IsAt [] f a k = a
steps-IsAt (e ∷ es) f a k = steps-IsAt es (step e f) (step-IsAt a e k) (step-IsKept f k e)

Takes-IsAt :
    {i r : ℕ} {es : List Event}
    → Takes i r es
    → (f : Feed) → IsAt f i r
    → IsKept f
    → IsAt (steps es f) i 5
unfolding steps
Takes-IsAt {i} {r} {es} (done h) f a k =
    steps-IsAt es f
      (record { conn = a.conn; found = a.found; far = omega (arith, a.far, h); ending = a.ending })
      k
Takes-IsAt {i} {r} (take {e} {es} lt q t) f a k =
    Takes-IsAt t (step e f) (subst (λ x. IsAt (step x f) i (suc r)) (sym q) (own_step-IsAt a k lt))
      (step-IsKept f k e)
Takes-IsAt (skip {e} {es} t) f a k = Takes-IsAt t (step e f) (step-IsAt a e k) (step-IsKept f k e)

-- However far a connection is when its generation is stopped, still on its way from the feed or in
-- use: once the program's own goroutines have taken the steps of its way, in their order and with
-- any other steps in between, it is closed, counted off and removed, and stays so.
pub stopped-ends :
    (before after : List Event) (i : ℕ) (c : Conn)
    → nth (steps before first_feed).conns i ≡ some c
    → is_stopped (steps before first_feed) c.generation ≡ true
    → Takes i 0 after
    → (d : Conn) × (nth (steps after (steps before first_feed)).conns i ≡ some d)
      × (is_removed d.closing ≡ true)
      × (is_counted d ≡ false)
stopped-ends before after i c at stopped takes =
    let f = steps before first_feed in
    let start : IsAt f i 0 = record {
      conn = c;
      found = at;
      far = omega arith;
      ending = ground arith;
    } in
    let end = Takes-IsAt takes f start (steps-IsKept before first_feed first_feed-IsKept) in
    let gone = removed-rank end.conn end.far in
    (end.conn, end.found, gone, removed-uncounted end.conn gone)
