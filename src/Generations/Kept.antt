-- ===== src/Generations/Kept.antt =====
-- What every step of the goroutines keeps (generation.go): the count of open connections is right, and
-- whatever is not removed belongs to the current generation.
use fileshare.Prelude.{
  ℕ, suc, ◌≡◌, refl, sym, ◌∙◌, inl, inr, Bool, true, false, not, ◌&&◌, ◌||◌, Option, none, some,
  List, [], ◌∷◌, ◌++◌, map, arith, if◌then◌else◌, Bool-cases, ◌==◌, ℕ_eq, List_eq, all, All,
  All-append, nth, All-map, all-All, All-both, All-imply,
}
use fileshare.Generations.{
  Conn, Feed, first_feed, received, is_refused, is_given, shut_conn, shut, is_removed, is_left,
  serve_returns, is_shut_out, stop_returns, start_next, Event, receives, shuts, returns, starts,
  counts, enters, server_closes, closes, uncounts, removes, at_conn, step, steps, is_open,
  is_counted,
}
use fileshare.Generations.Tracked.{
  IsTracked, counted_open, counted_open-snoc, counted_open-map, shut_conn-count,
  counted_open-removed,
}
use fileshare.Generations.Keeps.{
  IsKept, count_phase-IsKept, enter_phase-IsKept, close_conn-IsKept, server_has, program_has,
  uncount_phase-IsKept, remove_phase-IsKept,
}

if-IsKept :
    (b : Bool) (f g : Feed)
    → (b ≡ true → IsKept f)
    → (b ≡ false → IsKept g)
    → IsKept (if b then f else g)
if-IsKept true f g h k = h refl
if-IsKept false f g h k = k refl

module _ (f : Feed) (k : IsKept f) where
  at_conn-IsKept :
      (i : ℕ) (go : Conn → Feed)
      → ((c : Conn) → nth f.conns i ≡ some c → IsKept (go c))
      → IsKept (at_conn i f go)
  at_conn-IsKept i go h = at (nth f.conns i) h
    where
      at :
          (o : Option Conn)
          → ((c : Conn) → o ≡ some c → IsKept (go c))
          → IsKept (elim o [ none ↦ f | some c ↦ go c ])
      at none h = k
      at (some c) h = h c refl

  received-IsKept :
      f.returned ≡ false → IsKept (record f { conns = f.conns ++ (received f.current ∷ []) })
  unfolding is_counted is_left
  received-IsKept e = record {
    tracked =
        All-append (IsTracked f.current f.stopped f.returned) f.conns (received f.current ∷ [])
          k.tracked
          (
            record {
              held = refl;
              live = refl;
              owned = refl;
              loose = refl;
              entered = refl;
              settled = ground arith;
              left = ground arith;
            },
            tt,
          );
    counts_open = omega (arith, k.counts_open, counted_open-snoc f.conns (received f.current));
  }

  shut_conn-IsTracked :
      (c : Conn)
      → IsTracked f.current f.stopped f.returned c
      → IsTracked f.current true f.returned (shut_conn f.current c)
  unfolding shut_conn is_left
  shut_conn-IsTracked c h = elim (Bool-cases (c.generation == f.current && c.tracked)) [
    | inl e ↦ rw e (record {
      held = ground arith;
      live = refl;
      owned = ground (arith, h.owned);
      loose = refl;
      entered = h.entered;
      settled = h.settled;
      left = h.left;
    })
    | inr e ↦ rw e (record {
      held = h.held;
      live = ground (arith, h.live);
      owned = ground (arith, h.owned);
      loose = h.loose;
      entered = h.entered;
      settled = h.settled;
      left = h.left;
    })
  ]

  shut-IsKept : IsKept (shut f)
  unfolding shut
  shut-IsKept =
      if-IsKept f.stopped f (record f { stopped = true; conns = map (shut_conn f.current) f.conns })
        (λ e. k)
        λ e. record {
          tracked =
              All-map (IsTracked f.current f.stopped f.returned)
                (IsTracked f.current true f.returned) (shut_conn f.current) f.conns
                shut_conn-IsTracked k.tracked;
          counts_open =
              k.counts_open
              ∙ sym (counted_open-map (shut_conn f.current) f.conns (shut_conn-count f.current));
        }

  serve_returns-IsKept : IsKept (serve_returns f)
  unfolding serve_returns
  serve_returns-IsKept = elim (Bool-cases (all is_left f.conns)) [
    | inr e ↦ rw e k
    | inl e ↦ rw e (record {
      tracked =
          All-imply (λ c. IsTracked f.current f.stopped f.returned c × (is_left c ≡ true))
            (IsTracked f.current f.stopped true) f.conns returned-IsTracked
            (All-both (IsTracked f.current f.stopped f.returned) (λ c. is_left c ≡ true) f.conns
              k.tracked (all-All is_left f.conns e));
      counts_open = k.counts_open;
    })
  ]
    where
      returned-IsTracked :
          (c : Conn)
          → IsTracked f.current f.stopped f.returned c × (is_left c ≡ true)
          → IsTracked f.current f.stopped true c
      returned-IsTracked c (h, e) = record {
        held = h.held;
        live = h.live;
        owned = ground (arith, h.owned);
        loose = h.loose;
        entered = h.entered;
        settled = h.settled;
        left = e;
      }

  -- Once stop returns, every connection of every generation so far is closed, not counted as open,
  -- and removed.
  pub stop_returns-removed : stop_returns f ≡ true → All (λ c. is_removed c.closing ≡ true) f.conns
  unfolding stop_returns is_left is_shut_out
  stop_returns-removed e =
      All-imply (λ c. IsTracked f.current f.stopped f.returned c × (is_shut_out c ≡ true))
        (λ c. is_removed c.closing ≡ true) f.conns (out (ground arith) (ground arith))
        (All-both (IsTracked f.current f.stopped f.returned) (λ c. is_shut_out c ≡ true) f.conns
          k.tracked (all-All is_shut_out f.conns (ground arith)))
    where
      out :
          f.stopped ≡ true
          → f.returned ≡ true
          → (c : Conn) → IsTracked f.current f.stopped f.returned c × (is_shut_out c ≡ true)
          → is_removed c.closing ≡ true
      out s r c (h, o) = ground (arith, h.held, h.live, h.left)

  start_next-IsKept : IsKept (start_next f)
  unfolding start_next
  start_next-IsKept = elim (Bool-cases (stop_returns f)) [
    | inr e ↦ rw e k
    | inl e ↦ rw e (record {
      tracked =
          All-imply
            (λ c. IsTracked f.current f.stopped f.returned c × (is_removed c.closing ≡ true))
            (IsTracked (suc f.current) false false) f.conns next-IsTracked
            (All-both (IsTracked f.current f.stopped f.returned) (λ c. is_removed c.closing ≡ true)
              f.conns k.tracked (stop_returns-removed e));
      counts_open = k.counts_open;
    })
  ]
    where
      next-IsTracked :
          (c : Conn)
          → IsTracked f.current f.stopped f.returned c × (is_removed c.closing ≡ true)
          → IsTracked (suc f.current) false false c
      next-IsTracked c (h, e) = record {
        held = ground arith;
        live = ground (arith, h.loose);
        owned = ground (arith, h.owned);
        loose = h.loose;
        entered = h.entered;
        settled = ground arith;
        left = refl;
      }

  pub step-IsKept : (e : Event) → IsKept (step e f)
  unfolding step
  step-IsKept receives =
      if-IsKept f.returned f (record f { conns = f.conns ++ (received f.current ∷ []) }) (λ e. k)
        received-IsKept
  step-IsKept shuts = shut-IsKept
  step-IsKept returns = serve_returns-IsKept
  step-IsKept starts = start_next-IsKept
  step-IsKept (counts i) = at_conn-IsKept i _ (λ c at. count_phase-IsKept f k i c at c.phase refl)
  step-IsKept (enters i) = at_conn-IsKept i _ (λ c at. enter_phase-IsKept f k i c at c.phase refl)
  step-IsKept (server_closes i) = at_conn-IsKept i _ (λ c at.
      close_conn-IsKept f k i c at (is_given c.phase) c.closing (server_has f k i c at) refl)
  step-IsKept (closes i) = at_conn-IsKept i _ (λ c at.
      close_conn-IsKept f k i c at (is_refused c.phase || c.to_close) c.closing
        (program_has f k i c at) refl)
  step-IsKept (uncounts i) =
      at_conn-IsKept i _ (λ c at. uncount_phase-IsKept f k i c at c.closing refl)
  step-IsKept (removes i) =
      at_conn-IsKept i _ (λ c at. remove_phase-IsKept f k i c at c.closing refl)

pub steps-IsKept : (es : List Event) (f : Feed) → IsKept f → IsKept (steps es f)
unfolding steps
steps-IsKept [] f k = k
steps-IsKept (e ∷ es) f k = steps-IsKept es (step e f) (step-IsKept f k e)

pub first_feed-IsKept : IsKept first_feed
first_feed-IsKept = record { tracked = tt; counts_open = refl }

-- Whatever the goroutines do, in whatever order, and however often the generation is changed: a
-- connection of an earlier generation than the current one is closed, and the feed's count is the
-- number of connections that were counted and not counted off again.
pub steps-IsCurrent :
    (es : List Event)
    → All
        (λ c. (c.generation == (steps es first_feed).current || not (is_open c)) ≡ true)
        (steps es first_feed).conns
      × ((steps es first_feed).open_count ≡ counted_open (steps es first_feed).conns)
steps-IsCurrent es =
    let f = steps es first_feed in
    let k = steps-IsKept es first_feed first_feed-IsKept in
    (
      All-imply (IsTracked f.current f.stopped f.returned)
          (λ c. (c.generation == f.current || not (is_open c)) ≡ true) f.conns
          (λ c h. current c f.current h.settled) k.tracked,
      k.counts_open,
    )
  where
    current :
        (c : Conn) (n : ℕ)
        → (c.generation == n || is_removed c.closing) ≡ true
        → (c.generation == n || not (is_open c)) ≡ true
    current c n e = ground arith

-- Whenever stop returns, no connection that the feed ever gave out is open, and none is counted.
pub stop_returns-none_open :
    (es : List Event)
    → stop_returns (steps es first_feed) ≡ true
    → All (λ c. is_open c ≡ false) (steps es first_feed).conns
      × ((steps es first_feed).open_count ≡ 0)
stop_returns-none_open es e =
    let f = steps es first_feed in
    let k = steps-IsKept es first_feed first_feed-IsKept in
    let gone = stop_returns-removed f k e in
    (
      All-imply (λ c. is_removed c.closing ≡ true) (λ c. is_open c ≡ false) f.conns
          (λ c r. ground arith) gone,
      k.counts_open ∙ counted_open-removed f.conns gone,
    )
