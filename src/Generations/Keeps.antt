-- ===== src/Generations/Keeps.antt =====
-- What the steps of one connection keep (generation.go): the count of open connections, and what is
-- known of each connection.
use fileshare.Prelude.{
  ℕ, suc, ◌+◌, ◌-◌, ◌≡◌, refl, inl, inr, Bool, true, false, ◌||◌, some, arith, Bool-cases, ℕ_eq,
  List_eq, All, nth, set_at, All-nth, All-set_at,
}
use fileshare.Generations.{
  Phase, taken, counted, refused, given, Closing, not_closed, closed, uncounted, removed, Conn,
  Feed, is_stopped, count_phase, enter_phase, close_conn, is_refused, is_given, uncount_phase,
  remove_phase, is_left, is_counted,
}
use fileshare.Generations.Tracked.{
  is_entered, IsTracked, count_of, counted_open, counted_open-set_at,
}

pub record IsKept (f : Feed) : Type 0 where
  pub tracked : All (IsTracked f.current f.stopped f.returned) f.conns
  pub counts_open : f.open_count ≡ counted_open f.conns

module _ (f : Feed) (k : IsKept f) (i : ℕ) (c : Conn) (at : nth f.conns i ≡ some c) where
  put-IsKept :
      (d : Conn) (n : ℕ)
      → IsTracked f.current f.stopped f.returned d
      → n + count_of c ≡ f.open_count + count_of d
      → IsKept (record f { conns = set_at i d f.conns; open_count = n })
  put-IsKept d n t e = record {
    tracked = All-set_at (IsTracked f.current f.stopped f.returned) f.conns i d t k.tracked;
    counts_open = omega (arith, k.counts_open, e, counted_open-set_at f.conns i d at);
  }

  here : IsTracked f.current f.stopped f.returned c
  here = All-nth (IsTracked f.current f.stopped f.returned) f.conns i at k.tracked

  pub count_phase-IsKept : (p : Phase) → c.phase ≡ p → IsKept (count_phase i c p f)
  unfolding is_counted is_left
  count_phase-IsKept taken e =
      let h = here in
      put-IsKept (record c { phase = counted }) (suc f.open_count)
        (record {
          held = refl;
          live = h.live;
          owned = ground (arith, h.owned);
          loose = h.loose;
          entered = ground (arith, h.entered);
          settled = h.settled;
          left = ground (arith, h.left);
        })
        (ground (arith, h.entered))
  count_phase-IsKept counted e = k
  count_phase-IsKept refused e = k
  count_phase-IsKept given e = k

  pub enter_phase-IsKept : (p : Phase) → c.phase ≡ p → IsKept (enter_phase i c p f)
  unfolding is_counted is_left
  enter_phase-IsKept taken e = k
  enter_phase-IsKept counted e =
      let h = here in
      elim (Bool-cases (is_stopped f c.generation)) [
        | inl s ↦ rw s (
            put-IsKept (record c { phase = refused }) f.open_count
              (record {
                held = refl;
                live = h.live;
                owned = ground (arith, h.owned);
                loose = h.loose;
                entered = ground (arith, h.entered);
                settled = h.settled;
                left = ground (arith, h.left);
              })
              (ground (arith, h.entered)))
        | inr s ↦ rw s (
            put-IsKept (record c { phase = given; tracked = true }) f.open_count
              (record {
                held = ground arith;
                live = ground arith;
                owned = ground (arith, h.owned);
                loose = ground (arith, h.entered);
                entered = ground (arith, h.entered);
                settled = h.settled;
                left = ground (arith, h.left);
              })
              (ground (arith, h.entered)))
      ]
  enter_phase-IsKept refused e = k
  enter_phase-IsKept given e = k

  pub close_conn-IsKept :
      (b : Bool) (x : Closing)
      → (b ≡ true → is_entered c.phase ≡ true)
      → c.closing ≡ x
      → IsKept (close_conn i c b x f)
  unfolding is_counted is_left
  close_conn-IsKept true not_closed own q =
      let h = here in
      let o = own refl in
      put-IsKept (record c { closing = closed }) f.open_count
        (record {
          held = ground (arith, h.held);
          live = h.live;
          owned = h.owned;
          loose = ground arith;
          entered = o;
          settled = ground (arith, h.settled);
          left = ground (arith, h.left);
        })
        (ground arith)
  close_conn-IsKept true closed own q = k
  close_conn-IsKept true uncounted own q = k
  close_conn-IsKept true removed own q = k
  close_conn-IsKept false x own q = k

  pub server_has : is_given c.phase ≡ true → is_entered c.phase ≡ true
  server_has e = ground arith

  pub program_has : (is_refused c.phase || c.to_close) ≡ true → is_entered c.phase ≡ true
  program_has e = let h = here in ground (arith, h.owned)

  pub uncount_phase-IsKept : (x : Closing) → c.closing ≡ x → IsKept (uncount_phase i c x f)
  unfolding is_counted is_left
  uncount_phase-IsKept not_closed q = k
  uncount_phase-IsKept closed q =
      let h = here in
      let one : count_of c ≡ 1 = ground (arith, h.entered) in
      let none_left : count_of (record c { closing = uncounted }) ≡ 0 = ground (arith, h.entered) in
      put-IsKept (record c { closing = uncounted }) (f.open_count - 1)
        (record {
          held = ground (arith, h.held);
          live = h.live;
          owned = ground (arith, h.owned);
          loose = ground arith;
          entered = ground (arith, h.entered);
          settled = ground (arith, h.settled);
          left = ground (arith, h.left);
        })
        (omega (
          arith,
          one,
          none_left,
          k.counts_open,
          counted_open-set_at f.conns i (record c { closing = uncounted }) at,
        ))
  uncount_phase-IsKept uncounted q = k
  uncount_phase-IsKept removed q = k

  pub remove_phase-IsKept : (x : Closing) → c.closing ≡ x → IsKept (remove_phase i c x f)
  unfolding is_counted is_left
  remove_phase-IsKept not_closed q = k
  remove_phase-IsKept closed q = k
  remove_phase-IsKept uncounted q =
      let h = here in
      put-IsKept (record c { closing = removed; tracked = false }) f.open_count
        (record {
          held = ground arith;
          live = refl;
          owned = ground (arith, h.owned);
          loose = refl;
          entered = ground (arith, h.entered);
          settled = ground arith;
          left = ground (arith, h.left);
        })
        (ground (arith, h.entered))
  remove_phase-IsKept removed q = k
