-- ===== src/Generations/Tests.antt =====
-- One feed, its connections and a change of generation.
use fileshare.Prelude.{
  ℕ, ◌≡◌, refl, true, false, not, ◌||◌, some, List, [], ◌∷◌, ◌++◌, arith, ◌==◌, ℕ_eq, List_eq, All,
  nth,
}
use fileshare.Generations.{
  given, Closing, Conn, first_feed, is_removed, stop_returns, Event, receives, shuts, returns,
  starts, counts, enters, closes, uncounts, removes, steps, is_open, is_counted,
}
use fileshare.Generations.Tracked.{counted_open}
use fileshare.Generations.Kept.{steps-IsCurrent, stop_returns-none_open}
use fileshare.Generations.Ends.{own_step, done, take, stopped-ends}

-- One connection in use, one that Accept has received; then the listener is shut.
abbrev busy : List Event
busy = receives ∷ counts 0 ∷ enters 0 ∷ receives ∷ counts 1 ∷ shuts ∷ []

abbrev way : ℕ → List Event
way i = counts i ∷ enters i ∷ closes i ∷ uncounts i ∷ removes i ∷ []

abbrev changed : List Event
changed = busy ++ (starts ∷ (way 0 ++ (way 1 ++ (returns ∷ starts ∷ receives ∷ []))))

two_open : (steps busy first_feed).open_count ≡ 2
unfolding steps
two_open = refl

next_generation :
    ((steps changed first_feed).current ≡ 2) × ((steps changed first_feed).open_count ≡ 0)
unfolding steps
next_generation = (refl, refl)

-- A stop does not return while a connection is open.
not_yet : (steps (busy ++ (returns ∷ starts ∷ [])) first_feed).current ≡ 1
unfolding steps
not_yet = refl

steps-IsCurrent_example :
    All
      (λ c. (c.generation == (steps changed first_feed).current || not (is_open c)) ≡ true)
      (steps changed first_feed).conns
    × ((steps changed first_feed).open_count ≡ counted_open (steps changed first_feed).conns)
steps-IsCurrent_example = steps-IsCurrent changed

abbrev in_use : Conn
in_use = record {
  generation = 1;
  phase = given;
  closing = Closing.not_closed;
  tracked = false;
  to_close = true;
}

stopped-ends_example :
    (d : Conn) × (nth (steps (way 0) (steps busy first_feed)).conns 0 ≡ some d)
    × (is_removed d.closing ≡ true)
    × (is_counted d ≡ false)
unfolding steps own_step
stopped-ends_example = stopped-ends busy (way 0) 0 in_use refl refl (
    take (omega arith) refl (
      take (omega arith) refl (
        take (omega arith) refl
          (take (omega arith) refl (take (omega arith) refl (done (omega arith)))))))

abbrev ended : List Event
ended = busy ++ (way 0 ++ (way 1 ++ (returns ∷ [])))

stop_returns-none_open_example :
    All (λ c. is_open c ≡ false) (steps ended first_feed).conns
    × ((steps ended first_feed).open_count ≡ 0)
unfolding steps stop_returns
stop_returns-none_open_example = stop_returns-none_open ended refl
