-- ===== src/Generations.antt =====
-- generation.go: the connections that the generations of one feed take, track and close, as the steps
-- of their goroutines (genListener, trackedConn, generation.stop), with the swap of server.go, which
-- stops a generation before the next one starts. A connection is told apart by its place in the list.
pub mod Tracked
pub mod Keeps
pub mod Kept
pub mod Drained
pub mod Onward
pub mod Ends
mod Tests
use fileshare.Prelude.{
  ℕ, suc, ◌+◌, ◌-◌, Bool, true, false, not, ◌&&◌, ◌||◌, Option, none, some, List, [], ◌∷◌, ◌++◌,
  map, if◌then◌else◌, ◌==◌, ℕ_eq, List_eq, all, nth, set_at,
}

-- How far Accept is with a connection: received from the feed, counted as open, and then, under the
-- lock, refused where the generation is stopped, or given to the server.
pub data Phase : Type 0 where
  taken counted refused given : Phase

-- How far its close is: the connection underneath, then the count of open ones, then the set.
pub data Closing : Type 0 where
  not_closed closed uncounted removed : Closing

-- `trackedConn`: `tracked` says that it is in its listener's set, `to_close` that shut took it out of
-- there to close it.
pub record Conn : Type 0 where
  pub generation : ℕ
  pub phase : Phase
  pub closing : Closing
  pub tracked : Bool
  pub to_close : Bool

-- One feed and its current generation: whether that generation's listener was shut, and whether its
-- protocol server returned. `open_count` is the feed's count.
pub record Feed : Type 0 where
  pub current : ℕ
  pub stopped : Bool
  pub returned : Bool
  pub open_count : ℕ
  pub conns : List Conn

abbrev pub first_feed : Feed
first_feed = record { current = 1; stopped = false; returned = false; open_count = 0; conns = [] }

-- Whether the listener of a generation is stopped; those before the current one are.
abbrev pub is_stopped : Feed → ℕ → Bool
is_stopped f g = not (g == f.current) || f.stopped

abbrev pub received : ℕ → Conn
received g = record {
  generation = g;
  phase = taken;
  closing = not_closed;
  tracked = false;
  to_close = false;
}

abbrev pub put_conn : ℕ → Conn → Feed → Feed
put_conn i c f = record f { conns = set_at i c f.conns }

-- `l.f.open.Add(1)`
abbrev pub count_phase : ℕ → Conn → Phase → Feed → Feed
count_phase i c taken f = record (put_conn i (record c { phase = counted }) f) {
  open_count = suc f.open_count;
}
count_phase i c counted f = f
count_phase i c refused f = f
count_phase i c given f = f

-- What Accept does under the lock.
abbrev pub enter_phase : ℕ → Conn → Phase → Feed → Feed
enter_phase i c counted f =
    put_conn i
      (if is_stopped f c.generation
        then record c { phase = refused }
        else record c { phase = given; tracked = true })
      f
enter_phase i c taken f = f
enter_phase i c refused f = f
enter_phase i c given f = f

-- `c.Conn.Close()`, where somebody who does that has the connection.
abbrev pub close_conn : ℕ → Conn → Bool → Closing → Feed → Feed
close_conn i c true not_closed f = put_conn i (record c { closing = closed }) f
close_conn i c true closed f = f
close_conn i c true uncounted f = f
close_conn i c true removed f = f
close_conn i c false k f = f

abbrev pub is_refused : Phase → Bool
is_refused refused = true
is_refused _ = false

abbrev pub is_given : Phase → Bool
is_given given = true
is_given _ = false

-- The two parts of what a close does once.
abbrev pub uncount_phase : ℕ → Conn → Closing → Feed → Feed
uncount_phase i c closed f = record (put_conn i (record c { closing = uncounted }) f) {
  open_count = f.open_count - 1;
}
uncount_phase i c not_closed f = f
uncount_phase i c uncounted f = f
uncount_phase i c removed f = f

abbrev pub remove_phase : ℕ → Conn → Closing → Feed → Feed
remove_phase i c uncounted f = put_conn i (record c { closing = removed; tracked = false }) f
remove_phase i c not_closed f = f
remove_phase i c closed f = f
remove_phase i c removed f = f

-- A connection as shut leaves it, once the set is its own.
unfoldable pub shut_conn : ℕ → Conn → Conn
shut_conn g c =
    if c.generation == g && c.tracked then record c { tracked = false; to_close = true } else c

-- `genListener.shut`; the second call finds it done.
unfoldable pub shut : Feed → Feed
unfolding shut_conn
shut f =
    if f.stopped then f else record f { stopped = true; conns = map (shut_conn f.current) f.conns }

abbrev pub is_removed : Closing → Bool
is_removed removed = true
is_removed _ = false

-- Accept has nothing more to do with a connection.
unfoldable pub is_left : Conn → Bool
is_left c = elim c.phase [
  | taken ↦ false
  | counted ↦ false
  | refused ↦ is_removed c.closing
  | given ↦ true
]

-- The protocol server returns: it is in no call of Accept then.
unfoldable pub serve_returns : Feed → Feed
unfolding is_left
serve_returns f = if all is_left f.conns then record f { returned = true } else f

-- shut has closed what it took.
unfoldable pub is_shut_out : Conn → Bool
is_shut_out c = not c.to_close || is_removed c.closing

-- Whether generation.stop returns: the listener is shut, what it had is closed, and the protocol
-- server returned.
unfoldable pub stop_returns : Feed → Bool
unfolding is_shut_out
stop_returns f = f.stopped && (f.returned && all is_shut_out f.conns)

-- The next generation, which swap starts once stop returned.
unfoldable pub start_next : Feed → Feed
unfolding stop_returns
start_next f =
    if stop_returns f
    then record f { current = suc f.current; stopped = false; returned = false }
    else f

-- What the goroutines of a feed's generations do. A connection is closed by the server that has it, or
-- by Accept, which refused it, or shut.
pub data Event : Type 0 where
  receives shuts returns starts : Event
  counts enters server_closes closes uncounts removes : ℕ → Event

abbrev pub at_conn : ℕ → Feed → (Conn → Feed) → Feed
at_conn i f go = elim (nth f.conns i) [ none ↦ f | some c ↦ go c ]

unfoldable pub step : Event → Feed → Feed
unfolding shut serve_returns start_next
step receives f =
    if f.returned then f else record f { conns = f.conns ++ (received f.current ∷ []) }
step shuts f = shut f
step returns f = serve_returns f
step starts f = start_next f
step (counts i) f = at_conn i f (λ c. count_phase i c c.phase f)
step (enters i) f = at_conn i f (λ c. enter_phase i c c.phase f)
step (server_closes i) f = at_conn i f (λ c. close_conn i c (is_given c.phase) c.closing f)
step (closes i) f = at_conn i f (λ c. close_conn i c (is_refused c.phase || c.to_close) c.closing f)
step (uncounts i) f = at_conn i f (λ c. uncount_phase i c c.closing f)
step (removes i) f = at_conn i f (λ c. remove_phase i c c.closing f)

unfoldable pub steps : List Event → Feed → Feed
unfolding step
steps [] f = f
steps (e ∷ es) f = steps es (step e f)

-- Open for its peer: taken from the feed, and not closed.
abbrev pub is_open : Conn → Bool
is_open c = elim c.closing [
  | not_closed ↦ true
  | closed ↦ false
  | uncounted ↦ false
  | removed ↦ false
]

-- Counted as open.
unfoldable pub is_counted : Conn → Bool
is_counted c = elim c.phase [
  | taken ↦ false
  | counted ↦ elim c.closing [
    | not_closed ↦ true
    | closed ↦ true
    | uncounted ↦ false
    | removed ↦ false
  ]
  | refused ↦ elim c.closing [
    | not_closed ↦ true
    | closed ↦ true
    | uncounted ↦ false
    | removed ↦ false
  ]
  | given ↦ elim c.closing [
    | not_closed ↦ true
    | closed ↦ true
    | uncounted ↦ false
    | removed ↦ false
  ]
]
