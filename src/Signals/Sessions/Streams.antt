-- ===== src/Signals/Sessions/Streams.antt =====
-- Which stream a session polls.
use fileshare.Prelude.{
  ◌≡◌, refl, sym, ◌≢◌, ◌⊎◌, inl, inr, Bool, true, false, not, ◌||◌, Option, none, some, [], arith,
  if◌then◌else◌, ◌==◌, ℕ_eq, List_eq, null, Text,
}
use fileshare.Signals.Receiver.{Receiver, put_store}
use fileshare.Signals.{SignalStore, set_stream}
use fileshare.Signals.Sessions.{
  StreamConfig, Transmitter, stored_stream, made_stream, held_stream, stream_of,
}

-- The transmitter gave this endpoint for the stream of this name: it looked the stream up that the
-- store named, or it made one.
abbrev pub IsStream : Transmitter → Text → Text → Text → Type 0
IsStream t named id endpoint =
    ((named ≢ [])
      × (named ≡ id)
      × ((c : StreamConfig) × ((t.looks_up id).result ≡ some c) × (c.endpoint_url ≡ endpoint)))
    ⊎ ((c : StreamConfig) × (t.makes.result ≡ some c)
        × (c.stream_id ≡ id)
        × (c.endpoint_url ≡ endpoint))

-- A stream that was made, and named in the store.
stored_stream-IsStream :
    (t : Transmitter) (r : Receiver) (c : StreamConfig) (named : Text) (x : Bool × SignalStore)
    {endpoint : Text}
    → t.makes.result ≡ some c
    → x.1.stream ≡ c.stream_id
    → (stored_stream c.endpoint_url (put_store r x)).0 ≡ some endpoint
    → IsStream t named (stored_stream c.endpoint_url (put_store r x)).1.store.stream endpoint
stored_stream-IsStream t r c named (false, s) made n h = absurd (cc)
stored_stream-IsStream t r c named (true, s) made n h = inr (c, made, sym n, cc)

set_stream-stream : (w : Bool) (id : Text) (s : SignalStore) → (set_stream w id s).1.stream ≡ id
unfolding set_stream
set_stream-stream w id s = ground arith

made_stream-IsStream :
    (t : Transmitter) (r : Receiver) (named : Text) (o : Option StreamConfig) {endpoint : Text}
    → t.makes.result ≡ o
    → (made_stream t r o).0 ≡ some endpoint
    → IsStream t named (made_stream t r o).1.store.stream endpoint
made_stream-IsStream t r named none made h = absurd (cc)
made_stream-IsStream t r named (some c) {endpoint} made h =
    at (null c.stream_id || null c.endpoint_url) h
  where
    x : Bool × SignalStore
    x = set_stream t.writes c.stream_id r.store

    made_as : Bool → Option Text × Receiver
    made_as b = if b then (none, r) else stored_stream c.endpoint_url (put_store r x)

    at :
        (b : Bool)
        → (made_as b).0 ≡ some endpoint
        → IsStream t named (made_as b).1.store.stream endpoint
    at true k = absurd (cc)
    at false k =
        stored_stream-IsStream t r c named x made (set_stream-stream t.writes c.stream_id r.store) k

held_stream-IsStream :
    (t : Transmitter) (r : Receiver) {endpoint : Text}
    → r.store.stream ≢ []
    → (held_stream t r (t.looks_up r.store.stream)).0 ≡ some endpoint
    → IsStream t r.store.stream
        (held_stream t r (t.looks_up r.store.stream)).1.store.stream
        endpoint
held_stream-IsStream t r {endpoint} is_named h = at (t.looks_up r.store.stream).result refl h
  where
    id : Text
    id = r.store.stream

    again : Option Text × Receiver
    again = made_stream t r t.makes.result

    held_as : Option StreamConfig → Option Text × Receiver
    held_as o = elim o [
      | some s ↦ if not (null s.endpoint_url) then (some s.endpoint_url, r) else again
      | none ↦ if (t.looks_up id).status == 404 then again else (none, r)
    ]

    remade : again.0 ≡ some endpoint → IsStream t id again.1.store.stream endpoint
    remade k = made_stream-IsStream t r id t.makes.result refl k

    missing :
        (b : Bool)
        → (if b then again else (none, r)).0 ≡ some endpoint
        → IsStream t id (if b then again else (none, r)).1.store.stream endpoint
    missing true k = remade k
    missing false k = absurd (cc)

    there :
        (s : StreamConfig)
        → (t.looks_up id).result ≡ some s
        → (b : Bool) → (if b then (some s.endpoint_url, r) else again).0 ≡ some endpoint
        → IsStream t id (if b then (some s.endpoint_url, r) else again).1.store.stream endpoint
    there s e true k = inl (is_named, refl, (s, e, cc))
    there s e false k = remade k

    at :
        (o : Option StreamConfig)
        → (t.looks_up id).result ≡ o
        → (held_as o).0 ≡ some endpoint
        → IsStream t id (held_as o).1.store.stream endpoint
    at none e k = missing ((t.looks_up id).status == 404) k
    at (some s) e k = there s e (not (null s.endpoint_url)) k

pub stream_of-IsStream :
    (t : Transmitter) (r : Receiver) {endpoint : Text}
    → (stream_of t r).0 ≡ some endpoint
    → IsStream t r.store.stream (stream_of t r).1.store.stream endpoint
unfolding stream_of
stream_of-IsStream t r {endpoint} h = at (null r.store.stream) refl h
  where
    named_as : Bool → Option Text × Receiver
    named_as b =
        if b then made_stream t r t.makes.result else held_stream t r (t.looks_up r.store.stream)

    at :
        (b : Bool)
        → null r.store.stream ≡ b
        → (named_as b).0 ≡ some endpoint
        → IsStream t r.store.stream (named_as b).1.store.stream endpoint
    at true e k = made_stream-IsStream t r r.store.stream t.makes.result refl k
    at false e k = held_stream-IsStream t r (λ n. absurd (ground arith)) k
