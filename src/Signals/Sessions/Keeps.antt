-- ===== src/Signals/Sessions/Keeps.antt =====
-- What a session of the receiver keeps of the store: it changes nothing there but the stream it names.
use fileshare.Prelude.{
  ℕ, sym, subst, inl, inr, Bool, true, false, not, ◌&&◌, ◌||◌, Option, none, some, [], ◌∷◌,
  Bool-cases, ◌==◌, ℕ_eq, List_eq, all, null, Text,
}
use fileshare.Signals.{SignalStore, set_stream}
use fileshare.Signals.Receiver.{Receiver, refresh_keys, put_store}
use fileshare.Signals.Verified.{refresh_keys-SameStore}
use fileshare.Signals.Settings.{https}
use fileshare.Signals.Sessions.{
  TransmitterConfig, StreamConfig, Transmitter, secure_or_empty, client_credentials, stored_stream,
  made_stream, held_stream, stream_of, is_enabled, after_status, after_stream, after_keys,
  after_discovery, session,
}

-- A claim on stores that naming a stream keeps is kept by a session.
module _ (P : SignalStore → Type 0)
    (keeps : (writes : Bool) (id : Text) (s : SignalStore)
      → P s
      → P (set_stream writes id s).1) where
  stored_stream-keeps :
      (endpoint : Text) (r : Receiver) (x : Bool × SignalStore)
      → P x.1
      → P (stored_stream endpoint (put_store r x)).1.store
  stored_stream-keeps endpoint r (true, s) h = h
  stored_stream-keeps endpoint r (false, s) h = h

  made_stream-keeps :
      (t : Transmitter) (r : Receiver) (o : Option StreamConfig)
      → P r.store
      → P (made_stream t r o).1.store
  made_stream-keeps t r none h = h
  made_stream-keeps t r (some c) h = elim (Bool-cases (null c.stream_id || null c.endpoint_url)) [
    | inl e ↦ rw e h
    | inr e ↦ rw e (
        stored_stream-keeps c.endpoint_url r (set_stream t.writes c.stream_id r.store)
          (keeps t.writes c.stream_id r.store h))
  ]

  held_stream-keeps :
      (t : Transmitter) (r : Receiver) (status : ℕ) (o : Option StreamConfig)
      → P r.store
      → P (held_stream t r (record { status = status; result = o })).1.store
  held_stream-keeps t r status none h = elim (Bool-cases (status == 404)) [
    | inl e ↦ rw e (made_stream-keeps t r t.makes.result h)
    | inr e ↦ rw e h
  ]
  held_stream-keeps t r status (some c) h = elim (Bool-cases (not (null c.endpoint_url))) [
    | inl e ↦ rw e h
    | inr e ↦ rw e (made_stream-keeps t r t.makes.result h)
  ]

  stream_of-keeps : (t : Transmitter) (r : Receiver) → P r.store → P (stream_of t r).1.store
  unfolding stream_of
  stream_of-keeps t r h = elim (Bool-cases (null r.store.stream)) [
    | inl e ↦ rw e (made_stream-keeps t r t.makes.result h)
    | inr e ↦ let c = t.looks_up r.store.stream in rw e (held_stream-keeps t r c.status c.result h)
  ]

  after_status-keeps :
      (endpoint : Text) (r : Receiver) (o : Option Text)
      → P r.store
      → P (after_status endpoint r o).1.store
  after_status-keeps endpoint r none h = h
  after_status-keeps endpoint r (some status) h = elim (Bool-cases (is_enabled status)) [
    | inl e ↦ rw e h
    | inr e ↦ rw e h
  ]

  after_stream-keeps :
      (c : TransmitterConfig) (t : Transmitter) (x : Option Text × Receiver)
      → P x.1.store
      → P (after_stream c t x).1.store
  after_stream-keeps c t (none, r) h = h
  after_stream-keeps c t (some endpoint, r) h = elim (Bool-cases (not (https endpoint))) [
    | inl e ↦ rw e h
    | inr e ↦ elim (Bool-cases (null c.status_endpoint)) [
      | inl f ↦ rw e (rw f h)
      | inr f ↦ rw e (rw f (after_status-keeps endpoint r (t.status_of r.store.stream).result h))
    ]
  ]

  after_keys-keeps :
      (c : TransmitterConfig) (t : Transmitter) (x : Bool × Receiver)
      → P x.1.store
      → P (after_keys c t x).1.store
  after_keys-keeps c t (false, r) h = h
  after_keys-keeps c t (true, r) h = after_stream-keeps c t (stream_of t r) (stream_of-keeps t r h)

  after_discovery-keeps :
      (authenticated : Bool) (token_url : Text) (t : Transmitter) (r : Receiver)
      (o : Option TransmitterConfig)
      → P r.store
      → P (after_discovery authenticated token_url t r o).1.store
  after_discovery-keeps authenticated token_url t r none h = h
  after_discovery-keeps authenticated token_url t r (some c) h =
      let fetched = refresh_keys t.moment true r in
      let same = refresh_keys-SameStore t.moment true r in
      let last = after_keys-keeps c t fetched (subst P (sym same.store) h) in
      elim (Bool-cases (not (c.issuer == r.transmitter))) [
        | inl a ↦ rw a h
        | inr a ↦ elim (Bool-cases (null c.jwks_uri || null c.configuration_endpoint)) [
          | inl b ↦ rw a (rw b h)
          | inr b ↦
              elim (Bool-cases (
                not (
                  all secure_or_empty
                    (c.jwks_uri ∷ c.configuration_endpoint ∷ c.status_endpoint ∷ [])))) [
                      | inl d ↦ rw a (rw b (rw d h))
                      | inr d ↦
                          elim (Bool-cases
                            (not authenticated && not (client_credentials token_url t))) [
                              | inl e ↦ rw a (rw b (rw d (rw e h)))
                              | inr e ↦ rw a (rw b (rw d (rw e last)))
                            ]
                    ]
        ]
      ]

  pub session-keeps :
      (authenticated : Bool) (token_url : Text) (t : Transmitter) (r : Receiver)
      → P r.store
      → P (session authenticated token_url t r).1.store
  unfolding session
  session-keeps authenticated token_url t r h =
      after_discovery-keeps authenticated token_url t r t.discovery h
