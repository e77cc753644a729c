-- ===== src/Signals/Sessions/Pinned.antt =====
-- What a session of the receiver is pinned to when it polls.
use fileshare.Prelude.{
  ◌≡◌, refl, sym, ap, ◌∙◌, subst, ◌⊎◌, inl, inr, Bool, true, false, not, ◌&&◌, ◌||◌, Option, none,
  some, List, [], ◌∷◌, arith, if◌then◌else◌, Bool-cases, Option-cases, ◌==◌, ℕ_eq, list_eq_iff,
  List_eq, all, null, null-nil, Text, bytes,
}
use fileshare.Signals.Receiver.{Key, Receiver, Moment, refresh_keys}
use fileshare.Signals.Verified.{refresh_keys-SameStore}
use fileshare.Signals.Settings.{https}
use fileshare.Signals.Sessions.{
  TransmitterConfig, Transmitter, other_issuer, no_endpoints, not_https, no_token, Session, ended,
  polls, secure_or_empty, client_credentials, stream_of, is_enabled, after_status, after_stream,
  after_keys, after_discovery, session,
}
use fileshare.Signals.Sessions.Streams.{IsStream, stream_of-IsStream}

-- What the transmitter answers for the status of the stream that is named, where it says where to
-- ask: that it is enabled, or no status.
abbrev Enabled : TransmitterConfig → Transmitter → Text → Type 0
Enabled c t id =
    (c.status_endpoint ≡ [])
    ⊎ ((t.status_of id).result ≡ some [])
    ⊎ ((t.status_of id).result ≡ some (bytes "enabled"))

-- A session that polls an endpoint and leaves the receiver as it is after: the configuration it found
-- is the transmitter's own, all it points to is over https, its keys were fetched, the endpoint is
-- that of the stream that the store names from then on, and that stream is not said to be stopped.
pub record IsPinned (t : Transmitter) (r after : Receiver) (endpoint : Text) : Type 0 where
  pub config : TransmitterConfig
  pub discovered : t.discovery ≡ some config
  pub own : config.issuer ≡ r.transmitter
  pub keys_secure : https config.jwks_uri ≡ true
  pub streams_secure : https config.configuration_endpoint ≡ true
  pub status_secure : (config.status_endpoint ≡ []) ⊎ (https config.status_endpoint ≡ true)
  pub poll_secure : https endpoint ≡ true
  pub fetched : (ks : List Key) × (t.moment.fetched ≡ some ks)
  pub stream : IsStream t r.store.stream after.store.stream endpoint
  pub enabled : Enabled config t after.store.stream

-- From the stream on, the receiver stays as it is.
after_stream-receiver :
    (c : TransmitterConfig) (t : Transmitter) (x : Option Text × Receiver)
    → (after_stream c t x).1 ≡ x.1
after_stream-receiver c t (none, r) = refl
after_stream-receiver c t (some e, r) = elim (Bool-cases (not (https e))) [
  | inl a ↦ rw a refl
  | inr a ↦ elim (Bool-cases (null c.status_endpoint)) [
    | inl b ↦ rw (a, b) refl
    | inr b ↦ rw (a, b) (same (t.status_of r.store.stream).result)
  ]
]
  where
    same : (o : Option Text) → (after_status e r o).1 ≡ r
    same none = refl
    same (some s) = elim (Bool-cases (is_enabled s)) [ inl f ↦ rw f refl | inr f ↦ rw f refl ]

after_stream-polls :
    (c : TransmitterConfig) (t : Transmitter) (x : Option Text × Receiver) {endpoint : Text}
    → (after_stream c t x).0 ≡ polls endpoint
    → (x.0 ≡ some endpoint) × (https endpoint ≡ true) × Enabled c t x.1.store.stream
after_stream-polls c t (none, r) h = absurd (cc)
after_stream-polls c t (some e, r) {endpoint} h = elim (Bool-cases (https e)) [
  | inr a ↦ absurd (ground arith)
  | inl a ↦ elim (Bool-cases (null c.status_endpoint)) [
    | inl b ↦ (ground arith, ground arith, inl (null-nil c.status_endpoint b))
    | inr b ↦ asked a (t.status_of r.store.stream).result refl (ground arith)
  ]
]
  where
    asked :
        https e ≡ true
        → (o : Option Text) → (t.status_of r.store.stream).result ≡ o
        → (after_status e r o).0 ≡ polls endpoint
        → (some e ≡ some endpoint) × (https endpoint ≡ true) × Enabled c t r.store.stream
    asked secure none q h = absurd (cc)
    asked secure (some s) q h = elim (Bool-cases (is_enabled s)) [
      | inr g ↦ absurd (ground arith)
      | inl g ↦
          let same : e ≡ endpoint = ground arith in
          (
            ap some same,
            subst (λ u. https u ≡ true) same secure,
            inr (elim (Bool-cases (null s)) [
              | inl n ↦ inl (q ∙ ap some (null-nil s n))
              | inr n ↦ inr (q ∙ ap some ((list_eq_iff s (bytes "enabled")).0 (ground arith)))
            ]),
          )
    ]

after_keys-polls :
    (c : TransmitterConfig) (t : Transmitter) (x : Bool × Receiver) {endpoint : Text}
    → (after_keys c t x).0 ≡ polls endpoint
    → (x.0 ≡ true)
      × (https endpoint ≡ true)
      × IsStream t x.1.store.stream (after_keys c t x).1.store.stream endpoint
      × Enabled c t (after_keys c t x).1.store.stream
after_keys-polls c t (false, r) h = absurd (cc)
after_keys-polls c t (true, r) {endpoint} h =
    let y : Option Text × Receiver = stream_of t r in
    let (found, secure, on) = after_stream-polls c t y h in
    let same : y.1 ≡ (after_stream c t y).1 = sym (after_stream-receiver c t y) in
    (
      refl,
      secure,
      subst (λ q. IsStream t r.store.stream q.store.stream endpoint) same
          (stream_of-IsStream t r found),
      subst (λ q. Enabled c t q.store.stream) same on,
    )

refresh_keys-forced :
    (m : Moment) (r : Receiver)
    → (refresh_keys m true r).0 ≡ true
    → (ks : List Key) × (m.fetched ≡ some ks)
unfolding refresh_keys
refresh_keys-forced m r h = elim (Option-cases m.fetched) [
  | inl e ↦ absurd (ground arith)
  | inr found ↦ found
]

-- The guards of a session, before the keys.
abbrev guarded : Bool → Bool → Bool → Bool → Receiver → Session × Receiver → Session × Receiver
guarded own lacks secure refused r x =
    if not own
    then (ended other_issuer, r)
    else if lacks
    then (ended no_endpoints, r)
    else if not secure
    then (ended not_https, r)
    else if refused
    then (ended no_token, r)
    else x

guards-pass :
    (own lacks secure refused : Bool) (r : Receiver) (x : Session × Receiver) {endpoint : Text}
    → (guarded own lacks secure refused r x).0 ≡ polls endpoint
    → (own ≡ true) × (lacks ≡ false) × (secure ≡ true) × (guarded own lacks secure refused r x ≡ x)
guards-pass false lacks secure refused r x h = absurd (cc)
guards-pass true true secure refused r x h = absurd (cc)
guards-pass true false false refused r x h = absurd (cc)
guards-pass true false true true r x h = absurd (cc)
guards-pass true false true false r x h = (refl, refl, refl, refl)

secure-parts :
    (a b c : Text)
    → (null a || null b) ≡ false
    → all secure_or_empty (a ∷ b ∷ c ∷ []) ≡ true
    → (https a ≡ true) × (https b ≡ true) × (secure_or_empty c ≡ true)
secure-parts a b c h k = parts (null a) (https a) (null b) (https b) (secure_or_empty c) h k
  where
    parts :
        (p q r s z : Bool)
        → (p || r) ≡ false
        → ((p || q) && ((r || s) && (z && true))) ≡ true
        → (q ≡ true) × (s ≡ true) × (z ≡ true)
    parts true q r s z h k = absurd (cc)
    parts false q true s z h k = absurd (cc)
    parts false q false s z h k = ground arith

secure_parts : (u : Text) → secure_or_empty u ≡ true → (u ≡ []) ⊎ (https u ≡ true)
secure_parts u h = elim (Bool-cases (null u)) [
  | inl n ↦ inl (null-nil u n)
  | inr n ↦ inr (ground arith)
]

after_discovery-polls :
    (authenticated : Bool) (token_url : Text) (t : Transmitter) (r : Receiver)
    (c : TransmitterConfig) {endpoint : Text}
    → t.discovery ≡ some c
    → (after_discovery authenticated token_url t r (some c)).0 ≡ polls endpoint
    → IsPinned t r (after_discovery authenticated token_url t r (some c)).1 endpoint
after_discovery-polls authenticated token_url t r c {endpoint} found h =
    let ready : Bool × Receiver = refresh_keys t.moment true r in
    let (own, lacks, secure, same) =
      guards-pass (c.issuer == r.transmitter) (null c.jwks_uri || null c.configuration_endpoint)
        (all secure_or_empty (c.jwks_uri ∷ c.configuration_endpoint ∷ c.status_endpoint ∷ []))
        (not authenticated && not (client_credentials token_url t)) r (after_keys c t ready) h in
    let (keys, streams, status) =
      secure-parts c.jwks_uri c.configuration_endpoint c.status_endpoint lacks secure in
    let (ok, poll, stream, on) =
      after_keys-polls c t ready (subst (λ z. z.0 ≡ polls endpoint) same h) in
    let kept = refresh_keys-SameStore t.moment true r in
    subst (λ z. IsPinned t r z.1 endpoint) (sym same)
      (record {
        config = c;
        discovered = found;
        own = (list_eq_iff c.issuer r.transmitter).0 own;
        keys_secure = keys;
        streams_secure = streams;
        status_secure = secure_parts c.status_endpoint status;
        poll_secure = poll;
        fetched = refresh_keys-forced t.moment r ok;
        stream =
            subst (λ s. IsStream t s.stream (after_keys c t ready).1.store.stream endpoint)
              kept.store stream;
        enabled = on;
      })

-- A session polls only where the configuration that it found names the transmitter it was set up
-- with, the keys, the streams, their status and the poll are all reached over https, the keys were
-- fetched, the endpoint is the one that the transmitter gave for the stream that the store then
-- names, and the transmitter, where the status of that stream can be asked, answers that it is
-- enabled or no status.
pub session-IsPinned :
    (authenticated : Bool) (token_url : Text) (t : Transmitter) (r : Receiver) (endpoint : Text)
    → (session authenticated token_url t r).0 ≡ polls endpoint
    → IsPinned t r (session authenticated token_url t r).1 endpoint
unfolding session
session-IsPinned authenticated token_url t r endpoint h = go t.discovery refl h
  where
    go :
        (o : Option TransmitterConfig)
        → t.discovery ≡ o
        → (after_discovery authenticated token_url t r o).0 ≡ polls endpoint
        → IsPinned t r (after_discovery authenticated token_url t r o).1 endpoint
    go none q h = absurd (cc)
    go (some c) q h = after_discovery-polls authenticated token_url t r c q h
