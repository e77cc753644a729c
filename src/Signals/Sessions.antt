-- ===== src/Signals/Sessions.antt =====
-- ssf.go: what stands between a receiver and its first poll (clientCredentials, stream, session).
-- What the transmitter answers is an argument.
pub mod Keeps
pub mod Streams
pub mod Pinned
use fileshare.Prelude.{
  ℕ, ◌≡◌, refl, Bool, true, false, not, ◌&&◌, ◌||◌, Option, none, some, List, [], ◌∷◌, arith,
  if◌then◌else◌, ◌==◌, ℕ_eq, list_eq_iff, List_eq, all, null, Text, bytes, has_prefix,
}
use fileshare.Signals.{SignalStore, set_stream}
use fileshare.Signals.Settings.{https}
use fileshare.Signals.Receiver.{Receiver, Moment, refresh_keys, put_store}

-- The transmitter's configuration; an empty endpoint is none.
pub record TransmitterConfig : Type 0 where
  pub issuer : Text
  pub jwks_uri : Text
  pub configuration_endpoint : Text
  pub status_endpoint : Text

pub record StreamConfig : Type 0 where
  pub stream_id : Text
  pub endpoint_url : Text

-- What `call` answers: the status, 0 where nothing was answered, and what was decoded, `none` being
-- an error.
pub record Called (A : Type 0) : Type 0 where
  pub status : ℕ
  pub result : Option A

-- What one session meets: the configuration, the OpenID configuration's token endpoint, the token
-- asked of a token endpoint, the keys, the stream looked up and made, its status, and whether the
-- store's file can be written.
pub record Transmitter : Type 0 where
  pub discovery : Option TransmitterConfig
  pub openid : Option Text
  pub grants_token : Text → Bool
  pub moment : Moment
  pub looks_up : Text → Called StreamConfig
  pub makes : Called StreamConfig
  pub status_of : Text → Called Text
  pub writes : Bool

pub data SessionError : Type 0 where
  no_discovery other_issuer no_endpoints not_https no_token no_keys no_stream : SessionError
  poll_not_https no_status not_enabled : SessionError

pub data Session : Type 0 where
  ended : SessionError → Session
  polls : Text → Session

abbrev pub secure_or_empty : Text → Bool
secure_or_empty u = null u || https u

-- The token endpoint that clientCredentials asks: the block's, or the discovered one over https.
unfoldable pub token_endpoint : Text → Transmitter → Option Text
token_endpoint token_url t =
    if not (null token_url)
    then some token_url
    else elim t.openid [ none ↦ none | some u ↦ if null u || not (https u) then none else some u ]

-- `clientCredentials`, and whether it answered no error.
unfoldable pub client_credentials : Text → Transmitter → Bool
unfolding token_endpoint
client_credentials token_url t = elim (token_endpoint token_url t) [
  | none ↦ false
  | some u ↦ t.grants_token u
]

abbrev pub stored_stream : Text → Bool × Receiver → Option Text × Receiver
stored_stream endpoint (true, r) = (some endpoint, r)
stored_stream endpoint (false, r) = (none, r)

-- A stream that the transmitter made.
abbrev pub made_stream : Transmitter → Receiver → Option StreamConfig → Option Text × Receiver
made_stream t r none = (none, r)
made_stream t r (some c) =
    if null c.stream_id || null c.endpoint_url
    then (none, r)
    else stored_stream c.endpoint_url (put_store r (set_stream t.writes c.stream_id r.store))

-- The answer for the stream of the file: its endpoint, an error, or a stream to make.
abbrev pub held_stream : Transmitter → Receiver → Called StreamConfig → Option Text × Receiver
held_stream t r c = elim c.result [
  | some s ↦
      if not (null s.endpoint_url) then (some s.endpoint_url, r) else made_stream t r t.makes.result
  | none ↦ if c.status == 404 then made_stream t r t.makes.result else (none, r)
]

-- `stream`: the poll endpoint, `none` where it failed.
unfoldable pub stream_of : Transmitter → Receiver → Option Text × Receiver
unfolding set_stream
stream_of t r =
    if null r.store.stream
    then made_stream t r t.makes.result
    else held_stream t r (t.looks_up r.store.stream)

abbrev pub is_enabled : Text → Bool
is_enabled status = null status || status == bytes "enabled"

abbrev pub after_status : Text → Receiver → Option Text → Session × Receiver
after_status endpoint r none = (ended no_status, r)
after_status endpoint r (some status) =
    if is_enabled status then (polls endpoint, r) else (ended not_enabled, r)

abbrev pub after_stream :
    TransmitterConfig → Transmitter → Option Text × Receiver → Session × Receiver
after_stream c t (none, r) = (ended no_stream, r)
after_stream c t (some endpoint, r) =
    if not (https endpoint)
    then (ended poll_not_https, r)
    else if null c.status_endpoint
    then (polls endpoint, r)
    else after_status endpoint r (t.status_of r.store.stream).result

abbrev pub after_keys : TransmitterConfig → Transmitter → Bool × Receiver → Session × Receiver
after_keys c t (false, r) = (ended no_keys, r)
after_keys c t (true, r) = after_stream c t (stream_of t r)

abbrev pub after_discovery :
    Bool → Text → Transmitter → Receiver → Option TransmitterConfig → Session × Receiver
after_discovery authenticated token_url t r none = (ended no_discovery, r)
after_discovery authenticated token_url t r (some c) =
    if not (c.issuer == r.transmitter)
    then (ended other_issuer, r)
    else if null c.jwks_uri || null c.configuration_endpoint
    then (ended no_endpoints, r)
    else if not
        (all secure_or_empty (c.jwks_uri ∷ c.configuration_endpoint ∷ c.status_endpoint ∷ []))
    then (ended not_https, r)
    else if not authenticated && not (client_credentials token_url t)
    then (ended no_token, r)
    else after_keys c t (refresh_keys t.moment true r)

-- `session`, up to the poller; whether the receiver has its client already is an argument.
unfoldable pub session : Bool → Text → Transmitter → Receiver → Session × Receiver
unfolding stream_of client_credentials refresh_keys
session authenticated token_url t r = after_discovery authenticated token_url t r t.discovery
