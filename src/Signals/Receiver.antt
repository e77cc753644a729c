-- ===== src/Signals/Receiver.antt =====
-- ssf.go: how security events are verified and kept (publicKeys, refreshKeys, Verify,
-- consumingTransport, deliver). The JWS check, the decoders and what the transmitter answers are
-- arguments.
use fileshare.Prelude.{
  ℕ, ◌-◌, Bool, true, false, not, ◌&&◌, Option, none, some, List, [], ◌∷◌, ltb, if◌then◌else◌, ℕ_eq,
  List_eq, length, delete_if, null, Text, cut,
}
use fileshare.Signals.{Entry, SignalStore, since_of, put_entry, revoke, heard_from}
use fileshare.Signals.Subjects.{Decoders, Reading, refused, ignored, revokes, parse_revocation}
use fileshare.Signals.Settings.{minute}

-- A key of a set, as far as it is looked at: an HMAC secret, whether it is valid, and public.
pub record Key : Type 0 where
  pub id : ℕ
  pub symmetric : Bool
  pub valid : Bool
  pub public : Bool

abbrev pub is_usable : Key → Bool
is_usable k = not k.symmetric && (k.valid && k.public)

-- `publicKeys`
unfoldable pub public_keys : List Key → List Key
public_keys ks = delete_if (λ k. not (is_usable k)) ks

-- `tried` has the kids that keys were fetched for, and when.
pub record Receiver : Type 0 where
  pub transmitter : Text
  pub audience : Text
  pub keys : List Key
  pub last : ℕ
  pub tried : List Entry
  pub store : SignalStore

-- The JWS check with a set of keys, which gives the payload; the text of a header; its kid, empty
-- where there is none.
pub record Verifier : Type 0 where
  pub opens : List Key → Text → Option Text
  pub header : Text → Option Text
  pub kid : Text → Text
  pub decoders : Decoders

-- What the handling of one SET meets: the time, the key set that the transmitter would answer, and
-- whether the file can be written.
pub record Moment : Type 0 where
  pub now : ℕ
  pub fetched : Option (List Key)
  pub writes : Bool

-- `jwsKeyID`
unfoldable pub jws_key_id : Verifier → Text → Text
jws_key_id v jws = elim (cut b'.' jws) [
  | none ↦ []
  | some (h, rest) ↦ elim (v.header h) [ none ↦ [] | some header ↦ v.kid header ]
]

abbrev pub set_keys : ℕ → Option (List Key) → Receiver → Bool × Receiver
set_keys now none r = (false, r)
set_keys now (some ks) r = (true, record r { keys = public_keys ks; last = now })

-- `refreshKeys`, and whether it answered no error.
unfoldable pub refresh_keys : Moment → Bool → Receiver → Bool × Receiver
unfolding public_keys
refresh_keys m force r =
    if not force && ltb (m.now - r.last) minute then (true, r) else set_keys m.now m.fetched r

-- The kids tried, forgotten where they are too many.
abbrev pub tried_kids : Receiver → List Entry
tried_kids r = if ltb 1024 (length r.tried) then [] else r.tried

-- Whether the keys are to be fetched for this kid whatever the limit says.
unfoldable pub try_kid : ℕ → Text → Receiver → Bool × Receiver
try_kid now kid r =
    let tried = tried_kids r in
    if null kid
    then (false, r)
    else if ltb minute (now - since_of kid tried)
    then (true, record r { tried = put_entry kid now tried })
    else (false, record r { tried = tried })

abbrev pub verify_again : Verifier → Text → Bool × Receiver → Option Text × Receiver
verify_again v jws (true, r) = (v.opens (public_keys r.keys) jws, r)
verify_again v jws (false, r) = (none, r)

abbrev pub fetch_for : Moment → Bool × Receiver → Bool × Receiver
fetch_for m (force, r) = refresh_keys m force r

abbrev pub verify_with : Verifier → Moment → Text → Receiver → Option Text → Option Text × Receiver
verify_with v m jws r (some payload) = (some payload, r)
verify_with v m jws r none = verify_again v jws (fetch_for m (try_kid m.now (jws_key_id v jws) r))

-- `Verify`
unfoldable pub verify_set : Verifier → Moment → Text → Receiver → Option Text × Receiver
unfolding public_keys refresh_keys try_kid
verify_set v m jws r = verify_with v m jws r (v.opens (public_keys r.keys) jws)

abbrev pub put_store : Receiver → Bool × SignalStore → Bool × Receiver
put_store r (ok, s) = (ok, record r { store = s })

-- What a round does with what a SET says.
unfoldable pub keep_reading : Moment → Reading → Receiver → Bool × Receiver
unfolding revoke
keep_reading m refused r = (true, r)
keep_reading m ignored r = (true, r)
keep_reading m (revokes only keys at) r = put_store r (revoke m.writes m.now keys at r.store)

abbrev pub keep_payload : Verifier → Moment → Option Text × Receiver → Bool × Receiver
keep_payload v m (none, r) = (false, r)
keep_payload v m (some payload, r) =
    keep_reading m (parse_revocation v.decoders r.transmitter r.audience payload) r

-- The body of the loop over the SETs of a poll, false where it fails the round.
unfoldable pub take_set : Verifier → Moment → Text → Receiver → Bool × Receiver
unfolding verify_set keep_reading
take_set v m jws r = keep_payload v m (verify_set v m jws r)

-- The loop, over the SETs in the order that the map gives them.
unfoldable pub take_sets : Verifier → List (Text × Moment) → Receiver → Bool × Receiver
unfolding take_set
take_sets v [] r = (true, r)
take_sets v ((jws, m) ∷ later) r =
    let (ok, r') = take_set v m jws r in
    let rest = take_sets v later r' in if ok then rest else (false, r')

-- The answer to a poll; `unreadable` is a body that breaks off or is no JSON.
pub data PollAnswer : Type 0 where
  no_answer other_status unreadable : PollAnswer
  sets : List (Text × Moment) → PollAnswer

-- What the poller gets: an error, the response as it came, or the response of a round accepted.
pub data Round : Type 0 where
  failed passed_on accepted : Round

abbrev pub heard_if : ℕ → Bool × Receiver → Round × Receiver
heard_if now (false, r) = (failed, r)
heard_if now (true, r) = (accepted, record r { store = heard_from now r.store })

-- `consumingTransport.RoundTrip`
unfoldable pub round_trip : Verifier → ℕ → PollAnswer → Receiver → Round × Receiver
unfolding take_sets heard_from
round_trip v now no_answer r = (failed, r)
round_trip v now other_status r = (passed_on, r)
round_trip v now unreadable r = (failed, r)
round_trip v now (sets ss) r = heard_if now (take_sets v ss r)

-- What the sink answers the poller: done, an error for good, or one to try again.
pub data Delivery : Type 0 where
  delivered refused_for_good to_retry : Delivery

abbrev pub after_revoke : Receiver → Bool × SignalStore → Delivery × Receiver
after_revoke r (true, s) = (delivered, record r { store = s })
after_revoke r (false, s) = (to_retry, record r { store = s })

abbrev pub deliver_reading : Moment → Reading → Receiver → Delivery × Receiver
deliver_reading m refused r = (refused_for_good, r)
deliver_reading m ignored r = (delivered, r)
deliver_reading m (revokes only keys at) r = after_revoke r (revoke m.writes m.now keys at r.store)

-- `deliver`
unfoldable pub deliver : Verifier → Moment → Text → Receiver → Delivery × Receiver
unfolding revoke parse_revocation
deliver v m payload r =
    deliver_reading m (parse_revocation v.decoders r.transmitter r.audience payload) r
