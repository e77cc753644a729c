-- ===== src/Signals/Rounds.antt =====
-- That a revocation stays remembered whatever rounds, deliveries, sessions and restarts follow (ssf.go,
-- caep.go).
use fileshare.Prelude.{
  ℕ, ◌+◌, ◌≤◌, ◌<◌, ◌≡◌, sym, subst, inl, inr, Bool, true, false, Option, none, some, List, [], ◌∷◌,
  Bool-cases, ℕ_eq, List_eq, All, Text,
}
use fileshare.Signals.{SignalStore, open_store, revoke}
use fileshare.Signals.Subjects.{Reading, refused, ignored, revokes, parse_revocation}
use fileshare.Signals.Receiver.{
  Receiver, Verifier, Moment, verify_set, keep_reading, keep_payload, take_set, take_sets, sets,
  heard_if, round_trip, after_revoke, deliver_reading, deliver,
}
use fileshare.Signals.Sessions.{Transmitter, session}
use fileshare.Signals.Sessions.Keeps.{session-keeps}
use fileshare.Signals.Kept.{
  Remembers, revoke-Remembers, set_stream-Remembers, heard_from-Remembers, open_store-Remembers,
}
use fileshare.Signals.Verified.{verify_set-SameStore}

-- A claim on stores that writing down a revocation until some time keeps.
module _ (P : SignalStore → Type 0) (limit : ℕ)
    (closed : (writes : Bool) (now : ℕ) (keys : List Text) (at : ℕ) (s : SignalStore)
      → now ≤ limit
      → P s
      → P (revoke writes now keys at s).1) where
  keep_reading-keeps :
      (m : Moment) (x : Reading) (r : Receiver)
      → m.now ≤ limit
      → P r.store
      → P (keep_reading m x r).1.store
  unfolding keep_reading
  keep_reading-keeps m refused r le h = h
  keep_reading-keeps m ignored r le h = h
  keep_reading-keeps m (revokes only keys at) r le h = closed m.writes m.now keys at r.store le h

  keep_payload-keeps :
      (v : Verifier) (m : Moment) (x : Option Text × Receiver)
      → m.now ≤ limit
      → P x.1.store
      → P (keep_payload v m x).1.store
  keep_payload-keeps v m (none, r) le h = h
  keep_payload-keeps v m (some p, r) le h =
      keep_reading-keeps m (parse_revocation v.decoders r.transmitter r.audience p) r le h

  take_set-keeps :
      (v : Verifier) (m : Moment) (jws : Text) (r : Receiver)
      → m.now ≤ limit
      → P r.store
      → P (take_set v m jws r).1.store
  unfolding take_set
  take_set-keeps v m jws r le h =
      let same = verify_set-SameStore v m jws r in
      keep_payload-keeps v m (verify_set v m jws r) le (subst P (sym same.store) h)

  pub take_sets-keeps :
      (v : Verifier) (ss : List (Text × Moment)) (r : Receiver)
      → All (λ p. p.1.now ≤ limit) ss
      → P r.store
      → P (take_sets v ss r).1.store
  unfolding take_sets
  take_sets-keeps v [] r le h = h
  take_sets-keeps v ((jws, m) ∷ ss) r le h =
      let first = take_set-keeps v m jws r le.0 h in
      elim (Bool-cases (take_set v m jws r).0) [
        | inl e ↦ rw e (take_sets-keeps v ss (take_set v m jws r).1 le.1 first)
        | inr e ↦ rw e first
      ]

  pub deliver-keeps :
      (v : Verifier) (m : Moment) (payload : Text) (r : Receiver)
      → m.now ≤ limit
      → P r.store
      → P (deliver v m payload r).1.store
  unfolding deliver
  deliver-keeps v m payload r le h =
      go (parse_revocation v.decoders r.transmitter r.audience payload)
    where
      written : (x : Bool × SignalStore) → P x.1 → P (after_revoke r x).1.store
      written (true, s) h = h
      written (false, s) h = h

      go : (x : Reading) → P (deliver_reading m x r).1.store
      go refused = h
      go ignored = h
      go (revokes only keys at) =
          written (revoke m.writes m.now keys at r.store)
            (closed m.writes m.now keys at r.store le h)

-- What a receiver does until a time, in any order: it polls, with any answers, the sink gets
-- payloads, sessions begin, and the process starts again with what its file holds.
pub data Step (v : Verifier) (limit : ℕ) : Receiver → Receiver → Type 0 where
  is_polled :
      (r : Receiver) (now : ℕ) (ss : List (Text × Moment))
      → All (λ p. p.1.now ≤ limit) ss
      → Step v limit r (round_trip v now (sets ss) r).1
  is_given :
      (r : Receiver) (m : Moment) (payload : Text)
      → m.now ≤ limit
      → Step v limit r (deliver v m payload r).1
  begins_session :
      (r : Receiver) (authenticated : Bool) (token_url : Text) (x : Transmitter)
      → Step v limit r (session authenticated token_url x r).1
  restarts :
      (r : Receiver) (max_age : ℕ) (s : SignalStore)
      → open_store r.store.retain max_age r.store.file ≡ some s
      → Step v limit r (record r { keys = []; last = 0; tried = []; store = s })

pub data Reach (v : Verifier) (limit : ℕ) (r : Receiver) : Receiver → Type 0 where
  here : Reach v limit r r
  next : {a b : Receiver} → Reach v limit r a → Step v limit a b → Reach v limit r b

module _ {k : Text} {t retain : ℕ} (later : 0 < t) where
  closed :
      (writes : Bool) (now : ℕ) (keys : List Text) (at : ℕ) (s : SignalStore)
      → now ≤ t + retain
      → Remembers k t retain s
      → Remembers k t retain (revoke writes now keys at s).1
  closed writes now keys at s le h = revoke-Remembers writes now keys at later le h

  pub take_sets-Remembers :
      (v : Verifier) (ss : List (Text × Moment)) (r : Receiver)
      → All (λ p. p.1.now ≤ t + retain) ss
      → Remembers k t retain r.store
      → Remembers k t retain (take_sets v ss r).1.store
  take_sets-Remembers = take_sets-keeps (Remembers k t retain) (t + retain) closed

  round_trip-Remembers :
      (v : Verifier) (now : ℕ) (ss : List (Text × Moment)) (r : Receiver)
      → All (λ p. p.1.now ≤ t + retain) ss
      → Remembers k t retain r.store
      → Remembers k t retain (round_trip v now (sets ss) r).1.store
  unfolding round_trip
  round_trip-Remembers v now ss r le h = finish (take_sets v ss r) (take_sets-Remembers v ss r le h)
    where
      finish :
          (x : Bool × Receiver)
          → Remembers k t retain x.1.store
          → Remembers k t retain (heard_if now x).1.store
      finish (false, r') h = h
      finish (true, r') h = heard_from-Remembers now h

module _ {k : Text} {t retain : ℕ} (later : 0 < t) {v : Verifier} where
  Step-Remembers :
      {a b : Receiver}
      → Step v (t + retain) a b
      → Remembers k t retain a.store
      → Remembers k t retain b.store
  Step-Remembers (is_polled r now ss le) h = round_trip-Remembers later v now ss r le h
  Step-Remembers (is_given r m payload le) h =
      deliver-keeps (Remembers k t retain) (t + retain) (closed later) v m payload r le h
  Step-Remembers (begins_session r authenticated token_url x) h =
      session-keeps (Remembers k t retain) (λ w id s h. set_stream-Remembers w id h) authenticated
        token_url x r h
  Step-Remembers (restarts r max_age s e) h =
      open_store-Remembers max_age r.store.file h.filed
        (subst (λ n. open_store n max_age r.store.file ≡ some s) h.keeps e)

  pub Reach-Remembers :
      {a b : Receiver}
      → Reach v (t + retain) a b
      → Remembers k t retain a.store
      → Remembers k t retain b.store
  Reach-Remembers here h = h
  Reach-Remembers (next steps st) h = Step-Remembers st (Reach-Remembers steps h)
