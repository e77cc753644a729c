-- ===== src/Signals/Accepted.antt =====
-- What a round of polling that is accepted has done with every event it brought (ssf.go), and what that
-- is worth afterwards.
use fileshare.Prelude.{
  ℕ, ◌+◌, ◌≤◌, ◌<◌, ◌≡◌, refl, sym, ap, ◌∙◌, subst, ◌≢◌, inl, inr, Bool, true, false, Option, none,
  some, List, [], ◌∷◌, Memᴰ, Bool-cases, ℕ_eq, List_eq, All, contains, Text,
}
use fileshare.Signals.{save, revoke, person_keys, check}
use fileshare.Signals.Subjects.{Reading, refused, ignored, revokes, parse_revocation}
use fileshare.Signals.Receiver.{
  Key, Receiver, Verifier, Moment, verify_set, keep_reading, keep_payload, take_set, take_sets,
  sets, accepted, heard_if, round_trip,
}
use fileshare.Signals.Kept.{Remembers, revoke-kept, heard_from-Remembers, check-refuses}
use fileshare.Signals.Verified.{SameStore, verify_set-SameStore, Genuine, verify_set-Genuine}
use fileshare.Signals.Rounds.{Reach, take_sets-Remembers, Reach-Remembers}
use fileshare.Signals.Times.{parse_revocation-positive}

-- A receiver of these settings.
record HasSettings (transmitter audience : Text) (retain : ℕ) (r : Receiver) : Type 0 where
  pub from : r.transmitter ≡ transmitter
  pub to : r.audience ≡ audience
  pub keeps : r.store.retain ≡ retain

module _ {transmitter audience : Text} {retain : ℕ} where
  keep_reading-HasSettings :
      (m : Moment) (x : Reading) (r : Receiver)
      → HasSettings transmitter audience retain r
      → HasSettings transmitter audience retain (keep_reading m x r).1
  unfolding keep_reading revoke save
  keep_reading-HasSettings m refused r h = h
  keep_reading-HasSettings m ignored r h = h
  keep_reading-HasSettings m (revokes only keys at) r h = elim (Bool-cases m.writes) [
    | inl e ↦ record { from = h.from; to = h.to; keeps = rw e h.keeps }
    | inr e ↦ record { from = h.from; to = h.to; keeps = rw e h.keeps }
  ]

  SameStore-HasSettings :
      {r r' : Receiver}
      → SameStore r r'
      → HasSettings transmitter audience retain r
      → HasSettings transmitter audience retain r'
  SameStore-HasSettings same h = record {
    from = same.transmitter ∙ h.from;
    to = same.audience ∙ h.to;
    keeps = ap (λ s. s.retain) same.store ∙ h.keeps;
  }

  keep_payload-HasSettings :
      (v : Verifier) (m : Moment) (x : Option Text × Receiver)
      → HasSettings transmitter audience retain x.1
      → HasSettings transmitter audience retain (keep_payload v m x).1
  keep_payload-HasSettings v m (none, r) h = h
  keep_payload-HasSettings v m (some p, r) h =
      keep_reading-HasSettings m (parse_revocation v.decoders r.transmitter r.audience p) r h

  take_set-HasSettings :
      (v : Verifier) (m : Moment) (jws : Text) (r : Receiver)
      → HasSettings transmitter audience retain r
      → HasSettings transmitter audience retain (take_set v m jws r).1
  unfolding take_set
  take_set-HasSettings v m jws r h =
      keep_payload-HasSettings v m (verify_set v m jws r)
        (SameStore-HasSettings (verify_set-SameStore v m jws r) h)

  -- An event that was taken verified, and what it revokes is remembered.
  module _ (v : Verifier) (jws : Text) {only : Bool} {keys : List Text} {t : ℕ}
      (says : (ks : List Key) (p : Text)
        → v.opens ks jws ≡ some p
        → parse_revocation v.decoders transmitter audience p ≡ revokes only keys t) where
    keep_payload-kept :
        (m : Moment) (k : Text) (x : Option Text × Receiver)
        → ((p : Text) → x.0 ≡ some p → Genuine v jws p)
        → HasSettings transmitter audience retain x.1
        → m.now ≤ t + retain
        → contains keys k ≡ true
        → (keep_payload v m x).0 ≡ true
        → Remembers k t retain (keep_payload v m x).1.store × (0 < t)
    unfolding keep_reading
    keep_payload-kept m k (none, r) genuine h le mem ok = absurd (cc)
    keep_payload-kept m k (some p, r) genuine h le mem ok =
        let g = genuine p refl in
        let said = says g.keys p g.opened in
        let reads : parse_revocation v.decoders r.transmitter r.audience p ≡ revokes only keys t =
          rw (h.from) (rw (h.to) said) in
        let later = parse_revocation-positive v.decoders transmitter audience p said in
        (
          rw reads (revoke-kept m.now keys m.writes r.store later le h.keeps mem (rw reads at ok)),
          later,
        )

    take_set-kept :
        (m : Moment) (k : Text) (r : Receiver)
        → HasSettings transmitter audience retain r
        → m.now ≤ t + retain
        → contains keys k ≡ true
        → (take_set v m jws r).0 ≡ true
        → Remembers k t retain (take_set v m jws r).1.store × (0 < t)
    unfolding take_set
    take_set-kept m k r h =
        keep_payload-kept m k (verify_set v m jws r) (λ p e. verify_set-Genuine v m jws r e)
          (SameStore-HasSettings (verify_set-SameStore v m jws r) h)

    head-kept :
        (m : Moment) (k : Text) (q : Text × Moment) (ss : List (Text × Moment)) (r : Receiver)
        → HasSettings transmitter audience retain r
        → All (λ p. p.1.now ≤ t + retain) (q ∷ ss)
        → (jws, m) ≡ q
        → contains keys k ≡ true
        → (take_set v q.1 q.0 r).0 ≡ true
        → Remembers k t retain (take_sets v ss (take_set v q.1 q.0 r).1).1.store × (0 < t)
    head-kept m k q ss r h le e mem good =
        let le' = subst (λ p. p.1.now ≤ t + retain) (sym e) le.0 in
        let (first, later) =
          take_set-kept m k r h le' mem
            (subst (λ p. (take_set v p.1 p.0 r).0 ≡ true) (sym e) good) in
        subst
          (λ p. Remembers k t retain (take_sets v ss (take_set v p.1 p.0 r).1).1.store × (0 < t)) e
          (take_sets-Remembers later v ss (take_set v m jws r).1 le.1 first, later)

    take_sets-kept :
        (m : Moment) (k : Text) (ss : List (Text × Moment)) (r : Receiver)
        → HasSettings transmitter audience retain r
        → All (λ p. p.1.now ≤ t + retain) ss
        → Memᴰ (jws, m) ss
        → contains keys k ≡ true
        → (take_sets v ss r).0 ≡ true
        → Remembers k t retain (take_sets v ss r).1.store × (0 < t)
    unfolding take_sets
    take_sets-kept m k [] r h le at mem ok = elim at [ ]
    take_sets-kept m k ((j, n) ∷ ss) r h le (Memᴰ.head e) mem ok =
        elim (Bool-cases (take_set v n j r).0) [
          | inr bad ↦ absurd (cc (rw bad at ok))
          | inl good ↦ rw good (head-kept m k (j, n) ss r h le e mem good)
        ]
    take_sets-kept m k ((j, n) ∷ ss) r h le (Memᴰ.tail at) mem ok =
        elim (Bool-cases (take_set v n j r).0) [
          | inr bad ↦ absurd (cc (rw bad at ok))
          | inl good ↦ rw good (
              take_sets-kept m k ss (take_set v n j r).1 (take_set-HasSettings v n j r h) le.1 at
                mem (rw good at ok))
        ]

    round_trip-kept :
        (now : ℕ) (m : Moment) (k : Text) (ss : List (Text × Moment)) (r : Receiver)
        → HasSettings transmitter audience retain r
        → All (λ p. p.1.now ≤ t + retain) ss
        → Memᴰ (jws, m) ss
        → contains keys k ≡ true
        → (round_trip v now (sets ss) r).0 ≡ accepted
        → Remembers k t retain (round_trip v now (sets ss) r).1.store × (0 < t)
    unfolding round_trip
    round_trip-kept now m k ss r h le at mem ok =
        finish (take_sets v ss r) (take_sets-kept m k ss r h le at mem) ok
      where
        finish :
            (x : Bool × Receiver)
            → (x.0 ≡ true → Remembers k t retain x.1.store × (0 < t))
            → (heard_if now x).0 ≡ accepted
            → Remembers k t retain (heard_if now x).1.store × (0 < t)
        finish (false, r') kept ok = absurd (cc)
        finish (true, r') kept ok =
            let (h, later) = kept refl in (heard_from-Remembers now h, later)

-- A round of polling was accepted that brought a SET which, by whatever keys it verifies, revokes
-- some keys since a time. Until that time is longer ago than `retain`, whatever follows, rounds and
-- deliveries that fail or do not, sessions and restarts from the state file, check refuses every
-- credential of a person whom one of those keys names that was issued no later than that time, or
-- whose time of issue is not known.
pub round_trip-check :
    (v : Verifier) (now : ℕ) (ss : List (Text × Moment)) (r : Receiver) (jws : Text) (m : Moment)
    (only : Bool) (keys : List Text) (t : ℕ) (k : Text) {b : Receiver} (when : ℕ)
    (name iss sub : Text) (issued : ℕ)
    → ((ks : List Key) (p : Text)
        → v.opens ks jws ≡ some p
        → parse_revocation v.decoders r.transmitter r.audience p ≡ revokes only keys t)
    → Memᴰ (jws, m) ss
    → contains keys k ≡ true
    → All (λ p. p.1.now ≤ t + r.store.retain) ss
    → (round_trip v now (sets ss) r).0 ≡ accepted
    → Reach v (t + r.store.retain) (round_trip v now (sets ss) r).1 b
    → contains (person_keys name iss sub) k ≡ true
    → issued ≤ t
    → check when name iss sub issued b.store ≢ none
round_trip-check v now ss r jws m only keys t k when name iss sub issued says at mem le ok steps
      names before =
    let (kept, later) =
      round_trip-kept v jws says now m k ss r (record { from = refl; to = refl; keeps = refl }) le
        at mem ok in
    check-refuses when name iss sub issued later (Reach-Remembers later steps kept) names before
