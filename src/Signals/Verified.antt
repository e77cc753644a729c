-- ===== src/Signals/Verified.antt =====
-- What verifying a security event does to a receiver, and which events verify (ssf.go).
use fileshare.Prelude.{
  ℕ, ◌-◌, ◌≡◌, refl, ◌∙◌, inl, inr, Bool, true, false, not, ◌&&◌, Option, none, some, List, [], ◌∷◌,
  arith, ltb, Bool-cases, ℕ_eq, List_eq, all, null, Text,
}
use fileshare.Signals.{since_of}
use fileshare.Signals.Settings.{minute}
use fileshare.Signals.Receiver.{
  Key, is_usable, public_keys, Receiver, Verifier, Moment, jws_key_id, set_keys, refresh_keys,
  tried_kids, try_kid, verify_again, fetch_for, verify_with, verify_set,
}

-- What verifying leaves alone.
pub record SameStore (r r' : Receiver) : Type 0 where
  pub store : r'.store ≡ r.store
  pub transmitter : r'.transmitter ≡ r.transmitter
  pub audience : r'.audience ≡ r.audience

SameStore-refl : (r : Receiver) → SameStore r r
SameStore-refl r = record { store = refl; transmitter = refl; audience = refl }

set_keys-SameStore :
    (now : ℕ) (f : Option (List Key)) (r : Receiver) → SameStore r (set_keys now f r).1
set_keys-SameStore now none r = SameStore-refl r
set_keys-SameStore now (some ks) r = record { store = refl; transmitter = refl; audience = refl }

pub refresh_keys-SameStore :
    (m : Moment) (force : Bool) (r : Receiver) → SameStore r (refresh_keys m force r).1
unfolding refresh_keys
refresh_keys-SameStore m force r = elim (Bool-cases (not force && ltb (m.now - r.last) minute)) [
  | inl e ↦ rw e (SameStore-refl r)
  | inr e ↦ rw e (set_keys-SameStore m.now m.fetched r)
]

try_kid-SameStore : (now : ℕ) (kid : Text) (r : Receiver) → SameStore r (try_kid now kid r).1
unfolding try_kid
try_kid-SameStore now kid r = elim (Bool-cases (null kid)) [
  | inl e ↦ rw e (SameStore-refl r)
  | inr e ↦ elim (Bool-cases (ltb minute (now - since_of kid (tried_kids r)))) [
    | inl old ↦ rw e (rw old (record { store = refl; transmitter = refl; audience = refl }))
    | inr new ↦ rw e (rw new (record { store = refl; transmitter = refl; audience = refl }))
  ]
]

SameStore-trans : {a b c : Receiver} → SameStore a b → SameStore b c → SameStore a c
SameStore-trans p q = record {
  store = q.store ∙ p.store;
  transmitter = q.transmitter ∙ p.transmitter;
  audience = q.audience ∙ p.audience;
}

verify_again-SameStore :
    (v : Verifier) (jws : Text) (x : Bool × Receiver) {r : Receiver}
    → SameStore r x.1
    → SameStore r (verify_again v jws x).1
verify_again-SameStore v jws (true, r') h = h
verify_again-SameStore v jws (false, r') h = h

verify_with-SameStore :
    (v : Verifier) (m : Moment) (jws : Text) (r : Receiver) (o : Option Text)
    → SameStore r (verify_with v m jws r o).1
verify_with-SameStore v m jws r (some p) = SameStore-refl r
verify_with-SameStore v m jws r none =
    let tried = try_kid m.now (jws_key_id v jws) r in
    verify_again-SameStore v jws (fetch_for m tried) (
      SameStore-trans (try_kid-SameStore m.now (jws_key_id v jws) r)
        (refresh_keys-SameStore m tried.0 tried.1))

pub verify_set-SameStore :
    (v : Verifier) (m : Moment) (jws : Text) (r : Receiver) → SameStore r (verify_set v m jws r).1
unfolding verify_set
verify_set-SameStore v m jws r = verify_with-SameStore v m jws r (v.opens (public_keys r.keys) jws)

-- A payload that a set of public, asymmetric keys opens.
pub record Genuine (v : Verifier) (jws payload : Text) : Type 0 where
  pub keys : List Key
  pub usable : all is_usable keys ≡ true
  pub opened : v.opens keys jws ≡ some payload

pub public_keys-usable : (ks : List Key) → all is_usable (public_keys ks) ≡ true
unfolding public_keys
public_keys-usable [] = refl
public_keys-usable (k ∷ ks) = ground (arith, public_keys-usable ks)

by_public_keys :
    (v : Verifier) (jws : Text) (ks : List Key) {payload : Text}
    → v.opens (public_keys ks) jws ≡ some payload
    → Genuine v jws payload
by_public_keys v jws ks e = record {
  keys = public_keys ks;
  usable = public_keys-usable ks;
  opened = e;
}

verify_again-Genuine :
    (v : Verifier) (jws : Text) (x : Bool × Receiver) {payload : Text}
    → (verify_again v jws x).0 ≡ some payload
    → Genuine v jws payload
verify_again-Genuine v jws (true, r) e = by_public_keys v jws r.keys e
verify_again-Genuine v jws (false, r) e = absurd (cc)

-- Whatever keys were fetched, an event verifies by public, asymmetric keys only.
pub verify_set-Genuine :
    (v : Verifier) (m : Moment) (jws : Text) (r : Receiver) {payload : Text}
    → (verify_set v m jws r).0 ≡ some payload
    → Genuine v jws payload
unfolding verify_set
verify_set-Genuine v m jws r {payload} e = go (v.opens (public_keys r.keys) jws) refl e
  where
    go :
        (o : Option Text)
        → v.opens (public_keys r.keys) jws ≡ o
        → (verify_with v m jws r o).0 ≡ some payload
        → Genuine v jws payload
    go (some p) q e = by_public_keys v jws r.keys (q ∙ e)
    go none q e = verify_again-Genuine v jws (fetch_for m (try_kid m.now (jws_key_id v jws) r)) e
