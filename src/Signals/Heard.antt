-- ===== src/Signals/Heard.antt =====
-- How a receiver comes to rely on its transmitter (ssf.go, caep.go): only by a round of polling that was
-- accepted.
use fileshare.Prelude.{
  ℕ, ◌-◌, ◌≤◌, ◌≡◌, refl, ◌⊎◌, inl, inr, Bool, true, false, Option, none, some, List, [], ◌∷◌,
  arith, Bool-cases, ℕ_eq, List_eq, All, Text,
}
use fileshare.Signals.{
  StoreFile, absent, broken, stored, SignalStore, open_store, save, revoke, set_stream, heard_from,
  check,
}
use fileshare.Signals.Receiver.{
  Receiver, Verifier, Moment, verify_set, keep_payload, take_set, take_sets, sets, accepted,
  heard_if, round_trip,
}
use fileshare.Signals.Sessions.Keeps.{session-keeps}
use fileshare.Signals.Entries.{check_iff}
use fileshare.Signals.Verified.{Genuine, verify_set-Genuine}
use fileshare.Signals.Rounds.{
  take_sets-keeps, deliver-keeps, is_polled, is_given, begins_session, restarts, Reach, here, next,
}

revoke-heard :
    {h : ℕ} (writes : Bool) (now : ℕ) (keys : List Text) (at : ℕ) (s : SignalStore)
    → s.heard ≡ h
    → (revoke writes now keys at s).1.heard ≡ h
unfolding revoke save
revoke-heard true now keys at s e = e
revoke-heard false now keys at s e = e

set_stream-heard :
    {h : ℕ} (writes : Bool) (id : Text) (s : SignalStore)
    → s.heard ≡ h
    → (set_stream writes id s).1.heard ≡ h
unfolding set_stream save
set_stream-heard true id s e = e
set_stream-heard false id s e = e

open_store-heard :
    (retain max_age : ℕ) (f : StoreFile) {s : SignalStore}
    → open_store retain max_age f ≡ some s
    → s.heard ≡ 0
unfolding open_store
open_store-heard retain max_age absent e = ground arith
open_store-heard retain max_age broken e = absurd (cc)
open_store-heard retain max_age (stored version stream es) e = ground arith

-- An accepted round at a time: every SET that it brought verified by public, asymmetric keys.
pub record Accepted (v : Verifier) (limit : ℕ) (r : Receiver) (now : ℕ) : Type 0 where
  pub before : Receiver
  pub brought : List (Text × Moment)
  pub reached : Reach v limit r before
  pub accepts : (round_trip v now (sets brought) before).0 ≡ accepted
  pub genuine : All (λ p. (payload : Text) × Genuine v p.0 payload) brought

take_set-Genuine :
    (v : Verifier) (m : Moment) (jws : Text) (r : Receiver)
    → (take_set v m jws r).0 ≡ true
    → (payload : Text) × Genuine v jws payload
unfolding take_set
take_set-Genuine v m jws r ok = go (verify_set v m jws r) (λ p e. verify_set-Genuine v m jws r e) ok
  where
    go :
        (x : Option Text × Receiver)
        → ((p : Text) → x.0 ≡ some p → Genuine v jws p)
        → (keep_payload v m x).0 ≡ true
        → (payload : Text) × Genuine v jws payload
    go (none, r') g ok = absurd (cc)
    go (some p, r') g ok = (p, g p refl)

take_sets-Genuine :
    (v : Verifier) (ss : List (Text × Moment)) (r : Receiver)
    → (take_sets v ss r).0 ≡ true
    → All (λ p. (payload : Text) × Genuine v p.0 payload) ss
unfolding take_sets
take_sets-Genuine v [] r ok = tt
take_sets-Genuine v ((jws, m) ∷ ss) r ok = elim (Bool-cases (take_set v m jws r).0) [
  | inr bad ↦ absurd (cc (rw bad at ok))
  | inl good ↦ (
    take_set-Genuine v m jws r good,
    take_sets-Genuine v ss (take_set v m jws r).1 (rw good at ok),
  )
]

-- What a round does to the time that the transmitter was heard from.
round_trip-heard :
    (v : Verifier) (limit now : ℕ) (ss : List (Text × Moment)) (r : Receiver)
    → All (λ p. p.1.now ≤ limit) ss
    → ((round_trip v now (sets ss) r).1.store.heard ≡ r.store.heard)
      ⊎ (((round_trip v now (sets ss) r).1.store.heard ≡ now)
          × ((round_trip v now (sets ss) r).0 ≡ accepted)
          × All (λ p. (payload : Text) × Genuine v p.0 payload) ss)
unfolding round_trip heard_from
round_trip-heard v limit now ss r le =
    go (take_sets v ss r)
      (take_sets-keeps (λ s. s.heard ≡ r.store.heard) limit
        (λ w n ks a s le e. revoke-heard w n ks a s e) v ss r le refl)
      (take_sets-Genuine v ss r)
  where
    go :
        (x : Bool × Receiver)
        → x.1.store.heard ≡ r.store.heard
        → (x.0 ≡ true → All (λ p. (payload : Text) × Genuine v p.0 payload) ss)
        → ((heard_if now x).1.store.heard ≡ r.store.heard)
          ⊎ (((heard_if now x).1.store.heard ≡ now)
              × ((heard_if now x).0 ≡ accepted)
              × All (λ p. (payload : Text) × Genuine v p.0 payload) ss)
    go (false, r') e g = inl e
    go (true, r') e g = inr (refl, refl, g refl)

module _ {v : Verifier} {limit : ℕ} {r : Receiver} where
  -- A receiver that has not heard, or did so in a round it accepted.
  Reach-heard :
      {b : Receiver}
      → r.store.heard ≡ 0
      → Reach v limit r b
      → (b.store.heard ≡ 0) ⊎ Accepted v limit r b.store.heard
  Reach-heard fresh here = inl fresh
  Reach-heard fresh (next steps (is_polled a now ss le)) =
      elim (round_trip-heard v limit now ss a le) [
        | inl same ↦ rw same (Reach-heard fresh steps)
        | inr (e, ok, genuine) ↦ inr (
            rw e (record {
              before = a;
              brought = ss;
              reached = steps;
              accepts = ok;
              genuine = genuine;
            }))
      ]
  Reach-heard fresh (next steps (is_given a m payload le)) =
      let same =
        deliver-keeps (λ s. s.heard ≡ a.store.heard) limit
          (λ w n ks t s le e. revoke-heard w n ks t s e) v m payload a le refl in
      rw same (Reach-heard fresh steps)
  Reach-heard fresh (next steps (begins_session a authenticated token_url x)) =
      let same =
        session-keeps (λ s. s.heard ≡ a.store.heard) (λ w id s e. set_stream-heard w id s e)
          authenticated token_url x a refl in
      rw same (Reach-heard fresh steps)
  Reach-heard fresh (next steps (restarts a max_age s e)) =
      inl (open_store-heard a.store.retain max_age a.store.file e)

  -- Started without having heard from the transmitter, whatever rounds, deliveries, sessions and
  -- restarts follow, check lets a credential through only if a round of polling was accepted no longer
  -- than max_age ago, and every SET which that round brought verified by a set of public, asymmetric
  -- keys.
  pub Reach-check :
      {b : Receiver} (when : ℕ) (name iss sub : Text) (issued : ℕ)
      → r.store.heard ≡ 0
      → Reach v limit r b
      → check when name iss sub issued b.store ≡ none
      → (now : ℕ) × Accepted v limit r now × (when - now ≤ b.store.max_age)
  Reach-check {b} when name iss sub issued fresh steps ok =
      let (some_time, recent, spared) = (check_iff when name iss sub issued b.store).0 ok in
      elim (Reach-heard fresh steps) [
        | inl never ↦ absurd (omega arith)
        | inr found ↦ (b.store.heard, found, recent)
      ]
