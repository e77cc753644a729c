-- ===== src/Signals/Times.antt =====
-- Since when a security event revokes (caep.go): a time after the zero time, always.
use fileshare.Prelude.{
  ℕ, ◌<◌, ◌≡◌, refl, subst, inl, inr, Bool, false, not, ◌||◌, Option, none, some, List, arith,
  if◌then◌else◌, Bool-cases, Option-cases, ◌==◌, ℕ_eq, List_eq, any, null, Text,
}
use fileshare.Signals.Subjects.{
  Subject, keys_of, Claims, RevokedEvent, Float, Decoders, usable_time, event_time, audience_has,
  revokes, at_time, institution_keys, is_account, is_institution, read_subject, read_decoded,
  read_event, read_claims, parse_revocation,
}

-- Every time that an event gives is a time.
at_time-positive :
    (d : Decoders) (only : Bool) (keys : List Text) (iat event : Text) {only' : Bool}
    {keys' : List Text} {at : ℕ}
    → at_time only keys (event_time d iat event) ≡ revokes only' keys' at
    → 0 < at
unfolding event_time
at_time-positive d only keys iat event {only'} {keys'} {at} h =
    go (event_time d iat event) positive h
  where
    usable : (f : Option Float) {x : ℕ} → usable_time f ≡ some x → 0 < x
    usable none e = absurd (cc)
    usable (some f) e = ground arith

    positive : (x : ℕ) → event_time d iat event ≡ some x → 0 < x
    positive x e = elim (Bool-cases (null event)) [
      | inl p ↦ elim (Bool-cases (null iat)) [
        | inl q ↦ absurd (ground arith)
        | inr q ↦ usable (d.float iat) (ground arith)
      ]
      | inr p ↦ usable (d.float event) (ground arith)
    ]

    go :
        (o : Option ℕ)
        → ((x : ℕ) → o ≡ some x → 0 < x)
        → at_time only keys o ≡ revokes only' keys' at
        → 0 < at
    go none p e = absurd (cc)
    go (some x) p e = elim (Bool-cases (null keys)) [
      | inl n ↦ absurd (ground arith)
      | inr n ↦ let q : x ≡ at = ground arith in subst (λ y. 0 < y) q (p x refl)
    ]

read_subject-positive :
    (d : Decoders) (c : Claims) (ev : RevokedEvent) (id : Subject) {only : Bool} {keys : List Text}
    {at : ℕ}
    → read_subject d c ev id ≡ revokes only keys at
    → 0 < at
unfolding read_subject
read_subject-positive d c ev id h = elim (Bool-cases (is_institution id)) [
  | inl e ↦
      at_time-positive d false (institution_keys ev.scopes) c.iat ev.event_timestamp (rw e at h)
  | inr e ↦
      at_time-positive d (not (any is_account (keys_of id))) (keys_of id) c.iat ev.event_timestamp
        (rw e at h)
]

read_decoded-positive :
    (d : Decoders) (c : Claims) (ev : RevokedEvent) (o : Option Subject) {only : Bool}
    {keys : List Text} {at : ℕ}
    → read_decoded d c ev o ≡ revokes only keys at
    → 0 < at
read_decoded-positive d c ev none h = absurd (cc)
read_decoded-positive d c ev (some id) h = read_subject-positive d c ev id h

read_event-positive :
    (d : Decoders) (c : Claims) (o : Option RevokedEvent) {only : Bool} {keys : List Text} {at : ℕ}
    → read_event d c o ≡ revokes only keys at
    → 0 < at
read_event-positive d c none h = absurd (cc)
read_event-positive d c (some ev) h =
    read_decoded-positive d c ev (d.subject_id (if null c.sub_id then ev.sub_id else c.sub_id)) h

-- What a SET must pass before its event is read.
read_claims-event :
    (d : Decoders) (issuer audience : Text) (c : Claims) {only : Bool} {keys : List Text} {at : ℕ}
    → read_claims d issuer audience (some c) ≡ revokes only keys at
    → (raw : Text) × (c.event ≡ some raw) × (read_event d c (d.event raw) ≡ revokes only keys at)
read_claims-event d issuer audience c {only} {keys} {at} h = elim (Bool-cases (c.iss == issuer)) [
  | inl a ↦ elim (Bool-cases (audience_has d c.aud audience)) [
    | inl b ↦ elim (Bool-cases (not (null c.exp) || not (null c.sub))) [
      | inl e ↦ absurd (ground arith)
      | inr e ↦ elim (Option-cases c.event) [
        | inl n ↦ absurd (ground arith)
        | inr (raw, q) ↦ (raw, q, ground arith)
      ]
    ]
    | inr b ↦ absurd (ground arith)
  ]
  | inr a ↦ absurd (ground arith)
]

pub parse_revocation-positive :
    (d : Decoders) (issuer audience payload : Text) {only : Bool} {keys : List Text} {at : ℕ}
    → parse_revocation d issuer audience payload ≡ revokes only keys at
    → 0 < at
unfolding parse_revocation
parse_revocation-positive d issuer audience payload {only} {keys} {at} h = go (d.claims payload) h
  where
    go : (o : Option Claims) → read_claims d issuer audience o ≡ revokes only keys at → 0 < at
    go none h = absurd (cc)
    go (some c) h =
        let (raw, q, e) = read_claims-event d issuer audience c h in
        read_event-positive d c (d.event raw) e
