-- ===== src/Signals/Subjects.antt =====
-- caep.go: whom a security event revokes, and since when (subjectID.keys, parseRevocation, eventTime,
-- audienceHas). What encoding/json and strconv make of a text are arguments.
use fileshare.Prelude.{
  ℕ, ◌+◌, ◌*◌, Bool, true, false, not, ◌&&◌, ◌||◌, Option, none, some, List, [], ◌∷◌, ◌++◌,
  if◌then◌else◌, ◌==◌, ℕ_eq, List_eq, any, null, contains, Text, bytes, cut_prefix, trim_space,
  has_prefix,
}
use fileshare.Signals.{account_key, iss_sub_key, scope_key}

-- `subjectID`; a nil pointer is `nobody`.
mutual
  pub data Subject : Type 0 where
    subject :
        (format uri iss sub email : Text)
        → (identifiers : Subjects) → (user tenant : Pointed) → Subject

  pub data Subjects : Type 0 where
    nil : Subjects
    cons : Subject → Subjects → Subjects

  pub data Pointed : Type 0 where
    nobody : Pointed
    somebody : Subject → Pointed

-- What the switch on the format comes to: keys, or the user's.
abbrev pub account_keys : Option Text → Option (List Text)
account_keys none = none
account_keys (some name) = if null name then none else some (account_key name ∷ [])

abbrev pub by_format : Text → Text → Text → Text → Text → List Text → Option (List Text)
by_format format uri iss sub email aliases =
    if format == bytes "account"
    then account_keys (cut_prefix uri (bytes "acct:"))
    else if format == bytes "iss_sub"
    then (if not (null iss) && not (null sub) then some (iss_sub_key iss sub ∷ []) else none)
    else if format == bytes "email"
    then (if null email then none else some (account_key email ∷ []))
    else if format == bytes "aliases"
    then some aliases
    else none

abbrev pub or_else : Option (List Text) → List Text → List Text
or_else (some ks) later = ks
or_else none later = later

-- `subjectID.keys`
unfoldable mutual
  pub keys_of : Subject → List Text
  keys_of (subject format uri iss sub email identifiers user tenant) =
      or_else (by_format format uri iss sub email (keys_of_all identifiers)) (keys_of_user user)

  pub keys_of_all : Subjects → List Text
  keys_of_all nil = []
  keys_of_all (cons s ss) = keys_of s ++ keys_of_all ss

  pub keys_of_user : Pointed → List Text
  keys_of_user nobody = []
  keys_of_user (somebody s) = keys_of s

-- `setClaims` as far as it is read, with the event of type session-revoked, where there is one.
pub record Claims : Type 0 where
  pub iss : Text
  pub aud : Text
  pub iat : Text
  pub sub : Text
  pub exp : Text
  pub event : Option Text
  pub sub_id : Text

-- The event: its time, its subject where the claims have none, its scopes.
pub record RevokedEvent : Type 0 where
  pub event_timestamp : Text
  pub sub_id : Text
  pub scopes : List Text

-- A number as Float64 reads it: whether it is above zero, its whole part, and the nanoseconds of the
-- rest.
pub record Float : Type 0 where
  pub positive : Bool
  pub seconds : ℕ
  pub nanoseconds : ℕ

-- What encoding/json and strconv decode; `none` is an error.
pub record Decoders : Type 0 where
  pub claims : Text → Option Claims
  pub text : Text → Option Text
  pub texts : Text → Option (List Text)
  pub event : Text → Option RevokedEvent
  pub subject_id : Text → Option Subject
  pub float : Text → Option Float

-- The Unix epoch, from the zero time.
abbrev pub unix_epoch : ℕ
unix_epoch = 62135596800000000000

abbrev pub time_of : Float → ℕ
time_of f = unix_epoch + (f.seconds * 1000000000 + f.nanoseconds)

abbrev pub usable_time : Option Float → Option ℕ
usable_time none = none
usable_time (some f) = if f.positive then some (time_of f) else none

-- `eventTime`
unfoldable pub event_time : Decoders → Text → Text → Option ℕ
event_time d iat event =
    if not (null event)
    then usable_time (d.float event)
    else if not (null iat)
    then usable_time (d.float iat)
    else none

abbrev pub has_text : Text → Option (List Text) → Bool
has_text want none = false
has_text want (some many) = contains many want

-- `audienceHas`
unfoldable pub audience_has : Decoders → Text → Text → Bool
audience_has d raw want = elim (d.text raw) [
  | some one ↦ one == want
  | none ↦ has_text want (d.texts raw)
]

-- What parseRevocation returns: an error, nothing to do, or the keys and since when, with whether
-- they name nobody by account (errIssSubOnly).
pub data Reading : Type 0 where
  refused ignored : Reading
  revokes : Bool → List Text → ℕ → Reading

abbrev pub at_time : Bool → List Text → Option ℕ → Reading
at_time only keys none = refused
at_time only keys (some at) = if null keys then refused else revokes only keys at

abbrev pub is_scope : Text → Bool
is_scope sc = not (null sc) && not (any (λ c. c == b'@' || c == b' ') sc)

-- The loop over the scopes of an institution.
unfoldable pub institution_keys : List Text → List Text
institution_keys [] = []
institution_keys (sc ∷ scs) =
    let rest = institution_keys scs in
    let trimmed = trim_space sc in if is_scope trimmed then scope_key trimmed ∷ rest else rest

unfoldable pub is_account : Text → Bool
is_account k = has_prefix k (bytes "acct:")

abbrev pub is_institution : Subject → Bool
is_institution (subject format uri iss sub email identifiers nobody (somebody t)) = true
is_institution _ = false

unfoldable pub read_subject : Decoders → Claims → RevokedEvent → Subject → Reading
unfolding keys_of institution_keys event_time is_account
read_subject d c ev id =
    if is_institution id
    then at_time false (institution_keys ev.scopes) (event_time d c.iat ev.event_timestamp)
    else let keys = keys_of id in
      at_time (not (any is_account keys)) keys (event_time d c.iat ev.event_timestamp)

abbrev pub read_decoded : Decoders → Claims → RevokedEvent → Option Subject → Reading
read_decoded d c ev none = refused
read_decoded d c ev (some id) = read_subject d c ev id

abbrev pub read_event : Decoders → Claims → Option RevokedEvent → Reading
read_event d c none = refused
read_event d c (some ev) =
    read_decoded d c ev (d.subject_id (if null c.sub_id then ev.sub_id else c.sub_id))

abbrev pub read_claims : Decoders → Text → Text → Option Claims → Reading
read_claims d issuer audience none = refused
read_claims d issuer audience (some c) =
    if not (c.iss == issuer)
    then refused
    else if not (audience_has d c.aud audience)
    then refused
    else if not (null c.exp) || not (null c.sub)
    then refused
    else elim c.event [ none ↦ ignored | some raw ↦ read_event d c (d.event raw) ]

-- `parseRevocation`
unfoldable pub parse_revocation : Decoders → Text → Text → Text → Reading
unfolding audience_has read_subject
parse_revocation d issuer audience payload = read_claims d issuer audience (d.claims payload)
