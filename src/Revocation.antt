-- ===== src/Revocation.antt =====
-- revocation.go: a revocation list that is fetched again and again, and the last copy of it that can be
-- relied on. The requests, the clock, the parser and the signature check are arguments.
pub mod Encoding
pub mod Outcome
pub mod History
pub mod Safety
pub mod Tests
use fileshare.Prelude.{
  ℕ, ◌+◌, ◌-◌, ◌⊎◌, inl, inr, Bool, true, false, not, ◌&&◌, Option, none, some, [], ltb,
  if◌then◌else◌, ◌==◌, ℕ_eq, List_eq, null, Text,
}
use fileshare.Revocation.Encoding.{encode, decode}

pub data Err : Type 0 where
  unreadable request_failed left_https bad_status no_copy body_failed : Err
  reissued unverified unparsed older_than_held : Err

-- The functions of a list: `parse`, the two methods of what it parses to, and the two signature
-- checks. `verifies` says whether `verify` is set; a nil `reverify` accepts everything.
pub record Reader (R : Type 0) : Type 0 where
  pub parse : Text → Option R
  pub expires : R → Option ℕ
  pub older : R → R → Bool
  pub verifies : Bool
  pub reverify : Text → Text → Bool

-- `fetched` is `none` for the zero time, whose age is above any `max_age`. `kept` is the state file:
-- `none` where the list has none, `some none` where it does not exist yet.
pub record RevocationList (R : Type 0) : Type 0 where
  pub from_file : Bool
  pub max_age : ℕ
  pub current : Option R
  pub raw : Text
  pub sig : Text
  pub etag : Text
  pub fetched : Option ℕ
  pub last_err : Option Err
  pub failures : ℕ
  pub kept : Option (Option Text)

pub data Answer : Type 0 where
  failed insecure not_modified other_status broken_body : Answer
  body : Text → Text → Answer

pub data Check : Type 0 where
  signed : Text → Check
  superseded bad_signature : Check

-- What one fetch meets: the file, the answer to a request with this If-None-Match, the check of a
-- body with its tag, whether the state file can be written, and the time.
pub record World : Type 0 where
  pub file : Option Text
  pub answer : Option Text → Answer
  pub check : Text → Text → Check
  pub can_write : Bool
  pub now : ℕ

pub data Unknown : Type 0 where
  never_fetched too_old expired : Unknown

pub data Standing (R : Type 0) : Type 0 where
  known : R → Standing R
  unknown : Unknown → Standing R

abbrev pub is_held {ℓ} : {A : Type ℓ} → Option A → Bool
is_held none = false
is_held (some a) = true

-- Whether a copy confirmed at this time is past its age.
abbrev pub past_age : ℕ → ℕ → Option ℕ → Bool
past_age now max_age none = true
past_age now max_age (some t) = ltb max_age (now - t)

abbrev pub past_expiry : ℕ → Option ℕ → Bool
past_expiry now none = false
past_expiry now (some e) = ltb e now

abbrev is_reissued : Bool ⊎ Err → Bool
is_reissued (inr reissued) = true
is_reissued _ = false

-- The state file once a list and its signature were to be written to it.
abbrev kept_after : Option (Option Text) → Bool → Text → Text → Option (Option Text)
kept_after none can_write text sig = none
kept_after (some old) can_write text sig = some (if can_write then some (encode text sig) else old)

-- Whether a parsed list is older than the one held, if one is.
abbrev is_stale : {R : Type 0} → Reader R → Option R → R → Bool
is_stale rd none p = false
is_stale rd (some c) p = rd.older p c

module _ {R : Type 0} where
  stand : Reader R → RevocationList R → ℕ → Option R → Standing R
  stand rd l now none = unknown never_fetched
  stand rd l now (some r) =
      if past_age now l.max_age l.fetched
      then unknown too_old
      else if past_expiry now (rd.expires r)
      then unknown expired
      else known r

  -- `get`
  pub get : Reader R → RevocationList R → ℕ → Standing R
  unfolding stand
  get rd l now = stand rd l now l.current

  -- What the deferred function of `fetchOnce` does with an error.
  pub fail : RevocationList R → Err → RevocationList R × (Bool ⊎ Err)
  fail l e = (record l { failures = l.failures + 1; last_err = some e }, inr e)

  -- The last part: a parsed list is kept unless it is older than the one held.
  keep :
      Reader R → RevocationList R → World → Text → Text → Text → R → RevocationList R × (Bool ⊎ Err)
  keep rd l w text tag sig parsed =
      if is_stale rd l.current parsed then fail l older_than_held else (
        record l {
          current = some parsed;
          raw = text;
          sig = sig;
          fetched = some w.now;
          last_err = none;
          etag = tag;
          kept = kept_after l.kept w.can_write text sig;
        },
        inl true,
      )

  read : Reader R → RevocationList R → World → Text → Text → Text → RevocationList R × (Bool ⊎ Err)
  unfolding keep
  read rd l w text tag sig = elim (rd.parse text) [
    | none ↦ fail l unparsed
    | some parsed ↦ keep rd l w text tag sig parsed
  ]

  verify :
      Reader R → RevocationList R → World → Text → Text → Check → RevocationList R × (Bool ⊎ Err)
  unfolding read
  verify rd l w text tag (signed sig) = read rd l w text tag sig
  verify rd l w text tag superseded = fail l reissued
  verify rd l w text tag bad_signature = fail l unverified

  -- From `same` on: a body that was read, with its tag.
  take_body : Reader R → RevocationList R → World → Text → Text → RevocationList R × (Bool ⊎ Err)
  unfolding verify
  take_body rd l w text tag =
      if is_held l.current && text == l.raw
      then (record l { fetched = some w.now; last_err = none; etag = tag }, inl false)
      else if rd.verifies && not l.from_file
      then verify rd l w text tag (w.check text tag)
      else read rd l w text tag []

  -- The If-None-Match of the request: the tag of the copy held, when one is held.
  pub request_tag : RevocationList R → Option Text
  request_tag l = if not (null l.etag) && is_held l.current then some l.etag else none

  take_answer : Reader R → RevocationList R → World → Answer → RevocationList R × (Bool ⊎ Err)
  unfolding take_body
  take_answer rd l w failed = fail l request_failed
  take_answer rd l w insecure = fail l left_https
  take_answer rd l w not_modified =
      if is_held l.current
      then (record l { fetched = some w.now; last_err = none }, inl false)
      else fail l no_copy
  take_answer rd l w other_status = fail l bad_status
  take_answer rd l w broken_body = fail l body_failed
  take_answer rd l w (body text tag) = take_body rd l w text tag

  take_file : Reader R → RevocationList R → World → Option Text → RevocationList R × (Bool ⊎ Err)
  unfolding take_body
  take_file rd l w none = fail l unreadable
  take_file rd l w (some text) = take_body rd l w text []

  -- `fetchOnce`: the new state, and whether the content changed or why it failed.
  pub fetch_once : Reader R → RevocationList R → World → RevocationList R × (Bool ⊎ Err)
  unfolding take_file take_answer request_tag
  fetch_once rd l w =
      if l.from_file then take_file rd l w w.file else take_answer rd l w (w.answer (request_tag l))

  -- `fetch`: a list issued again while its signature was fetched is fetched once more.
  pub fetch : Reader R → RevocationList R → World → World → RevocationList R × (Bool ⊎ Err)
  fetch rd l w w' =
      let (l', r) = fetch_once rd l w in if is_reissued r then fetch_once rd l' w' else (l', r)

  -- `restore`: the list of the state file, if it decodes, verifies and parses.
  abbrev restored : Reader R → RevocationList R → Text × Text → RevocationList R
  restored rd l (raw, sig) =
      if rd.reverify raw sig
      then elim (rd.parse raw) [
        | none ↦ l
        | some r ↦ record l { current = some r; raw = raw; sig = sig }
      ]
      else l

  pub restore : Reader R → RevocationList R → RevocationList R
  restore rd l = elim l.kept [
    | some (some text) ↦ elim (decode text) [ none ↦ l | some pair ↦ restored rd l pair ]
    | _ ↦ l
  ]
