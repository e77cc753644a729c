-- ===== src/Revocation/Outcome.antt =====
-- What one fetch of a revocation list can do to the copy held, and when a copy may be relied on.
use fileshare.Prelude.{
  ◌≡◌, refl, ◌⊎◌, inl, inr, Bool, true, false, not, ◌&&◌, Option, none, some, [], arith, Bool-cases,
  Option-cases, ◌==◌, ℕ_eq, List_eq, Text,
}
use fileshare.Revocation.{
  Err, unreadable, request_failed, left_https, bad_status, no_copy, body_failed, reissued,
  unverified, unparsed, older_than_held, Reader, RevocationList, Answer, failed, insecure,
  not_modified, other_status, broken_body, body, Check, signed, superseded, bad_signature, World,
  is_held, kept_after, is_stale, fail, keep, read, verify, take_body, request_tag, take_answer,
  take_file, fetch_once,
}

-- A list newer than nothing, or not older than the one held.
abbrev pub NotOlder : {R : Type 0} → Reader R → Option R → R → Type 0
NotOlder rd none p = Unit
NotOlder rd (some c) p = rd.older p c ≡ false

-- The signature kept with a list: the one that was checked, where signatures are checked.
abbrev pub IsSigned :
    {R : Type 0} → Reader R → RevocationList R → World → Text → Text → Text → Type 0
IsSigned rd l w text tag sig =
    ((rd.verifies && not l.from_file) ≡ false) ⊎ (w.check text tag ≡ signed sig)

-- A fetch fails and leaves the copy, its age and its tag alone; or finds the copy held confirmed now;
-- or replaces it by a list that parses, is not older, and is signed.
pub data Outcome {R : Type 0} (rd : Reader R) (l : RevocationList R) (w : World)
    (r : RevocationList R × (Bool ⊎ Err)) : Type 0 where
  failing : (e : Err) → r ≡ fail l e → Outcome rd l w r
  confirmed :
      (c : R) (tag : Text)
      → l.current ≡ some c
      → r ≡ (record l { fetched = some w.now; last_err = none; etag = tag }, inl false)
      → Outcome rd l w r
  replaced :
      (text tag sig : Text) (p : R) (kept : Option (Option Text))
      → rd.parse text ≡ some p
      → NotOlder rd l.current p
      → IsSigned rd l w text tag sig
      → r ≡ (
        record l {
          current = some p;
          raw = text;
          sig = sig;
          fetched = some w.now;
          last_err = none;
          etag = tag;
          kept = kept;
        },
        inl true,
      )
      → Outcome rd l w r

module _ {R : Type 0} (rd : Reader R) (l : RevocationList R) (w : World) where
  keep-Outcome :
      (text tag sig : Text) (p : R)
      → rd.parse text ≡ some p
      → IsSigned rd l w text tag sig
      → Outcome rd l w (keep rd l w text tag sig p)
  unfolding keep
  keep-Outcome text tag sig p parsed held = elim (Bool-cases (is_stale rd l.current p)) [
    | inl old ↦ failing older_than_held (ground arith)
    | inr new ↦
        replaced text tag sig p (kept_after l.kept w.can_write text sig) parsed
          (NotOlder_of_fresh l.current new) held (ground arith)
  ]
    where
      NotOlder_of_fresh : (o : Option R) → is_stale rd o p ≡ false → NotOlder rd o p
      NotOlder_of_fresh none e = tt
      NotOlder_of_fresh (some c) e = e

  read-Outcome :
      (text tag sig : Text)
      → IsSigned rd l w text tag sig
      → Outcome rd l w (read rd l w text tag sig)
  unfolding read
  read-Outcome text tag sig held = elim (Option-cases (rd.parse text)) [
    | inl e ↦ rw (e, read) (failing unparsed refl)
    | inr (p, e) ↦ rw (e, read) (keep-Outcome text tag sig p e held)
  ]

  verify-Outcome :
      (text tag : Text) (c : Check)
      → w.check text tag ≡ c
      → Outcome rd l w (verify rd l w text tag c)
  unfolding verify
  verify-Outcome text tag (signed sig) e = read-Outcome text tag sig (inr e)
  verify-Outcome text tag superseded e = failing reissued refl
  verify-Outcome text tag bad_signature e = failing unverified refl

  held_some : (o : Option R) → is_held o ≡ true → (c : R) × (o ≡ some c)
  held_some none h = cc
  held_some (some c) h = (c, refl)

  take_body-Outcome : (text tag : Text) → Outcome rd l w (take_body rd l w text tag)
  unfolding take_body
  take_body-Outcome text tag = elim (Bool-cases (is_held l.current && text == l.raw)) [
    | inl same ↦ let (c, e) = held_some l.current (ground arith) in confirmed c tag e (ground arith)
    | inr new ↦ elim (Bool-cases (rd.verifies && not l.from_file)) [
      | inl checked ↦ rw (take_body, new, checked) (verify-Outcome text tag (w.check text tag) refl)
      | inr free ↦ rw (take_body, new, free) (read-Outcome text tag [] (inl free))
    ]
  ]

  take_answer-Outcome : (a : Answer) → Outcome rd l w (take_answer rd l w a)
  unfolding take_answer
  take_answer-Outcome failed = failing request_failed refl
  take_answer-Outcome insecure = failing left_https refl
  take_answer-Outcome not_modified = elim (Option-cases l.current) [
    | inl e ↦ failing no_copy (ground arith)
    | inr (c, e) ↦ confirmed c l.etag e (ground arith)
  ]
  take_answer-Outcome other_status = failing bad_status refl
  take_answer-Outcome broken_body = failing body_failed refl
  take_answer-Outcome (body text tag) = take_body-Outcome text tag

  take_file-Outcome : (o : Option Text) → Outcome rd l w (take_file rd l w o)
  unfolding take_file
  take_file-Outcome none = failing unreadable refl
  take_file-Outcome (some text) = take_body-Outcome text []

  pub fetch_once-Outcome : Outcome rd l w (fetch_once rd l w)
  unfolding fetch_once
  fetch_once-Outcome = elim (Bool-cases l.from_file) [
    | inl e ↦ simp (e, fetch_once) (take_file-Outcome w.file)
    | inr e ↦ simp (e, fetch_once) (take_answer-Outcome (w.answer (request_tag l)))
  ]
