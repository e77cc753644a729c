-- ===== src/Signals.antt =====
-- caep.go: which people the identity provider has taken back and since when, as the revocation store
-- keeps it in memory and in its file. A time is counted in nanoseconds from Go's zero time, which is
-- 0; a text that JSON decodes is decoded by arguments.
pub mod Subjects
pub mod Settings
pub mod Receiver
pub mod Sessions
pub mod Entries
pub mod Kept
pub mod Verified
pub mod Rounds
pub mod Times
pub mod Accepted
pub mod Heard
mod Tests
use fileshare.Prelude.{
  ℕ, ◌+◌, ◌-◌, Bool, true, false, not, ◌&&◌, ◌||◌, Option, none, some, List, [], ◌∷◌, ◌++◌, ltb,
  leb, if◌then◌else◌, ◌==◌, ℕ_eq, List_eq, length, delete_if, null, Text, bytes, to_lower,
}
use fileshare.Access.Principal.{domain, after_last}

-- An entry of the store: a subject's key, and since when it is revoked.
pub record Entry : Type 0 where
  pub subject : Text
  pub since : ℕ

-- The file of the store as it can be read: not there, not readable or not JSON, or a version with
-- its stream and entries.
pub data StoreFile : Type 0 where
  absent broken : StoreFile
  stored : ℕ → Text → List Entry → StoreFile

pub record SignalStore : Type 0 where
  pub retain : ℕ
  pub max_age : ℕ
  pub entries : List Entry
  pub stream : Text
  pub heard : ℕ
  pub file : StoreFile

abbrev pub new_store : ℕ → ℕ → StoreFile → List Entry → Text → SignalStore
new_store retain max_age f es stream = record {
  retain = retain;
  max_age = max_age;
  entries = es;
  stream = stream;
  heard = 0;
  file = f;
}

-- `openRevocationStore`
unfoldable pub open_store : ℕ → ℕ → StoreFile → Option SignalStore
open_store retain max_age absent = some (new_store retain max_age absent [] [])
open_store retain max_age broken = none
open_store retain max_age (stored version stream es) =
    if version == 1
    then some (new_store retain max_age (stored version stream es) es stream)
    else none

unfoldable pub account_key : Text → Text
account_key name = bytes "acct:" ++ name

unfoldable pub iss_sub_key : Text → Text → Text
iss_sub_key iss sub = bytes "iss_sub:" ++ (iss ++ (bytes " " ++ sub))

unfoldable pub scope_key : Text → Text
scope_key scope = bytes "scope:" ++ to_lower scope

-- `domainOf`
unfoldable pub domain_part : Text → Text
domain_part name = elim (after_last b'@' name) [ none ↦ [] | some d ↦ d ]

-- What the map holds for a key.
abbrev pub entry_of : Text → List Entry → Option ℕ
entry_of k [] = none
entry_of k (e ∷ es) = let rest = entry_of k es in if e.subject == k then some e.since else rest

-- A missing key is the zero time.
abbrev pub since_of : Text → List Entry → ℕ
since_of k es = elim (entry_of k es) [ none ↦ 0 | some t ↦ t ]

abbrev pub put_entry : Text → ℕ → List Entry → List Entry
put_entry k t [] = record { subject = k; since = t } ∷ []
put_entry k t (e ∷ es) =
    let rest = put_entry k t es in
    if e.subject == k then record { subject = k; since = t } ∷ es else e ∷ rest

-- One round of the loop of `revoke`.
unfoldable pub note : Text → ℕ → List Entry → List Entry
note k at es = if ltb (since_of k es) at then put_entry k at es else es

unfoldable pub note_all : List Text → ℕ → List Entry → List Entry
unfolding note
note_all [] at es = es
note_all (k ∷ ks) at es = note_all ks at (note k at es)

-- `prune`
unfoldable pub prune : ℕ → ℕ → List Entry → List Entry
prune now retain es = delete_if (λ e. ltb e.since (now - retain)) es

-- `saveLocked`: the file is replaced whole or not at all.
unfoldable pub save : Bool → SignalStore → Bool × SignalStore
save true s = (true, record s { file = stored 1 s.stream s.entries })
save false s = (false, s)

-- `revoke`, at a time, with whether the file can be written; whether it was is the answer.
unfoldable pub revoke : Bool → ℕ → List Text → ℕ → SignalStore → Bool × SignalStore
unfolding note_all prune save
revoke writes now keys at s =
    save writes (record s { entries = prune now s.retain (note_all keys at s.entries) })

unfoldable pub set_stream : Bool → Text → SignalStore → Bool × SignalStore
unfolding save
set_stream writes id s = save writes (record s { stream = id })

unfoldable pub heard_from : ℕ → SignalStore → SignalStore
heard_from now s = record s { heard = now }

-- Why a credential is not counted.
pub data Refused : Type 0 where
  not_heard : Refused
  revoked_since : ℕ → Refused

abbrev pub iss_sub_keys : Text → Text → List Text
iss_sub_keys iss sub = if not (null iss) && not (null sub) then iss_sub_key iss sub ∷ [] else []

abbrev pub scope_keys : Text → List Text
scope_keys scope = if null scope then [] else scope_key scope ∷ []

-- The keys that `check` looks up for somebody.
unfoldable pub person_keys : Text → Text → Text → List Text
unfolding account_key iss_sub_key domain_part scope_key
person_keys name iss sub =
    account_key name ∷ (iss_sub_keys iss sub ++ scope_keys (domain_part name))

abbrev pub check_entry : ℕ → Option ℕ → Option Refused → Option Refused
check_entry issued none rest = rest
check_entry issued (some at) rest =
    if issued == 0 || not (ltb at issued) then some (revoked_since at) else rest

unfoldable pub check_keys : List Text → ℕ → List Entry → Option Refused
check_keys [] issued es = none
check_keys (k ∷ ks) issued es =
    let rest = check_keys ks issued es in check_entry issued (entry_of k es) rest

abbrev pub is_silent : ℕ → SignalStore → Bool
is_silent now s = s.heard == 0 || ltb s.max_age (now - s.heard)

-- `check`: nothing where the credential counts.
unfoldable pub check : ℕ → Text → Text → Text → ℕ → SignalStore → Option Refused
unfolding check_keys person_keys
check now name iss sub issued s =
    if is_silent now s
    then some not_heard
    else check_keys (person_keys name iss sub) issued s.entries

-- `age`, `none` for -1, and `count`.
unfoldable pub age : ℕ → SignalStore → Option ℕ
age now s = if s.heard == 0 then none else some (now - s.heard)

unfoldable pub count : SignalStore → ℕ
count s = length s.entries
