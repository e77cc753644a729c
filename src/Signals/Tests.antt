-- ===== src/Signals/Tests.antt =====
-- A receiver of one transmitter, with a person taken back.
use fileshare.Prelude.{
  ℕ, ◌+◌, ◌-◌, ◌*◌, ◌≤◌, ◌<◌, ◌≡◌, refl, ◌≢◌, ◌↔◌, true, false, none, some, List, [], ◌∷◌, Memᴰ,
  arith, ℕ_eq, List_eq, null, All, Text, bytes,
}
use fileshare.Admin.{pos}
use fileshare.Signals.{
  absent, SignalStore, new_store, open_store, account_key, entry_of, revoked_since, person_keys,
  check,
}
use fileshare.Signals.Subjects.{
  subject, nil, nobody, Decoders, unix_epoch, revokes, parse_revocation,
}
use fileshare.Signals.Settings.{
  SsfBlock, second, minute, hour, timing, backoff_max, https, check_block, check_block-IsTimely,
}
use fileshare.Signals.Receiver.{
  Key, Receiver, Verifier, Moment, verify_set, sets, Round, accepted, round_trip,
}
use fileshare.Signals.Sessions.{Transmitter, session}
use fileshare.Signals.Sessions.Pinned.{IsPinned, session-IsPinned}
use fileshare.Signals.Entries.{Spares, check_iff}
use fileshare.Signals.Rounds.{is_polled, restarts, here, next}
use fileshare.Signals.Accepted.{round_trip-check}
use fileshare.Signals.Heard.{Accepted, Reach-check}

abbrev signing : Key
signing = record { id = 1; symmetric = false; valid = true; public = true }

-- Everything decodes to one event: bob is revoked, five seconds into 1970.
abbrev decoders : Decoders
decoders = record {
  claims = λ payload. some (record {
    iss = bytes "https://idp";
    aud = bytes "files";
    iat = [];
    sub = [];
    exp = [];
    event = some [];
    sub_id = bytes "s";
  });
  text = λ t. some t;
  texts = λ t. none;
  event = λ t. some (record { event_timestamp = bytes "5"; sub_id = []; scopes = [] });
  subject_id = λ t. some (subject (bytes "account") (bytes "acct:bob") [] [] [] nil nobody nobody);
  float = λ t. some (record { positive = true; seconds = 5; nanoseconds = 0 });
}

abbrev verifier : Verifier
verifier = record {
  opens = λ ks jws. elim ks [ [] ↦ none | k ∷ rest ↦ some jws ];
  header = λ h. none;
  kid = λ h. [];
  decoders = decoders;
}

abbrev day : ℕ
day = 24 * hour

abbrev start : ℕ
start = unix_epoch + day

abbrev fresh : Receiver
fresh = record {
  transmitter = bytes "https://idp";
  audience = bytes "files";
  keys = signing ∷ [];
  last = start;
  tried = [];
  store = new_store (8 * day) hour absent [] [];
}

abbrev moment : Moment
moment = record { now = start; fetched = none; writes = true }

abbrev brought : List (Text × Moment)
brought = (bytes "h.p.s", moment) ∷ []

abbrev bob : Text
bob = bytes "acct:bob"

abbrev since : ℕ
since = unix_epoch + 5 * second

abbrev polled : Receiver
polled = (round_trip verifier start (sets brought) fresh).1

round_accepts : (round_trip verifier start (sets brought) fresh).0 ≡ accepted
unfolding round_trip parse_revocation verify_set
round_accepts = refl

bob_is_refused :
    check start (bytes "bob") [] [] (since - 1) polled.store ≡ some (revoked_since since)
unfolding round_trip parse_revocation verify_set check
bob_is_refused = refl

bob_anew : check start (bytes "bob") [] [] (since + 1) polled.store ≡ none
unfolding round_trip parse_revocation verify_set check
bob_anew = refl

-- A full disk fails the round.
full_disk :
    (round_trip verifier start
      (sets ((bytes "h.p.s", record moment { writes = false }) ∷ []))
      fresh).0
    ≡ Round.failed
unfolding round_trip parse_revocation verify_set
full_disk = refl

says_bob :
    (ks : List Key) (p : Text)
    → verifier.opens ks (bytes "h.p.s") ≡ some p
    → parse_revocation decoders (bytes "https://idp") (bytes "files") p
      ≡ revokes false (bob ∷ []) since
unfolding parse_revocation account_key
says_bob ks p e = refl

abbrev read_back : SignalStore
read_back =
    new_store (8 * day) hour polled.store.file (record { subject = bob; since = since } ∷ []) []

restarted : open_store polled.store.retain hour polled.store.file ≡ some read_back
unfolding round_trip parse_revocation verify_set open_store account_key
restarted = refl

round_trip-check_example : check (start + day) (bytes "bob") [] [] since read_back ≢ none
unfolding round_trip person_keys account_key
round_trip-check_example =
    round_trip-check verifier start brought fresh (bytes "h.p.s") moment false (bob ∷ []) since bob
      (start + day) (bytes "bob") [] [] since says_bob (Memᴰ.head refl) refl (omega arith, tt)
      round_accepts (next here (restarts polled hour read_back restarted)) refl (omega arith)

check_iff_example : (check start (bytes "bob") [] [] since polled.store ≡ none) ↔ (
    (0 < polled.store.heard)
    × (start - polled.store.heard ≤ polled.store.max_age)
    × All (λ k. Spares since (entry_of k polled.store.entries)) (person_keys (bytes "bob") [] []))
check_iff_example = check_iff start (bytes "bob") [] [] since polled.store

Reach-check_example :
    (now : ℕ) × Accepted verifier start fresh now × (start - now ≤ polled.store.max_age)
Reach-check_example =
    Reach-check start (bytes "bob") [] [] (since + 1) refl
      (next here (is_polled fresh start brought (omega arith, tt))) bob_anew

abbrev ssf_block : SsfBlock
ssf_block = record {
  transmitter = bytes "https://idp";
  audience = bytes "files";
  token_file = bytes "/t";
  client_id = [];
  client_secret_file = [];
  token_url = [];
  state_file = bytes "/s";
  max_age = bytes "x";
  retain = [];
}

check_block-IsTimely_example :
    (max_age : ℕ) × (retain : ℕ) × (timing (λ s. some (pos (2 * minute))) ssf_block
      ≡ some (max_age, retain))
    × (minute ≤ max_age)
    × (169 * hour ≤ retain)
    × (backoff_max (λ s. some (pos (2 * minute))) ssf_block ≤ 30 * second)
    × (4 * backoff_max (λ s. some (pos (2 * minute))) ssf_block ≤ max_age)
    × (https ssf_block.transmitter ≡ true)
    × (null ssf_block.audience ≡ false)
unfolding check_block
check_block-IsTimely_example =
    check_block-IsTimely (λ s. some (pos (2 * minute))) true false ssf_block refl

abbrev transmitter : Transmitter
transmitter = record {
  discovery = some (record {
    issuer = bytes "https://idp";
    jwks_uri = bytes "https://idp/k";
    configuration_endpoint = bytes "https://idp/c";
    status_endpoint = bytes "https://idp/s";
  });
  openid = none;
  grants_token = λ u. false;
  moment = record moment { fetched = some (signing ∷ []) };
  looks_up = λ id. record { status = 404; result = none };
  makes = record {
    status = 201;
    result = some (record { stream_id = bytes "1"; endpoint_url = bytes "https://idp/p" });
  };
  status_of = λ id. record { status = 200; result = some (bytes "enabled") };
  writes = true;
}

session-IsPinned_example :
    IsPinned transmitter fresh (session true [] transmitter fresh).1 (bytes "https://idp/p")
unfolding session
session-IsPinned_example = session-IsPinned true [] transmitter fresh (bytes "https://idp/p") refl
