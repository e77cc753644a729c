-- ===== src/Revocation/Tests.antt =====
-- Runs of revocation.go on lists that are one byte, their version.
use fileshare.Prelude.{
  ℕ, ◌+◌, ◌-◌, ◌≤◌, ◌≡◌, refl, ◌↔◌, ◌⊎◌, true, false, Option, none, some, List, [], ◌∷◌, arith, ltb,
  ◌==◌, ℕ_eq, list_eq_iff, List_eq, All, Text,
}
use fileshare.Revocation.{
  Reader, RevocationList, failed, body, Check, signed, World, known, stand, get, fail, keep, read,
  verify, take_body, request_tag, take_answer, take_file, fetch_once, fetch, restore,
}
use fileshare.Revocation.Encoding.{be_bytes, encode, decode, decode-encode}
use fileshare.Revocation.History.{get-known_iff, run, Makes, Confirms}
use fileshare.Revocation.Safety.{known_confirmed, IsSound, IsAuthentic, run-IsAuthentic}

abbrev parse_version : Text → Option ℕ
parse_version [] = none
parse_version (v ∷ s) = some v

-- A signature is the list over again.
abbrev reader : Reader ℕ
reader = record {
  parse = parse_version;
  expires = λ v. none;
  older = ltb;
  verifies = true;
  reverify = λ raw sig. raw == sig;
}

abbrev start : RevocationList ℕ
start = record {
  from_file = false;
  max_age = 10;
  current = none;
  raw = [];
  sig = [];
  etag = [];
  fetched = none;
  last_err = none;
  failures = 0;
  kept = some none;
}

abbrev check_copy : Text → Text → Check
check_copy text tag = signed text

abbrev serving : ℕ → ℕ → World
serving v now = record {
  file = none;
  answer = λ tag. body (v ∷ []) [];
  check = check_copy;
  can_write = true;
  now = now;
}

abbrev down : World
down = record { file = none; answer = λ tag. failed; check = check_copy; can_write = true; now = 6 }

-- A first version, a failure, and an older version, which is refused.
abbrev days : List (World × World)
days = (serving 3 5, down) ∷ (down, down) ∷ (serving 2 7, down) ∷ []

days_known : get reader (run reader (restore reader start) days) 12 ≡ known 3
unfolding get run fetch fetch_once restore stand fail keep read verify take_body take_answer
    take_file request_tag encode be_bytes
days_known = refl

abbrev held : RevocationList ℕ
held = record start { current = some 3; raw = 3 ∷ []; sig = 3 ∷ [] }

known_confirmed_example :
    (k : RevocationList ℕ) × (v : World) × Makes reader (restore reader start) days k v
    × Confirms reader k v
    × (12 - v.now ≤ 10)
known_confirmed_example = known_confirmed reader start days 12 3 refl days_known

abbrev Copied : Text → Text → Type 0
Copied raw sig = raw ≡ sig

copies : (raw sig : Text) → reader.reverify raw sig ≡ true → Copied raw sig
copies raw sig h = (list_eq_iff raw sig).0 h

copied : (text tag sig : Text) → check_copy text tag ≡ signed sig → Copied text sig
copied text tag sig h = cc

days-IsSound : All (λ v. IsSound reader Copied copies v.0 × IsSound reader Copied copies v.1) days
days-IsSound = ((copied, copied), ((copied, copied), ((copied, copied), tt)))

run-IsAuthentic_example : IsAuthentic reader Copied copies (run reader (restore reader start) days)
run-IsAuthentic_example =
    run-IsAuthentic reader Copied copies start days refl refl refl days-IsSound

decode-encode_example : decode (encode (1 ∷ 2 ∷ []) (9 ∷ [])) ≡ some (1 ∷ 2 ∷ [], 9 ∷ [])
decode-encode_example = decode-encode (1 ∷ 2 ∷ []) (9 ∷ []) (omega arith)

get-known_iff_example : (get reader held 12 ≡ known 3) ↔ (
    (held.current ≡ some 3)
    × ((t : ℕ) × (held.fetched ≡ some t) × (12 ≤ t + held.max_age))
    × ((reader.expires 3 ≡ none) ⊎ ((e : ℕ) × (reader.expires 3 ≡ some e) × (12 ≤ e))))
get-known_iff_example = get-known_iff reader held 12 3
