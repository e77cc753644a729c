-- ===== src/Signals/Settings.antt =====
-- ssf.go: the ssf block, its check and its durations (timing, check, backoffMax). What
-- time.ParseDuration makes of a text is an argument.
use fileshare.Prelude.{
  ℕ, ◌*◌, ◌/◌, ◌≤◌, ◌≡◌, inl, inr, Bool, true, false, not, ◌&&◌, ◌||◌, Option, none, some, arith,
  ltb, if◌then◌else◌, Option-cases, ℕ_eq, List_eq, null, Text, bytes, has_prefix,
}
use fileshare.Admin.{ℤ, pos, negsuc}

pub record SsfBlock : Type 0 where
  pub transmitter : Text
  pub audience : Text
  pub token_file : Text
  pub client_id : Text
  pub client_secret_file : Text
  pub token_url : Text
  pub state_file : Text
  pub max_age : Text
  pub retain : Text

-- Durations, in nanoseconds.
abbrev pub second : ℕ
second = 1000000000

abbrev pub minute : ℕ
minute = 60 * second

abbrev pub hour : ℕ
hour = 60 * minute

abbrev pub at_least : ℕ → ℤ → Option ℕ
at_least n (negsuc d) = none
at_least n (pos d) = if ltb d n then none else some d

-- A duration of the block, or its default; `none` is a refusal.
unfoldable pub duration_of : (Text → Option ℤ) → ℕ → ℕ → Text → Option ℕ
duration_of parse default least text =
    if null text
    then some default
    else elim (parse text) [ none ↦ none | some d ↦ at_least least d ]

abbrev pub both : Option ℕ → Option ℕ → Option (ℕ × ℕ)
both none b = none
both (some a) none = none
both (some a) (some b) = some (a, b)

-- `timing`: max_age and retain.
unfoldable pub timing : (Text → Option ℤ) → SsfBlock → Option (ℕ × ℕ)
unfolding duration_of
timing parse b =
    both (duration_of parse (10 * minute) minute b.max_age)
      (duration_of parse (192 * hour) (169 * hour) b.retain)

abbrev pub min : ℕ → ℕ → ℕ
min a b = if ltb a b then a else b

-- `backoffMax`; where the durations are refused, max_age is 0.
unfoldable pub backoff_max : (Text → Option ℤ) → SsfBlock → ℕ
unfolding timing
backoff_max parse b =
    min (30 * second) (elim (timing parse b) [ none ↦ 0 | some (max_age, retain) ↦ max_age / 4 ])

pub data BlockError : Type 0 where
  transmitter_not_https no_audience no_state_file authenticates_unclear half_credentials :
      BlockError
  token_url_not_https nobody_federated bad_duration : BlockError

abbrev pub https : Text → Bool
https u = has_prefix u (bytes "https://")

abbrev pub both_or_neither : Bool → Bool → Bool
both_or_neither true b = b
both_or_neither false b = not b

-- `check`: nothing where the block can work. Whether the configuration has an oidc block, and whether
-- its NFS block identifies by certificate, are arguments.
unfoldable pub check_block : (Text → Option ℤ) → Bool → Bool → SsfBlock → Option BlockError
unfolding timing
check_block parse oidc nfs_certificates b =
    if not (https b.transmitter)
    then some transmitter_not_https
    else if null b.audience
    then some no_audience
    else if null b.state_file
    then some no_state_file
    else if both_or_neither (not (null b.token_file))
        (not (null b.client_id) || not (null b.client_secret_file))
    then some authenticates_unclear
    else if not (both_or_neither (null b.client_id) (null b.client_secret_file))
    then some half_credentials
    else if not (null b.token_url) && not (https b.token_url)
    then some token_url_not_https
    else if not oidc && not nfs_certificates
    then some nobody_federated
    else elim (timing parse b) [ none ↦ some bad_duration | some d ↦ none ]

duration_of-ge :
    (parse : Text → Option ℤ) (default least : ℕ) (text : Text) {d : ℕ}
    → least ≤ default
    → duration_of parse default least text ≡ some d
    → least ≤ d
unfolding duration_of
duration_of-ge parse default least text {d} h e = go (null text) (parse text) e
  where
    go :
        (empty : Bool) (p : Option ℤ)
        → (if empty then some default else elim p [ none ↦ none | some x ↦ at_least least x ])
          ≡ some d
        → least ≤ d
    go true p e = ground arith
    go false none e = ground arith
    go false (some (pos x)) e = ground arith
    go false (some (negsuc x)) e = ground arith

timing-ge :
    (parse : Text → Option ℤ) (b : SsfBlock) {max_age retain : ℕ}
    → timing parse b ≡ some (max_age, retain)
    → (minute ≤ max_age) × (169 * hour ≤ retain)
unfolding timing
timing-ge parse b {max_age} {retain} h =
    elim (Option-cases (duration_of parse (10 * minute) minute b.max_age)) [
      | inl e ↦ absurd (ground arith)
      | inr (x, e) ↦ elim (Option-cases (duration_of parse (192 * hour) (169 * hour) b.retain)) [
        | inl f ↦ absurd (ground arith)
        | inr (y, f) ↦
            let p = duration_of-ge parse (10 * minute) minute b.max_age (omega arith) e in
            let q = duration_of-ge parse (192 * hour) (169 * hour) b.retain (omega arith) f in
            (ground arith, ground arith)
      ]
    ]

-- A block that passes its check keeps revocations for 169 hours at least, longer than what they void
-- lives; max_age is a minute at least; the poll waits no longer than 30 seconds or a quarter of
-- max_age; and the transmitter is reached over https and the audience is named.
pub check_block-IsTimely :
    (parse : Text → Option ℤ) (oidc nfs_certificates : Bool) (b : SsfBlock)
    → check_block parse oidc nfs_certificates b ≡ none
    → (max_age : ℕ) × (retain : ℕ) × (timing parse b ≡ some (max_age, retain))
      × (minute ≤ max_age)
      × (169 * hour ≤ retain)
      × (backoff_max parse b ≤ 30 * second)
      × (4 * backoff_max parse b ≤ max_age)
      × (https b.transmitter ≡ true)
      × (null b.audience ≡ false)
unfolding check_block backoff_max
check_block-IsTimely parse oidc nfs_certificates b h = elim (Option-cases (timing parse b)) [
  | inl e ↦ absurd (ground arith)
  | inr ((x, y), e) ↦
      let (p, q) = timing-ge parse b e in
      (x, y, e, p, q, rw e (ground arith), rw e (ground arith), ground arith, ground arith)
]
