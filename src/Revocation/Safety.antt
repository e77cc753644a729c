-- ===== src/Revocation/Safety.antt =====
-- A revocation list fails closed, never goes back, and holds only what was verified.
use fileshare.Prelude.{
  ℕ, ◌-◌, ◌≤◌, ◌≡◌, refl, ap, subst, ◌⊎◌, inl, inr, true, false, Option, none, some, List, [], ◌∷◌,
  arith, ltb, Bool-cases, Option-cases, All, Text,
}
use fileshare.Revocation.Outcome.{NotOlder, failing, confirmed, replaced, fetch_once-Outcome}
use fileshare.Revocation.History.{get-known_iff, run, Makes, Confirms, fetch-cases, run-fetched}
use fileshare.Revocation.Encoding.{decode}
use fileshare.Revocation.{
  Reader, RevocationList, signed, World, known, get, fail, fetch_once, fetch, restored, restore,
}

-- A property that one fetch keeps in each world of a kind is kept by a run over such worlds.
module _ {R : Type 0} (rd : Reader R) (W : World → Type 0) (P : RevocationList R → Type 0)
    (step : (l : RevocationList R) (w : World) → W w → P l → P (fetch_once rd l w).0) where
  fetch-keeps : (l : RevocationList R) (w w' : World) → W w → W w' → P l → P (fetch rd l w w').0
  fetch-keeps l w w' a b h = elim (fetch-cases rd l w w') [
    | inl once ↦ rw once (step l w a h)
    | inr (again, twice) ↦ rw twice (step (fetch_once rd l w).0 w' b (step l w a h))
  ]

  run-keeps :
      (l : RevocationList R) (ws : List (World × World))
      → All (λ v. W v.0 × W v.1) ws
      → P l
      → P (run rd l ws)
  unfolding run
  run-keeps l [] a h = h
  run-keeps l ((w, w') ∷ ws) ((a, b), rest) h =
      run-keeps (fetch rd l w w').0 ws rest (fetch-keeps l w w' a b h)

abbrev AnyWorld : World → Type 0
AnyWorld w = Unit {0}

All-any : (ws : List (World × World)) → All (λ v. AnyWorld v.0 × AnyWorld v.1) ws
All-any [] = tt
All-any (v ∷ ws) = ((tt, tt), All-any ws)

fetch_once-max_age :
    {R : Type 0} (rd : Reader R) (m : ℕ) (l : RevocationList R) (w : World)
    → AnyWorld w
    → l.max_age ≡ m
    → (fetch_once rd l w).0.max_age ≡ m
unfolding fail
fetch_once-max_age rd m l w _ h = elim (fetch_once-Outcome rd l w) [
  | failing e made ↦ rw made h
  | confirmed c tag held made ↦ rw made h
  | replaced text tag sig p kept parsed order signed_by made ↦ rw made h
]

-- What restoring changes: nothing, or the copy, its bytes and its signature, which passed the second
-- check and parse.
pub data Restores {R : Type 0} (rd : Reader R) (l : RevocationList R) (k : RevocationList R)
    : Type 0 where
  same : k ≡ l → Restores rd l k
  back :
      (raw sig : Text) (r : R)
      → rd.reverify raw sig ≡ true
      → rd.parse raw ≡ some r
      → k ≡ record l { current = some r; raw = raw; sig = sig }
      → Restores rd l k

module _ {R : Type 0} (rd : Reader R) (l : RevocationList R) where
  restored-Restores : (raw sig : Text) → Restores rd l (restored rd l (raw, sig))
  restored-Restores raw sig = elim (Bool-cases (rd.reverify raw sig)) [
    | inr bad ↦ rw bad (same refl)
    | inl good ↦ elim (Option-cases (rd.parse raw)) [
      | inl e ↦ same (ground arith)
      | inr (r, e) ↦ back raw sig r good e (ground arith)
    ]
  ]

  decoded-Restores :
      (o : Option (Text × Text))
      → Restores rd l (elim o [ none ↦ l | some pair ↦ restored rd l pair ])
  decoded-Restores none = same refl
  decoded-Restores (some (raw, sig)) = restored-Restores raw sig

  kept-Restores :
      (o : Option (Option Text))
      → Restores rd l (elim o [
        | some (some text) ↦ elim (decode text) [ none ↦ l | some pair ↦ restored rd l pair ]
        | _ ↦ l
      ])
  kept-Restores (some (some text)) = decoded-Restores (decode text)
  kept-Restores (some none) = same refl
  kept-Restores none = same refl

  restore-Restores : Restores rd l (restore rd l)
  unfolding restore
  restore-Restores = kept-Restores l.kept

  restore-fetched : ((restore rd l).fetched ≡ l.fetched) × ((restore rd l).max_age ≡ l.max_age)
  restore-fetched = elim restore-Restores [
    | same e ↦ (ap (λ k. k.fetched) e, ap (λ k. k.max_age) e)
    | back raw sig r good parsed e ↦ (ap (λ k. k.fetched) e, ap (λ k. k.max_age) e)
  ]

-- Fail closed: of a list that starts with no copy of known age, whatever its state file gives back,
-- a copy may be relied on only if some fetch of the run since then succeeded no longer than `max_age`
-- ago.
pub known_confirmed :
    {R : Type 0} (rd : Reader R) (l : RevocationList R) (ws : List (World × World)) (now : ℕ)
    (r : R)
    → l.fetched ≡ none
    → get rd (run rd (restore rd l) ws) now ≡ known r
    → (k : RevocationList R) × (v : World) × Makes rd (restore rd l) ws k v
      × Confirms rd k v
      × (now - v.now ≤ l.max_age)
known_confirmed rd l ws now r new h =
    let s = restore rd l in
    let (held, (t, at, fresh), stands) = (get-known_iff rd (run rd s ws) now r).0 h in
    let kept =
      run-keeps rd AnyWorld (λ k. k.max_age ≡ l.max_age) (fetch_once-max_age rd l.max_age) s ws
        (All-any ws) (restore-fetched rd l).1 in
    elim (run-fetched rd s ws t at) [
      | inl old ↦ absurd (ground (arith, (restore-fetched rd l).0))
      | inr (k, v, made, success, when) ↦ (k, v, made, success, ground arith)
    ]

module _ {R : Type 0} (rd : Reader R) (version : R → ℕ)
    (ordered : (a b : R) → rd.older a b ≡ ltb (version a) (version b)) where
  abbrev AtLeast : ℕ → RevocationList R → Type 0
  AtLeast n l = (c : R) × (l.current ≡ some c) × (n ≤ version c)

  fetch_once-AtLeast :
      (n : ℕ) (l : RevocationList R) (w : World)
      → AnyWorld w
      → AtLeast n l
      → AtLeast n (fetch_once rd l w).0
  unfolding fail
  fetch_once-AtLeast n l w _ (c, held, bound) = elim (fetch_once-Outcome rd l w) [
    | failing e made ↦ rw made (c, held, bound)
    | confirmed d tag kept_copy made ↦ rw made (c, held, bound)
    | replaced text tag sig p kept parsed order signed_by made ↦
        let fresh : rd.older p c ≡ false = subst (λ o. NotOlder rd o p) held order in
        rw made (p, refl, ground (arith, ordered p c))
  ]

  -- Never backwards: where `older` compares version numbers, a copy that is held stays held through
  -- any run of fetches, whatever they meet, by a list whose version is at least its own.
  pub run_version :
      (l : RevocationList R) (ws : List (World × World)) (c : R)
      → l.current ≡ some c
      → (d : R) × ((run rd l ws).current ≡ some d) × (version c ≤ version d)
  run_version l ws c held =
      run-keeps rd AnyWorld (AtLeast (version c)) (fetch_once-AtLeast (version c)) l ws (All-any ws)
        (c, held, omega arith)

module _ {R : Type 0} (rd : Reader R) (Genuine : Text → Text → Type 0)
    (reverify_sound : (raw sig : Text) → rd.reverify raw sig ≡ true → Genuine raw sig) where
  -- What a signature check accepts is genuine.
  abbrev pub IsSound : World → Type 0
  IsSound w = (text tag sig : Text) → w.check text tag ≡ signed sig → Genuine text sig

  -- Either no copy is held, or the one held parses from the bytes kept, and they are genuine.
  abbrev pub IsAuthentic : RevocationList R → Type 0
  IsAuthentic l =
      (l.from_file ≡ false)
      × ((l.current ≡ none)
          ⊎ ((c : R) × (l.current ≡ some c) × (rd.parse l.raw ≡ some c) × Genuine l.raw l.sig))

  fetch_once-IsAuthentic :
      (verifies : rd.verifies ≡ true) (l : RevocationList R) (w : World)
      → IsSound w
      → IsAuthentic l
      → IsAuthentic (fetch_once rd l w).0
  unfolding fail
  fetch_once-IsAuthentic verifies l w sound h = elim (fetch_once-Outcome rd l w) [
    | failing e made ↦ rw made h
    | confirmed d tag kept_copy made ↦ rw made h
    | replaced text tag sig p kept parsed order signed_by made ↦
        let genuine : Genuine text sig = elim signed_by [
          | inl free ↦ absurd (ground (arith, h.0))
          | inr passed ↦ sound text tag sig passed
        ] in
        rw made (h.0, inr (p, refl, parsed, genuine))
  ]

  restore-IsAuthentic :
      (l : RevocationList R) → l.from_file ≡ false → l.current ≡ none → IsAuthentic (restore rd l)
  restore-IsAuthentic l fetched_from new = elim (restore-Restores rd l) [
    | same e ↦ rw e (fetched_from, inl new)
    | back raw sig r good parsed e ↦
        rw e (fetched_from, inr (r, refl, parsed, reverify_sound raw sig good))
  ]

  -- Where signatures are checked, the copy that a fetched list holds after any run, started with no
  -- copy or with what the state file gives back, was parsed from bytes whose signature is genuine, as
  -- far as the two checks accept genuine signatures only.
  pub run-IsAuthentic :
      (l : RevocationList R) (ws : List (World × World))
      → rd.verifies ≡ true
      → l.from_file ≡ false
      → l.current ≡ none
      → All (λ v. IsSound v.0 × IsSound v.1) ws
      → IsAuthentic (run rd (restore rd l) ws)
  run-IsAuthentic l ws verifies fetched_from new sound =
      run-keeps rd IsSound IsAuthentic (fetch_once-IsAuthentic verifies) (restore rd l) ws sound
        (restore-IsAuthentic l fetched_from new)
