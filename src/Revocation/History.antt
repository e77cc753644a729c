-- ===== src/Revocation/History.antt =====
-- What holds of a revocation list over any sequence of fetches.
use fileshare.Prelude.{
  ℕ, ◌+◌, ◌≤◌, ◌≡◌, refl, ap, ◌↔◌, ◌⊎◌, inl, inr, Bool, true, false, Option, none, some, List, [],
  ◌∷◌, arith, if◌then◌else◌, Bool-cases,
}
use fileshare.Revocation.Outcome.{failing, confirmed, replaced, fetch_once-Outcome}
use fileshare.Revocation.{
  Err, reissued, Reader, RevocationList, World, too_old, expired, known, unknown, past_age,
  past_expiry, is_reissued, stand, get, fail, fetch_once, fetch,
}

both_pass :
    {R : Type 0} (c r : R) (old over : Bool)
    → (if old then unknown too_old else if over then unknown expired else known c) ≡ known r
    → (c ≡ r) × (old ≡ false) × (over ≡ false)
both_pass c r true over h = absurd (cc)
both_pass c r false true h = absurd (cc)
both_pass c r false false h = (cc, refl, refl)

stand-known :
    {R : Type 0} (rd : Reader R) (l : RevocationList R) (now : ℕ) (r : R) (o : Option R)
    → stand rd l now o ≡ known r
    → (o ≡ some r)
      × (past_age now l.max_age l.fetched ≡ false)
      × (past_expiry now (rd.expires r) ≡ false)
unfolding stand
stand-known rd l now r none h = absurd (cc)
stand-known rd l now r (some c) h =
    let (same, fresh, stands) =
      both_pass c r (past_age now l.max_age l.fetched) (past_expiry now (rd.expires c)) h in
    (ap some same, fresh, rw same at stands)

young :
    (now max_age : ℕ) (o : Option ℕ)
    → past_age now max_age o ≡ false
    → (t : ℕ) × (o ≡ some t) × (now ≤ t + max_age)
young now max_age none h = absurd (cc)
young now max_age (some t) h = (t, refl, ground arith)

not_over :
    (now : ℕ) (o : Option ℕ)
    → past_expiry now o ≡ false
    → (o ≡ none) ⊎ ((e : ℕ) × (o ≡ some e) × (now ≤ e))
not_over now none h = inl refl
not_over now (some e) h = inr (e, refl, ground arith)

-- A list may be relied on exactly when a copy is held, was confirmed at a known time no longer ago
-- than `max_age`, and has not passed the expiry it states, if it states one.
pub get-known_iff :
    {R : Type 0} (rd : Reader R) (l : RevocationList R) (now : ℕ) (r : R)
    → (get rd l now ≡ known r) ↔ (
        (l.current ≡ some r)
        × ((t : ℕ) × (l.fetched ≡ some t) × (now ≤ t + l.max_age))
        × ((rd.expires r ≡ none) ⊎ ((e : ℕ) × (rd.expires r ≡ some e) × (now ≤ e))))
unfolding get stand
get-known_iff rd l now r = (to, from)
  where
    to :
        get rd l now ≡ known r
        → (l.current ≡ some r)
          × ((t : ℕ) × (l.fetched ≡ some t) × (now ≤ t + l.max_age))
          × ((rd.expires r ≡ none) ⊎ ((e : ℕ) × (rd.expires r ≡ some e) × (now ≤ e)))
    to h =
        let (held, fresh, stands) = stand-known rd l now r l.current h in
        (held, young now l.max_age l.fetched fresh, not_over now (rd.expires r) stands)

    from :
        (l.current ≡ some r)
          × ((t : ℕ) × (l.fetched ≡ some t) × (now ≤ t + l.max_age))
          × ((rd.expires r ≡ none) ⊎ ((e : ℕ) × (rd.expires r ≡ some e) × (now ≤ e)))
        → get rd l now ≡ known r
    from (held, (t, at, fresh), inl never) = rw (held, at, never) ground arith
    from (held, (t, at, fresh), inr (e, ends, before)) = rw (held, at, ends) ground arith

-- `fetch` over and over, each with the world of its one retry.
unfoldable pub run :
    {R : Type 0} → Reader R → RevocationList R → List (World × World) → RevocationList R
run rd l [] = l
run rd l ((w, w') ∷ ws) = run rd (fetch rd l w w').0 ws

-- A fetch that a run makes: the state it is made in, and its world.
pub data Makes {R : Type 0} (rd : Reader R)
    : RevocationList R → List (World × World) → RevocationList R → World → Type 0 where
  first :
      {l : RevocationList R} {w w' : World} {ws : List (World × World)}
      → Makes rd l ((w, w') ∷ ws) l w
  retry :
      {l : RevocationList R} {w w' : World} {ws : List (World × World)}
      → (fetch_once rd l w).1 ≡ inr reissued
      → Makes rd l ((w, w') ∷ ws) (fetch_once rd l w).0 w'
  later :
      {l k : RevocationList R} {w w' v : World} {ws : List (World × World)}
      → Makes rd (fetch rd l w w').0 ws k v
      → Makes rd l ((w, w') ∷ ws) k v

-- A fetch made in this state and world succeeds, and is recent enough to be relied on now.
abbrev pub Confirms : {R : Type 0} → Reader R → RevocationList R → World → Type 0
Confirms rd l w = (changed : Bool) × ((fetch_once rd l w).1 ≡ inl changed)

module _ {R : Type 0} (rd : Reader R) where
  fetch_once-fetched :
      (l : RevocationList R) (w : World) (t : ℕ)
      → (fetch_once rd l w).0.fetched ≡ some t
      → (l.fetched ≡ some t) ⊎ (Confirms rd l w × (w.now ≡ t))
  unfolding fail
  fetch_once-fetched l w t h = elim (fetch_once-Outcome rd l w) [
    | failing e made ↦ inl (rw made at h)
    | confirmed c tag held made ↦ inr ((false, ap (λ x. x.1) made), some_injective (rw made at h))
    | replaced text tag sig p kept parsed order signed_by made ↦
        inr ((true, ap (λ x. x.1) made), some_injective (rw made at h))
  ]
    where
      some_injective : {a b : ℕ} → some a ≡ some b → a ≡ b
      some_injective e = cc

  pub fetch-cases :
      (l : RevocationList R) (w w' : World)
      → (fetch rd l w w' ≡ fetch_once rd l w)
        ⊎ (((fetch_once rd l w).1 ≡ inr reissued)
            × (fetch rd l w w' ≡ fetch_once rd (fetch_once rd l w).0 w'))
  unfolding fetch
  fetch-cases l w w' = elim (Bool-cases (is_reissued (fetch_once rd l w).1)) [
    | inl again ↦ inr (reissued_of (fetch_once rd l w).1 again, rw (fetch, again))
    | inr done ↦ inl (rw (fetch, done))
  ]
    where
      reissued_of : (r : Bool ⊎ Err) → is_reissued r ≡ true → r ≡ inr reissued
      reissued_of (inl b) h = cc
      reissued_of (inr reissued) h = refl
      reissued_of (inr _) h = cc

  -- Where the time a run's copy was last confirmed comes from.
  pub run-fetched :
      (l : RevocationList R) (ws : List (World × World)) (t : ℕ)
      → (run rd l ws).fetched ≡ some t
      → (l.fetched ≡ some t)
        ⊎ ((k : RevocationList R) × (v : World) × Makes rd l ws k v × Confirms rd k v × (v.now ≡ t))
  unfolding run
  run-fetched l [] t h = inl h
  run-fetched l ((w, w') ∷ ws) t h = elim (run-fetched (fetch rd l w w').0 ws t h) [
    | inr (k, v, made, success, at) ↦ inr (k, v, later made, success, at)
    | inl now ↦ elim (fetch-cases l w w') [
      | inl once ↦ elim (fetch_once-fetched l w t (rw once at now)) [
        | inl before ↦ inl before
        | inr (success, at) ↦ inr (l, w, first, success, at)
      ]
      | inr (again, twice) ↦
          elim (fetch_once-fetched (fetch_once rd l w).0 w' t (rw twice at now)) [
            | inr (success, at) ↦ inr ((fetch_once rd l w).0, w', retry again, success, at)
            | inl before ↦ elim (fetch_once-fetched l w t before) [
              | inl start ↦ inl start
              | inr (success, at) ↦ inr (l, w, first, success, at)
            ]
          ]
    ]
  ]
