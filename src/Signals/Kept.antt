-- ===== src/Signals/Kept.antt =====
-- What it takes that a revocation store and its file remember a revocation (caep.go), and that each of
-- its operations does so.
use fileshare.Prelude.{
  ℕ, ◌+◌, ◌≤◌, ◌<◌, ◌≡◌, refl, subst, ◌≢◌, inl, inr, Bool, true, false, none, some, List, arith,
  Bool-cases, ℕ_eq, List_eq, contains, Text,
}
use fileshare.Signals.{
  StoreFile, absent, broken, stored, SignalStore, new_store, open_store, since_of, note_all, prune,
  save, revoke, set_stream, heard_from, person_keys, is_silent, check,
}
use fileshare.Signals.Entries.{
  since_of-note_all, note_all-since, prune-since, entry_of-since, check_keys-refuses,
}

-- The file holds the revocation.
abbrev pub Filed : Text → ℕ → StoreFile → Type 0
Filed k t absent = ⊥
Filed k t broken = ⊥
Filed k t (stored version stream es) = (version ≡ 1) × (t ≤ since_of k es)

-- The store and its file have this key revoked since this time or later, and keep it as long.
pub record Remembers (k : Text) (t retain : ℕ) (s : SignalStore) : Type 0 where
  pub held : t ≤ since_of k s.entries
  pub filed : Filed k t s.file
  pub keeps : s.retain ≡ retain

module _ {k : Text} {t retain : ℕ} where
  save-Remembers :
      (writes : Bool) (s : SignalStore)
      → t ≤ since_of k s.entries
      → Filed k t s.file
      → s.retain ≡ retain
      → Remembers k t retain (save writes s).1
  unfolding save
  save-Remembers true s h f q = record { held = h; filed = (refl, h); keeps = q }
  save-Remembers false s h f q = record { held = h; filed = f; keeps = q }

  pub revoke-Remembers :
      (writes : Bool) (now : ℕ) (keys : List Text) (at : ℕ) {s : SignalStore}
      → 0 < t
      → now ≤ t + retain
      → Remembers k t retain s
      → Remembers k t retain (revoke writes now keys at s).1
  unfolding revoke
  revoke-Remembers writes now keys at {s} p le r =
      save-Remembers writes (record s { entries = prune now s.retain (note_all keys at s.entries) })
        (prune-since k t now s.retain (note_all keys at s.entries) p (omega (arith, r.keeps))
          (omega (arith, r.held, since_of-note_all k keys at s.entries)))
        r.filed r.keeps

  -- A revocation that was written down.
  pub revoke-kept :
      (now : ℕ) (keys : List Text) (writes : Bool) (s : SignalStore)
      → 0 < t
      → now ≤ t + retain
      → s.retain ≡ retain
      → contains keys k ≡ true
      → (revoke writes now keys t s).0 ≡ true
      → Remembers k t retain (revoke writes now keys t s).1
  unfolding revoke save
  revoke-kept now keys true s p le q m ok =
      let h =
        prune-since k t now s.retain (note_all keys t s.entries) p (omega (arith, q))
          (note_all-since k keys t s.entries m) in
      record { held = h; filed = (refl, h); keeps = q }
  revoke-kept now keys false s p le q m ok = absurd (cc)

  pub set_stream-Remembers :
      (writes : Bool) (id : Text) {s : SignalStore}
      → Remembers k t retain s
      → Remembers k t retain (set_stream writes id s).1
  unfolding set_stream
  set_stream-Remembers writes id {s} r =
      save-Remembers writes (record s { stream = id }) r.held r.filed r.keeps

  pub heard_from-Remembers :
      (now : ℕ) {s : SignalStore} → Remembers k t retain s → Remembers k t retain (heard_from now s)
  unfolding heard_from
  heard_from-Remembers now r = record { held = r.held; filed = r.filed; keeps = r.keeps }

  -- A restart reads it back.
  pub open_store-Remembers :
      (max_age : ℕ) (f : StoreFile) {s : SignalStore}
      → Filed k t f
      → open_store retain max_age f ≡ some s
      → Remembers k t retain s
  unfolding open_store
  open_store-Remembers max_age absent h e = absurd h
  open_store-Remembers max_age broken h e = absurd h
  open_store-Remembers max_age (stored version stream es) {s} h e =
      let q : new_store retain max_age (stored version stream es) es stream ≡ s = ground arith in
      subst (Remembers k t retain) q (record { held = h.1; filed = h; keeps = refl })

  pub check-refuses :
      (now : ℕ) (name iss sub : Text) (issued : ℕ) {s : SignalStore}
      → 0 < t
      → Remembers k t retain s
      → contains (person_keys name iss sub) k ≡ true
      → issued ≤ t
      → check now name iss sub issued s ≢ none
  unfolding check
  check-refuses now name iss sub issued {s} p r m le =
      let (a, e, after) = entry_of-since k t s.entries p r.held in
      let no_pass =
        check_keys-refuses k (person_keys name iss sub) issued a s.entries m e (omega arith) in
      elim (Bool-cases (is_silent now s)) [
        | inl silent ↦ rw silent (λ h. cc)
        | inr heard ↦ rw heard no_pass
      ]
