-- ===== src/Admin/Changes/Sound.antt =====
-- What an update, a grant and a revocation make of one share, and such a change within the state.
use fileshare.Prelude.{
  ℕ, ◌≡◌, refl, ◌⊎◌, inl, inr, Bool, true, false, ◌&&◌, Option, none, some, List, arith,
  if◌then◌else◌, Bool-cases, ◌==◌, ℕ_eq, List_eq, any, index_of, Text,
}
use fileshare.Admin.{
  Grant, ManagedShare, StateFile, not_found, precondition, refused, Result, done, failed, ◌>>=◌,
  pure, named, share_index, Site, from_files,
}
use fileshare.Admin.Gives.{Gives, Gives-bind, Gives-guard}
use fileshare.Admin.Edits.{managed, change_at, edit, writes}
use fileshare.Admin.Changes.{
  UpdateRequest, set_read_only, set_protocols, updated, put_grant, granted, take_grant, revoked,
}
use fileshare.Admin.Changes.Grants.{AreKept, IsPut, IsTaken, put_grant_lem, take_grant_lem}
use fileshare.Admin.Changes.Rights.{IsSoundShare, IsSound, Moves, IsChange, change_at_lem}

-- What an edit gives: a sound state, moved as told.
abbrev pub Turns :
    Site → Text → (Text → Option Bool → Option Bool) → StateFile → Result StateFile → Type 0
Turns site name g st = Gives (λ next. IsSound site next.shares × Moves name g st.shares next.shares)

pub managed-Gives :
    (site : Site) (st : StateFile) (name : Text)
    → Gives (λ i. index_of (named name) st.shares ≡ some i) (managed site st name)
unfolding managed share_index
managed-Gives site st name =
    Gives-guard (λ i. index_of (named name) st.shares ≡ some i) (from_files site name) precondition
      (λ u. elim (index_of (named name) st.shares) [
        | none ↦ failed (refused not_found)
        | some i ↦ done i
      ])
      (λ h. at (index_of (named name) st.shares))
  where
    at :
        (r : Option ℕ)
        → Gives (λ i. r ≡ some i) (elim r [ none ↦ failed (refused not_found) | some i ↦ done i ])
    at none = tt
    at (some i) = refl

pub edit_lem :
    (site : Site) (name : Text) (f : ManagedShare → Result ManagedShare)
    (g : Text → Option Bool → Option Bool) (st : StateFile)
    → ((s : ManagedShare) → IsSoundShare s → Gives (IsChange g s) (f s))
    → IsSound site st.shares
    → Turns site name g st (edit site name f st)
unfolding edit
edit_lem site name f g st hf s =
    Gives-bind (λ i. index_of (named name) st.shares ≡ some i)
      (λ next. IsSound site next.shares × Moves name g st.shares next.shares)
      (λ i. change_at f i st.shares >>= (λ shares. pure (record st { shares = shares })))
      (managed site st name) (managed-Gives site st name)
      (λ i e.
        Gives-bind (λ next. IsSound site next × Moves name g st.shares next)
          (λ next. IsSound site next.shares × Moves name g st.shares next.shares)
          (λ shares. pure (record st { shares = shares })) (change_at f i st.shares)
          (change_at_lem site name f g st.shares i hf e s) (λ next h. h))

set_protocols-IsChange :
    (p : Option (List Text)) (s u : ManagedShare)
    → IsChange (λ t r. r) s u
    → IsChange (λ t r. r) s (set_protocols p u)
set_protocols-IsChange none s u h = h
set_protocols-IsChange (some names) s u h = h

set_read_only-IsChange :
    (ro : Option Bool) (s : ManagedShare)
    → IsSoundShare s
    → Gives (IsChange (λ t r. r) s) (set_read_only ro s)
set_read_only-IsChange none s h = (h, refl, λ t. refl)
set_read_only-IsChange (some b) s (k, h) =
    Gives-guard (IsChange (λ t r. r) s) (b && any writes s.grants) precondition
      (λ u. pure (record s { read_only = b })) (λ n. ((k, λ e. ground arith), refl, λ t. refl))

pub updated-IsChange :
    (req : UpdateRequest) (s : ManagedShare)
    → IsSoundShare s
    → Gives (IsChange (λ t r. r) s) (updated req s)
unfolding updated
updated-IsChange req s h =
    Gives-bind (IsChange (λ t r. r) s) (IsChange (λ t r. r) s)
      (λ u. pure (set_protocols req.protocols u)) (set_read_only req.read_only s)
      (set_read_only-IsChange req.read_only s h) (λ u c. set_protocols-IsChange req.protocols s u c)

pub granted-IsChange :
    (v : Text) (w : Bool) (s : ManagedShare)
    → IsSoundShare s
    → Gives
        (IsChange (λ t r. if v == t then some w else r) s)
        (granted (record { subject = v; write = w }) s)
unfolding granted
granted-IsChange v w s (k, h) =
    Gives-guard (IsChange (λ t r. if v == t then some w else r) s) (w && s.read_only) precondition
      (λ u. put_grant new s.grants >>= placed)
      (λ n.
        Gives-bind (λ hs. AreKept hs × IsPut new s.grants hs)
          (IsChange (λ t r. if v == t then some w else r) s) placed (put_grant new s.grants)
          (put_grant_lem new s.grants k)
          (λ hs (kept, put). ((kept, λ ro. without hs n put.1 ro), refl, put.0)))
  where
    new : Grant
    new = record { subject = v; write = w }

    placed : List Grant → Result ManagedShare
    placed grants = pure (record s { grants = grants })

    without :
        (hs : List Grant)
        → (w && s.read_only) ≡ false
        → (any writes hs ≡ true → (w ≡ true) ⊎ (any writes s.grants ≡ true))
        → s.read_only ≡ true
        → any writes hs ≡ false
    without hs n p ro = elim (Bool-cases (any writes hs)) [
      | inr e ↦ e
      | inl e ↦ elim (p e) [ inl q ↦ absurd (ground arith) | inr q ↦ absurd (ground (arith, h ro)) ]
    ]

pub revoked-IsChange :
    (v : Text) (s : ManagedShare)
    → IsSoundShare s
    → Gives (IsChange (λ t r. if v == t then none else r) s) (revoked v s)
unfolding revoked
revoked-IsChange v s (k, h) =
    Gives-bind (λ hs. AreKept hs × IsTaken v s.grants hs)
      (IsChange (λ t r. if v == t then none else r) s)
      (λ grants. pure (record s { grants = grants })) (take_grant v s.grants)
      (take_grant_lem v s.grants k)
      (λ hs (kept, taken). ((kept, λ ro. ground (arith, taken.1, h ro)), refl, taken.0))
