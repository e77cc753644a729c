-- ===== src/Admin/Changes/Grants.antt =====
-- The grants of one share as a map from subjects to the right to write, and what Grant and Revoke
-- make of it.
use fileshare.Prelude.{
  suc, ◌≡◌, refl, sym, subst, ◌⊎◌, inl, inr, Bool, true, false, Option, none, some, List, [], ◌∷◌,
  ◌++◌, arith, leb, nat_eq, if◌then◌else◌, Option-cases, ◌==◌, ℕ_eq, list_eq_iff, List_eq, length,
  any, null, length-append, index_of, remove_at, any-append, index_of-Found, index_of-none, lookup,
  distinct, lookup-set, lookup-append, distinct-apart, lookup-remove, distinct-set, distinct-remove,
  distinct-append, Text,
}
use fileshare.Admin.{Grant, precondition, pure}
use fileshare.Admin.Gives.{Gives, Gives-guard}
use fileshare.Admin.Subjects.{max_grants, granted_to}
use fileshare.Admin.Edits.{writes}
use fileshare.Admin.Changes.{put_grant, take_grant}

abbrev pub subject_key : Grant → Text
subject_key g = g.subject

-- What a list of grants gives a subject: nothing, reading (`some false`) or writing (`some true`).
abbrev write_right : Option Grant → Option Bool
write_right none = none
write_right (some g) = some g.write

abbrev pub right_of : Text → List Grant → Option Bool
right_of subject gs = write_right (lookup subject_key subject gs)

-- Grants as the API keeps them: at least one, at most a thousand, no subject twice.
abbrev pub AreKept : List Grant → Type 0
AreKept gs =
    (distinct subject_key gs ≡ true) × (null gs ≡ false) × (leb (length gs) max_grants ≡ true)

-- Replacing a subject's grant or adding it.
abbrev pub IsPut : Grant → List Grant → List Grant → Type 0
IsPut g gs hs =
    ((t : Text) → right_of t hs ≡ (if g.subject == t then some g.write else right_of t gs))
    × (any writes hs ≡ true → (g.write ≡ true) ⊎ (any writes gs ≡ true))

-- Taking it out.
abbrev pub IsTaken : Text → List Grant → List Grant → Type 0
IsTaken subject gs hs =
    ((t : Text) → right_of t hs ≡ (if subject == t then none else right_of t gs))
    × (any writes hs ≡ true → any writes gs ≡ true)

length-between :
    (b : List Grant) (x y : Grant) (a : List Grant)
    → (length (b ++ (x ∷ a)) ≡ length (b ++ (y ∷ a)))
      × (length (b ++ (x ∷ a)) ≡ suc (length (b ++ a)))
length-between [] x y a = (refl, refl)
length-between (c ∷ b) x y a = ground (arith, length-between b x y a)

set-IsPut :
    (g : Grant) (b : List Grant) (x : Grant) (a : List Grant)
    → any (granted_to g.subject) b ≡ false
    → granted_to g.subject x ≡ true
    → IsPut g (b ++ (x ∷ a)) (b ++ (g ∷ a))
set-IsPut g b x a h hx = (
  λ t. ground (
    arith,
    lookup-set subject_key t g.subject b x g a h ((list_eq_iff x.subject g.subject).0 hx) refl,
  ),
  λ w. ground (arith, any-append writes b (x ∷ a), any-append writes b (g ∷ a)),
)

set-AreKept :
    (g : Grant) (b : List Grant) (x : Grant) (a : List Grant)
    → granted_to g.subject x ≡ true
    → AreKept (b ++ (x ∷ a))
    → AreKept (b ++ (g ∷ a))
set-AreKept g b x a hx (d, f, n) = (
  distinct-set subject_key b x g a (sym ((list_eq_iff x.subject g.subject).0 hx)) d,
  filled b,
  subst (λ m. leb m max_grants ≡ true) (length-between b x g a).0 n,
)
  where
    filled : (b : List Grant) → null (b ++ (g ∷ a)) ≡ false
    filled [] = refl
    filled (c ∷ b) = refl

append-AreKept :
    (g : Grant) (gs : List Grant)
    → any (granted_to g.subject) gs ≡ false
    → distinct subject_key gs ≡ true
    → leb max_grants (length gs) ≡ false
    → AreKept (gs ++ (g ∷ []))
append-AreKept g gs h d n =
    (distinct-append subject_key gs g h d, filled gs, ground (arith, length-append gs (g ∷ [])))
  where
    filled : (b : List Grant) → null (b ++ (g ∷ [])) ≡ false
    filled [] = refl
    filled (c ∷ b) = refl

append-IsPut :
    (g : Grant) (gs : List Grant)
    → any (granted_to g.subject) gs ≡ false
    → IsPut g gs (gs ++ (g ∷ []))
append-IsPut g gs h = (
  λ t. ground (arith, lookup-append subject_key t g.subject gs g h refl),
  λ w. ground (arith, any-append writes gs (g ∷ [])),
)

-- A grant that is put stands for its subject and changes no other.
pub put_grant_lem :
    (g : Grant) (gs : List Grant)
    → AreKept gs
    → Gives (λ hs. AreKept hs × IsPut g gs hs) (put_grant g gs)
unfolding put_grant
put_grant_lem g gs k = elim (Option-cases (index_of (granted_to g.subject) gs)) [
  | inl e ↦
      let h : any (granted_to g.subject) gs ≡ false = index_of-none _ gs e in
      rw (e, Gives)
        (Gives-guard (λ hs. AreKept hs × IsPut g gs hs) (leb max_grants (length gs)) precondition
          (λ u. pure (gs ++ (g ∷ []))) (λ n. (append-AreKept g gs h k.0 n, append-IsPut g gs h)))
  | inr (i, e) ↦
      let f = index_of-Found (granted_to g.subject) gs i e in
      rw (e, Gives)
        (subst (λ hs. AreKept hs × IsPut g gs hs) (sym (f.replaced g))
          (
            set-AreKept g f.before f.at f.after f.hit (subst AreKept f.split k),
            subst (λ xs. IsPut g xs (f.before ++ (g ∷ f.after))) (sym f.split)
                (set-IsPut g f.before f.at f.after f.missed f.hit),
          ))
]

remove-IsTaken :
    (subject : Text) (b : List Grant) (x : Grant) (a : List Grant)
    → any (granted_to subject) b ≡ false
    → granted_to subject x ≡ true
    → distinct subject_key (b ++ (x ∷ a)) ≡ true
    → IsTaken subject (b ++ (x ∷ a)) (b ++ a)
remove-IsTaken subject b x a h hx d =
    let same : x.subject ≡ subject = (list_eq_iff x.subject subject).0 hx in
    let apart : any (granted_to subject) a ≡ false =
      subst (λ k. any (granted_to k) a ≡ false) same (distinct-apart subject_key b x a d).0 in
    (
      λ t. ground (arith, lookup-remove subject_key t subject b x a h same apart),
      λ w. ground (arith, any-append writes b (x ∷ a), any-append writes b a),
    )

remove-AreKept :
    (b : List Grant) (x : Grant) (a : List Grant)
    → nat_eq (length (b ++ (x ∷ a))) 1 ≡ false
    → AreKept (b ++ (x ∷ a))
    → AreKept (b ++ a)
remove-AreKept b x a n (d, f, m) = (
  distinct-remove subject_key b x a d,
  filled (b ++ a) (ground (arith, (length-between b x x a).1)),
  ground (arith, (length-between b x x a).1),
)
  where
    filled : (gs : List Grant) → nat_eq (length gs) 0 ≡ false → null gs ≡ false
    filled [] h = absurd (ground arith)
    filled (g ∷ gs) h = refl

-- A grant that is taken leaves its subject nothing and changes no other.
pub take_grant_lem :
    (subject : Text) (gs : List Grant)
    → AreKept gs
    → Gives (λ hs. AreKept hs × IsTaken subject gs hs) (take_grant subject gs)
unfolding take_grant
take_grant_lem subject gs k = elim (Option-cases (index_of (granted_to subject) gs)) [
  | inl e ↦ rw (e, Gives) tt
  | inr (i, e) ↦
      let f = index_of-Found (granted_to subject) gs i e in
      let kept = subst AreKept f.split k in
      rw (e, Gives)
        (Gives-guard (λ hs. AreKept hs × IsTaken subject gs hs) (nat_eq (length gs) 1) precondition
          (λ u. pure (remove_at i gs))
          (λ n.
            subst (λ hs. AreKept hs × IsTaken subject gs hs) (sym f.removed)
              (
                remove-AreKept f.before f.at f.after
                    (subst (λ xs. nat_eq (length xs) 1 ≡ false) f.split n) kept,
                subst (λ xs. IsTaken subject xs (f.before ++ f.after)) (sym f.split)
                    (remove-IsTaken subject f.before f.at f.after f.missed f.hit kept.0),
              )))
]
