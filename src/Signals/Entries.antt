-- ===== src/Signals/Entries.antt =====
-- What noting and pruning do to the entries of a revocation store (caep.go), and whom its check lets
-- through.
use fileshare.Prelude.{
  ℕ, ◌-◌, ◌≤◌, ◌<◌, ◌≡◌, refl, sym, ap, ◌∙◌, subst, ◌≢◌, ◌↔◌, inl, inr, true, Option, none, some,
  List, [], ◌∷◌, arith, ltb, if◌then◌else◌, Bool-cases, ◌==◌, ℕ_eq, list_eq_iff, List_eq, All,
  contains, Text,
}
use fileshare.Signals.{
  Entry, SignalStore, entry_of, since_of, put_entry, note, note_all, prune, Refused, person_keys,
  check_entry, check_keys, is_silent, check,
}

abbrev or_zero : Option ℕ → ℕ
or_zero o = elim o [ none ↦ 0 | some t ↦ t ]

entry_of-put :
    (k j : Text) (a : ℕ) (es : List Entry)
    → entry_of k (put_entry j a es) ≡ (if j == k then some a else entry_of k es)
entry_of-put k j a [] = refl
entry_of-put k j a (e ∷ es) = ground (
  arith,
  list_eq_iff j k,
  list_eq_iff e.subject j,
  list_eq_iff e.subject k,
  entry_of-put k j a es,
)

since_of-put :
    (k j : Text) (a : ℕ) (es : List Entry)
    → since_of k (put_entry j a es) ≡ (if j == k then a else since_of k es)
since_of-put k j a es = elim (Bool-cases (j == k)) [
  | inl e ↦ ap or_zero (entry_of-put k j a es) ∙ rw e refl
  | inr e ↦ ap or_zero (entry_of-put k j a es) ∙ rw e refl
]

pub since_of-note :
    (k j : Text) (a : ℕ) (es : List Entry) → since_of k es ≤ since_of k (note j a es)
unfolding note
since_of-note k j a es = elim (Bool-cases (ltb (since_of j es) a)) [
  | inl e ↦ elim (Bool-cases (j == k)) [
    | inl q ↦
        let s : j ≡ k = (list_eq_iff j k).0 q in
        let le : since_of k es < a = subst (λ i. since_of i es < a) s (ground arith) in
        rw e (rw (since_of-put k j a es) (rw q (omega arith)))
    | inr q ↦ rw e (rw (since_of-put k j a es) (rw q (omega arith)))
  ]
  | inr e ↦ rw e (omega arith)
]

pub note-since : (k : Text) (a : ℕ) (es : List Entry) → a ≤ since_of k (note k a es)
unfolding note
note-since k a es = elim (Bool-cases (ltb (since_of k es) a)) [
  | inl e ↦ rw e (rw (since_of-put k k a es) (rw ((list_eq_iff k k).1 refl) (omega arith)))
  | inr e ↦ rw e (ground arith)
]

pub since_of-note_all :
    (k : Text) (ks : List Text) (a : ℕ) (es : List Entry)
    → since_of k es ≤ since_of k (note_all ks a es)
unfolding note_all
since_of-note_all k [] a es = omega arith
since_of-note_all k (j ∷ ks) a es =
    omega (arith, since_of-note k j a es, since_of-note_all k ks a (note j a es))

-- Every key that is noted is revoked since the time it was noted with, or since later.
pub note_all-since :
    (k : Text) (ks : List Text) (a : ℕ) (es : List Entry)
    → contains ks k ≡ true
    → a ≤ since_of k (note_all ks a es)
unfolding note_all
note_all-since k [] a es h = absurd (ground arith)
note_all-since k (j ∷ ks) a es h = elim (Bool-cases (j == k)) [
  | inl e ↦
      let s : j ≡ k = (list_eq_iff j k).0 e in
      let first : a ≤ since_of k (note j a es) =
        subst (λ i. a ≤ since_of k (note i a es)) (sym s) (note-since k a es) in
      omega (arith, first, since_of-note_all k ks a (note j a es))
  | inr e ↦ note_all-since k ks a (note j a es) (ground arith)
]

pub prune-since :
    (k : Text) (t now retain : ℕ) (es : List Entry)
    → 0 < t
    → now - retain ≤ t
    → t ≤ since_of k es
    → t ≤ since_of k (prune now retain es)
unfolding prune
prune-since k t now retain [] p h q = omega arith
prune-since k t now retain (e ∷ es) p h q = elim (Bool-cases (e.subject == k)) [
  | inl s ↦ ground arith
  | inr s ↦ ground (arith, prune-since k t now retain es)
]

pub entry_of-since :
    (k : Text) (t : ℕ) (es : List Entry)
    → 0 < t
    → t ≤ since_of k es
    → (a : ℕ) × (entry_of k es ≡ some a) × (t ≤ a)
entry_of-since k t es p h = go (entry_of k es) refl h
  where
    go :
        (o : Option ℕ)
        → entry_of k es ≡ o
        → t ≤ or_zero o
        → (a : ℕ) × (entry_of k es ≡ some a) × (t ≤ a)
    go none e le = absurd (omega arith)
    go (some a) e le = (a, e, le)

pub check_keys-refuses :
    (k : Text) (ks : List Text) (issued a : ℕ) (es : List Entry)
    → contains ks k ≡ true
    → entry_of k es ≡ some a
    → issued ≤ a
    → check_keys ks issued es ≢ none
unfolding check_keys
check_keys-refuses k [] issued a es h e le = absurd (ground arith)
check_keys-refuses k (j ∷ ks) issued a es h e le = elim (Bool-cases (j == k)) [
  | inl q ↦ let s : j ≡ k = (list_eq_iff j k).0 q in rw s (rw e (ground arith))
  | inr q ↦ ground (arith, check_keys-refuses k ks issued a es)
]

-- A key that voids nothing of this issue time: it has no entry, or one that is older.
abbrev pub Spares : ℕ → Option ℕ → Type 0
Spares issued none = Unit
Spares issued (some a) = (0 < issued) × (a < issued)

check_entry-none :
    (issued : ℕ) (o : Option ℕ) (rest : Option Refused)
    → (check_entry issued o rest ≡ none) ↔ (Spares issued o × (rest ≡ none))
check_entry-none issued none rest = (λ h. (tt, h), λ h. h.1)
check_entry-none issued (some a) rest = (λ h. ground arith, λ h. ground arith)

check_keys-none :
    (ks : List Text) (issued : ℕ) (es : List Entry)
    → (check_keys ks issued es ≡ none) ↔ All (λ k. Spares issued (entry_of k es)) ks
unfolding check_keys
check_keys-none [] issued es = (λ h. tt, λ h. refl)
check_keys-none (k ∷ ks) issued es =
    let (to, from) = check_entry-none issued (entry_of k es) (check_keys ks issued es) in
    let (inside, back) = check_keys-none ks issued es in
    (λ h. ((to h).0, inside (to h).1), λ h. from (h.0, back h.1))

-- A credential counts exactly when the transmitter was heard from at a known time no longer ago than
-- max_age and each key that names its person, by account, by issuer and subject or by scope, has no
-- entry, or the credential was issued at a known time after the entry's.
pub check_iff :
    (now : ℕ) (name iss sub : Text) (issued : ℕ) (s : SignalStore)
    → (check now name iss sub issued s ≡ none) ↔ (
        (0 < s.heard)
        × (now - s.heard ≤ s.max_age)
        × All (λ k. Spares issued (entry_of k s.entries)) (person_keys name iss sub))
unfolding check
check_iff now name iss sub issued s = elim (Bool-cases (is_silent now s)) [
  | inl e ↦ rw e (λ h. absurd (cc), λ h. absurd (ground arith))
  | inr e ↦
      let (to, from) = check_keys-none (person_keys name iss sub) issued s.entries in
      rw e (λ h. (ground arith, ground arith, to h), λ h. from h.2)
]
