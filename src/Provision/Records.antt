-- ===== src/Provision/Records.antt =====
-- state.go: what the provisioner's records keep when one is added, replaced or removed.
use fileshare.Prelude.{
  ℕ, ◌≡◌, refl, subst, ◌≢◌, ◌⊎◌, inl, inr, true, false, none, some, List, [], ◌∷◌, ◌++◌, arith,
  Bool-cases, Option-cases, ◌==◌, ℕ_eq, list_eq_iff, List_eq, All, All-append, All-delete_if,
  contains, Text,
}
use fileshare.Provision.Service.{held_ids}
use fileshare.Provision.{Record, is_at, find, put, remove, update}

-- Two records name different volumes.
abbrev pub Differ : Record → Record → Type 0
Differ x y = (x.parent ≢ y.parent) ⊎ (x.name ≢ y.name)

-- Two records name different volumes, and hold no project id in common; 0 is none.
abbrev pub Apart : Record → Record → Type 0
Apart x y = Differ x y × ((x.project_id ≡ 0) ⊎ (x.project_id ≢ y.project_id))

abbrev pub IsDistinct : List Record → Type 0
IsDistinct [] = Unit
IsDistinct (x ∷ xs) = All (Apart x) xs × IsDistinct xs

-- Every record of this volume has this project id.
abbrev pub Has : Text → Text → ℕ → Record → Type 0
Has k n pid x = ((x.parent ≢ k) ⊎ (x.name ≢ n)) ⊎ (x.project_id ≡ pid)

is_at-true : (k n : Text) (x : Record) → is_at k n x ≡ true → (x.parent ≡ k) × (x.name ≡ n)
is_at-true k n x h =
    ((list_eq_iff x.parent k).0 (ground arith), (list_eq_iff x.name n).0 (ground arith))

is_at-false : (k n : Text) (x : Record) → is_at k n x ≡ false → (x.parent ≢ k) ⊎ (x.name ≢ n)
is_at-false k n x h = ground (arith, list_eq_iff x.parent k, list_eq_iff x.name n)

pub remove-All :
    (P : Record → Type 0) (k n : Text) (xs : List Record) → All P xs → All P (remove k n xs)
unfolding remove
remove-All P k n xs h = All-delete_if P (is_at k n) xs h

pub remove-IsDistinct : (k n : Text) (xs : List Record) → IsDistinct xs → IsDistinct (remove k n xs)
unfolding remove
remove-IsDistinct k n [] h = tt
remove-IsDistinct k n (x ∷ xs) h = elim (Bool-cases (is_at k n x)) [
  | inl e ↦ rw (e, remove) (remove-IsDistinct k n xs h.1)
  | inr e ↦ rw (e, remove) (remove-All (Apart x) k n xs h.0, remove-IsDistinct k n xs h.1)
]

module _ (r : Record) where
  -- What holds of the record that `update` replaces, and of the one it writes, holds of all.
  pub update-All :
      (P : Record → Type 0)
      → ((x : Record)
          → x.parent ≡ r.parent
          → x.name ≡ r.name
          → x.project_id ≡ r.project_id
          → P x
          → P r)
      → (xs : List Record) → All (Has r.parent r.name r.project_id) xs
      → All P xs
      → All P (update r xs)
  unfolding update
  update-All P move [] same h = tt
  update-All P move (x ∷ xs) same h = elim (Bool-cases (is_at r.parent r.name x)) [
    | inr e ↦ rw (e, update) (h.0, update-All P move xs same.1 h.1)
    | inl e ↦
        let (pe, ne) = is_at-true r.parent r.name x e in
        let pid : x.project_id ≡ r.project_id = elim same.0 [
          | inl off ↦ absurd (ground arith)
          | inr at ↦ at
        ] in
        rw (e, update) (move x pe ne pid h.0, h.1)
  ]

  pub update-Has :
      (k n : Text) (pid : ℕ) (xs : List Record)
      → All (Has r.parent r.name r.project_id) xs
      → All (Has k n pid) xs
      → All (Has k n pid) (update r xs)
  update-Has k n pid = update-All (Has k n pid) (λ x pe ne same h. ground arith)

  -- A record with the name and the project id of another is apart from what that one is apart from.
  Apart-All :
      (x : Record)
      → x.parent ≡ r.parent
      → x.name ≡ r.name
      → x.project_id ≡ r.project_id
      → (xs : List Record) → All (Apart x) xs
      → All (Apart r) xs
  Apart-All x pe ne pid [] h = tt
  Apart-All x pe ne pid (y ∷ xs) h = (ground arith, Apart-All x pe ne pid xs h.1)

  pub update-IsDistinct :
      (xs : List Record)
      → All (Has r.parent r.name r.project_id) xs
      → IsDistinct xs
      → IsDistinct (update r xs)
  unfolding update
  update-IsDistinct [] same h = tt
  update-IsDistinct (x ∷ xs) same h = elim (Bool-cases (is_at r.parent r.name x)) [
    | inr e ↦
        rw (e, update)
          (
            update-All (Apart x) (λ y pe ne pid a. ground arith) xs same.1 h.0,
            update-IsDistinct xs same.1 h.1,
          )
    | inl e ↦
        let (pe, ne) = is_at-true r.parent r.name x e in
        let pid : x.project_id ≡ r.project_id = elim same.0 [
          | inl off ↦ absurd (ground arith)
          | inr at ↦ at
        ] in
        rw (e, update) (Apart-All x pe ne pid xs h.0, h.1)
  ]

All-snoc :
    (P : Record → Type 0) (xs : List Record) (r : Record) → All P xs → P r → All P (xs ++ r ∷ [])
All-snoc P xs r h p = All-append P xs (r ∷ []) h (p, tt)

append-IsDistinct :
    (xs : List Record) (r : Record)
    → IsDistinct xs
    → All (λ x. Apart x r) xs
    → IsDistinct (xs ++ r ∷ [])
append-IsDistinct [] r h a = (tt, tt)
append-IsDistinct (x ∷ xs) r h a = (All-snoc (Apart x) xs r h.0 a.0, append-IsDistinct xs r h.1 a.1)

find-none : (k n : Text) (xs : List Record) → find k n xs ≡ none → All (λ x. is_at k n x ≡ false) xs
unfolding find
find-none k n [] h = tt
find-none k n (x ∷ xs) h = (ground arith, find-none k n xs (ground arith))

-- No record but those without one holds this project id.
abbrev pub Unheld : ℕ → List Record → Type 0
Unheld pid xs = All (λ x. (x.project_id ≡ 0) ⊎ (x.project_id ≢ pid)) xs

Apart-new :
    (r : Record) (xs : List Record)
    → All (λ x. is_at r.parent r.name x ≡ false) xs
    → Unheld r.project_id xs
    → All (λ x. Apart x r) xs
Apart-new r [] h u = tt
Apart-new r (x ∷ xs) h u = ((is_at-false r.parent r.name x h.0, u.0), Apart-new r xs h.1 u.1)

pub put-IsDistinct :
    (r : Record) (xs : List Record) → IsDistinct xs → Unheld r.project_id xs → IsDistinct (put r xs)
unfolding put
put-IsDistinct r xs h u = elim (Option-cases (find r.parent r.name xs)) [
  | inr (x, e) ↦ rw (e, put) h
  | inl e ↦
      rw (e, put) (append-IsDistinct xs r h (Apart-new r xs (find-none r.parent r.name xs e) u))
]

pub put-All :
    (P : Record → Type 0) (r : Record) (xs : List Record) → All P xs → P r → All P (put r xs)
unfolding put
put-All P r xs h p = elim (Option-cases (find r.parent r.name xs)) [
  | inr (x, e) ↦ rw (e, put) h
  | inl e ↦ rw (e, put) (All-snoc P xs r h p)
]

others-Has :
    (r : Record) (xs : List Record)
    → All (λ x. is_at r.parent r.name x ≡ false) xs
    → All (Has r.parent r.name r.project_id) xs
others-Has r [] h = tt
others-Has r (x ∷ xs) h = (inl (is_at-false r.parent r.name x h.0), others-Has r xs h.1)

-- A volume that had no record has the one that `put` adds only.
pub put-Has :
    (r : Record) (xs : List Record)
    → find r.parent r.name xs ≡ none
    → All (Has r.parent r.name r.project_id) (put r xs)
unfolding put
put-Has r xs e =
    rw (e, put)
      (All-snoc (Has r.parent r.name r.project_id) xs r
        (others-Has r xs (find-none r.parent r.name xs e)) (inr refl))

pub Unheld-zero : (xs : List Record) → Unheld 0 xs
Unheld-zero [] = tt
Unheld-zero (x ∷ xs) = elim (Bool-cases (x.project_id == 0)) [
  | inl e ↦ (inl (ground arith), Unheld-zero xs)
  | inr d ↦ (inr (ground arith), Unheld-zero xs)
]

Has-others :
    (k n : Text) (x : Record) (xs : List Record)
    → x.parent ≡ k
    → x.name ≡ n
    → All (Apart x) xs
    → All (Has k n x.project_id) xs
Has-others k n x [] pe ne h = tt
Has-others k n x (y ∷ xs) pe ne h = (ground arith, Has-others k n x xs pe ne h.1)

is_at_off :
    (k n : Text) (x r : Record)
    → is_at k n x ≡ false
    → r.parent ≡ k
    → r.name ≡ n
    → (x.parent ≢ r.parent) ⊎ (x.name ≢ r.name)
is_at_off k n x r h pe ne = elim (is_at-false k n x h) [
  | inl d ↦ inl (ground arith)
  | inr d ↦ inr (ground arith)
]

-- Records with distinct names: the one found is the only one of its volume.
pub find-Has :
    (k n : Text) (xs : List Record) (r : Record)
    → find k n xs ≡ some r
    → IsDistinct xs
    → (r.parent ≡ k) × (r.name ≡ n) × All (Has r.parent r.name r.project_id) xs
unfolding find
find-Has k n [] r e h = absurd (cc)
find-Has k n (x ∷ xs) r e h = elim (Bool-cases (is_at k n x)) [
  | inl at ↦
      let (pe, ne) = is_at-true k n x at in
      let same : x ≡ r = ground arith in
      subst (λ z. (z.parent ≡ k) × (z.name ≡ n) × All (Has z.parent z.name z.project_id) (x ∷ xs))
        same (pe, ne, (inr refl, Has-others x.parent x.name x xs refl refl h.0))
  | inr off ↦
      let (pe, ne, rest) = find-Has k n xs r (ground arith) h.1 in
      (pe, ne, (inl (is_at_off k n x r off pe ne), rest))
]

pub contains-Unheld :
    (pid : ℕ) (xs : List Record) → contains (held_ids xs) pid ≡ false → Unheld pid xs
contains-Unheld pid [] h = tt
contains-Unheld pid (x ∷ xs) h = elim (Bool-cases (x.project_id == 0)) [
  | inl zero_id ↦ (ground arith, contains-Unheld pid xs (ground arith))
  | inr held ↦ (ground arith, contains-Unheld pid xs (ground arith))
]
