-- ===== src/Prelude/Lists.antt =====
-- Lists, measured and searched as the program's loops do.
use Prim.Native.Nat.{ℕ, zero, suc, ◌+◌}
use mathlib.Core.Path.{◌≡◌, refl, sym, ap, subst}
use mathlib.Core.Logic.{◌↔◌, inl, inr}
use mathlib.Core.Bool.{Bool, true, false, ◌&&◌, ◌||◌}
use mathlib.Core.Option.{Option, none, some}
use mathlib.Core.List.{List, [], ◌∷◌, ◌++◌, Memᴰ, map}
use native.Mathlib.Omega.{arith}
use fileshare.Prelude.Tests.{if◌then◌else◌, Bool-cases, Comparable, ◌==◌, ℕ_eq, List_eq}

module _ {ℓ} {A : Type ℓ} where
  abbrev pub length : List A → ℕ
  length [] = 0
  length (x ∷ xs) = suc (length xs)

  abbrev pub replicate : ℕ → A → List A
  replicate zero a = []
  replicate (suc n) a = a ∷ replicate n a

  -- `slices.ContainsFunc`
  abbrev pub any : (A → Bool) → List A → Bool
  any p [] = false
  any p (x ∷ xs) = p x || any p xs

  abbrev pub all : (A → Bool) → List A → Bool
  all p [] = true
  all p (x ∷ xs) = p x && all p xs

  -- What stays when the elements that a test picks are deleted, as `slices.DeleteFunc` does.
  abbrev pub delete_if : (A → Bool) → List A → List A
  delete_if p [] = []
  delete_if p (x ∷ xs) = let rest = delete_if p xs in if p x then rest else x ∷ rest

  -- The first element that a test picks.
  abbrev pub find_first : (A → Bool) → List A → Option A
  find_first p [] = none
  find_first p (x ∷ xs) = let rest = find_first p xs in if p x then some x else rest

  abbrev pub null : List A → Bool
  null [] = true
  null (x ∷ xs) = false

  pub null-nil : (xs : List A) → null xs ≡ true → xs ≡ []
  null-nil [] h = refl
  null-nil (x ∷ xs) h = absurd (cc)

module _ {ℓ κ} {A : Type ℓ} where
  abbrev pub All : (A → Type κ) → List A → Type κ
  All P [] = Unit
  All P (x ∷ xs) = P x × All P xs

  pub All-mem : (P : A → Type κ) (xs : List A) {x : A} → All P xs → Memᴰ x xs → P x
  All-mem P [] h m = elim m [ ]
  All-mem P (y ∷ xs) h (Memᴰ.head e) = subst P (sym e) h.0
  All-mem P (y ∷ xs) h (Memᴰ.tail m) = All-mem P xs h.1 m

  pub All-append : (P : A → Type κ) (xs ys : List A) → All P xs → All P ys → All P (xs ++ ys)
  All-append P [] ys h k = k
  All-append P (x ∷ xs) ys h k = (h.0, All-append P xs ys h.1 k)

  pub All-delete_if :
      (P : A → Type κ) (p : A → Bool) (xs : List A) → All P xs → All P (delete_if p xs)
  All-delete_if P p [] h = tt
  All-delete_if P p (x ∷ xs) h = ground (arith, All-delete_if P p xs h.1)

module _ {ℓ} {A : Type ℓ} where
  pub length-append : (xs ys : List A) → length (xs ++ ys) ≡ length xs + length ys
  length-append [] ys = omega arith
  length-append (x ∷ xs) ys = omega (arith, length-append xs ys)

  pub any_iff :
      (p : A → Bool) (xs : List A) → (any p xs ≡ true) ↔ ((x : A) × Memᴰ x xs × (p x ≡ true))
  any_iff p xs = (to xs, from xs)
    where
      to : (xs : List A) → any p xs ≡ true → (x : A) × Memᴰ x xs × (p x ≡ true)
      to [] h = absurd (ground arith)
      to (x ∷ xs) h = elim (Bool-cases (p x)) [
        | inl e ↦ (x, Memᴰ.head refl, e)
        | inr e ↦ let (y, m, q) = to xs (ground arith) in (y, Memᴰ.tail m, q)
      ]

      from : (xs : List A) → (x : A) × Memᴰ x xs × (p x ≡ true) → any p xs ≡ true
      from xs (x, m, q) = found xs m
        where
          found : (xs : List A) → Memᴰ x xs → any p xs ≡ true
          found [] m = elim m [ ]
          found (y ∷ ys) (Memᴰ.head e) = ground arith
          found (y ∷ ys) (Memᴰ.tail m) = ground (arith, found ys m)

  pub any-false : (p : A → Bool) (xs : List A) → any p xs ≡ false → All (λ x. p x ≡ false) xs
  any-false p [] h = tt
  any-false p (x ∷ xs) h = ground (arith, any-false p xs)

-- `slices.Contains`
abbrev pub contains {ℓ} : {A : Type ℓ} ⦃e : Comparable A⦄ → List A → A → Bool
contains xs a = any (λ x. x == a) xs

module _ {ℓ} {A : Type ℓ} where
  -- `slices.IndexFunc`; `none` is -1.
  abbrev pub index_of : (A → Bool) → List A → Option ℕ
  index_of p [] = none
  index_of p (x ∷ xs) =
      let rest = index_of p xs in
      if p x then some 0 else elim rest [ none ↦ none | some i ↦ some (suc i) ]

  abbrev pub nth : List A → ℕ → Option A
  nth [] i = none
  nth (x ∷ xs) zero = some x
  nth (x ∷ xs) (suc i) = nth xs i

  -- `slices.Delete` of one element.
  abbrev pub remove_at : ℕ → List A → List A
  remove_at i [] = []
  remove_at zero (x ∷ xs) = xs
  remove_at (suc i) (x ∷ xs) = x ∷ remove_at i xs

  abbrev pub set_at : ℕ → A → List A → List A
  set_at i y [] = []
  set_at zero y (x ∷ xs) = y ∷ xs
  set_at (suc i) y (x ∷ xs) = x ∷ set_at i y xs

  pub delete_if-none : (p : A → Bool) (xs : List A) → any p xs ≡ false → delete_if p xs ≡ xs
  delete_if-none p [] h = refl
  delete_if-none p (x ∷ xs) h = ground (arith, delete_if-none p xs)

  pub any-append : (p : A → Bool) (xs ys : List A) → any p (xs ++ ys) ≡ (any p xs || any p ys)
  any-append p [] ys = refl
  any-append p (x ∷ xs) ys = ground (arith, any-append p xs ys)

  pub delete_if-append :
      (p : A → Bool) (xs ys : List A) → delete_if p (xs ++ ys) ≡ delete_if p xs ++ delete_if p ys
  delete_if-append p [] ys = refl
  delete_if-append p (x ∷ xs) ys = ground (arith, delete_if-append p xs ys)

module _ {ℓ} {A : Type ℓ} where
  pub append-nil : (xs : List A) → xs ++ [] ≡ xs
  append-nil [] = refl
  append-nil (x ∷ xs) = ap (λ ys. x ∷ ys) (append-nil xs)

  pub append-one : (xs : List A) (y : A) (ys : List A) → (xs ++ (y ∷ [])) ++ ys ≡ xs ++ (y ∷ ys)
  append-one [] y ys = refl
  append-one (x ∷ xs) y ys = ap (λ zs. x ∷ zs) (append-one xs y ys)

pub All-find {ℓ κ} :
    {A : Type ℓ} (P : A → Type κ) (p : A → Bool) (xs : List A) {x : A}
    → find_first p xs ≡ some x
    → All P xs
    → P x × (p x ≡ true)
All-find P p [] h k = absurd (ground arith)
All-find P p (y ∷ ys) {x} h k = at (p y) refl h (λ g. All-find P p ys g k.1)
  where
    at :
        (t : Bool)
        → p y ≡ t
        → (if t then some y else find_first p ys) ≡ some x
        → (find_first p ys ≡ some x → P x × (p x ≡ true))
        → P x × (p x ≡ true)
    at true e g later =
        let same : y ≡ x = ground arith in (subst P same k.0, subst (λ z. p z ≡ true) same e)
    at false e g later = later g

module _ {ℓ κ} {A : Type ℓ} (P : A → Type κ) where
  pub All-nth : (xs : List A) (i : ℕ) {x : A} → nth xs i ≡ some x → All P xs → P x
  All-nth [] i e h = absurd (cc)
  All-nth (y ∷ ys) zero {x} e h = let q : y ≡ x = ground arith in subst P q h.0
  All-nth (y ∷ ys) (suc i) e h = All-nth ys i e h.1

  pub All-set_at : (xs : List A) (i : ℕ) (x : A) → P x → All P xs → All P (set_at i x xs)
  All-set_at [] i x p h = tt
  All-set_at (y ∷ ys) zero x p h = (p, h.1)
  All-set_at (y ∷ ys) (suc i) x p h = (h.0, All-set_at ys i x p h.1)

pub All-map {ℓ κ μ} :
    {A : Type ℓ} (P : A → Type κ) (Q : A → Type μ) (g : A → A) (xs : List A)
    → ((x : A) → P x → Q (g x))
    → All P xs
    → All Q (map g xs)
All-map P Q g [] f h = tt
All-map P Q g (x ∷ xs) f h = (f x h.0, All-map P Q g xs f h.1)

pub all-All {ℓ} :
    {A : Type ℓ} (p : A → Bool) (xs : List A) → all p xs ≡ true → All (λ x. p x ≡ true) xs
all-All p [] h = tt
all-All p (x ∷ xs) h = (ground arith, all-All p xs (ground arith))

pub All-both {ℓ κ μ} :
    {A : Type ℓ} (P : A → Type κ) (Q : A → Type μ) (xs : List A)
    → All P xs
    → All Q xs
    → All (λ x. P x × Q x) xs
All-both P Q [] h k = tt
All-both P Q (x ∷ xs) h k = ((h.0, k.0), All-both P Q xs h.1 k.1)

pub All-imply {ℓ κ μ} :
    {A : Type ℓ} (P : A → Type κ) (Q : A → Type μ) (xs : List A)
    → ((x : A) → P x → Q x)
    → All P xs
    → All Q xs
All-imply P Q [] f h = tt
All-imply P Q (x ∷ xs) f h = (f x h.0, All-imply P Q xs f h.1)
