-- ===== src/Prelude/Keyed.antt =====
-- Lists whose elements are told apart by a key: where an element stands, looking one up, and how
-- replacing, deleting and appending change what is looked up.
use Prim.Native.Nat.{ℕ, suc}
use mathlib.Core.Path.{◌≡◌, refl, sym, ap, subst}
use mathlib.Core.Logic.{inl, inr}
use mathlib.Core.Bool.{Bool, true, false, not, ◌&&◌}
use mathlib.Core.Option.{Option, none, some}
use mathlib.Core.List.{List, [], ◌∷◌, ◌++◌}
use native.Mathlib.Omega.{arith}
use fileshare.Prelude.Tests.{
  if◌then◌else◌, Bool-cases, Option-cases, Comparable, ◌==◌, ℕ_eq, List_eq,
}
use fileshare.Prelude.Lists.{length, any, find_first, index_of, nth, remove_at, set_at, any-append}

-- The element at an index that a search found, with what stands before and after it.
pub record Found {ℓ} {A : Type ℓ} (p : A → Bool) (i : ℕ) (xs : List A) : Type ℓ where
  pub before : List A
  pub at : A
  pub after : List A
  pub split : xs ≡ before ++ (at ∷ after)
  pub missed : any p before ≡ false
  pub hit : p at ≡ true
  pub removed : remove_at i xs ≡ before ++ after
  pub replaced : (y : A) → set_at i y xs ≡ before ++ (y ∷ after)
  pub gotten : nth xs i ≡ some at
  pub counted : length before ≡ i

module _ {ℓ} {A : Type ℓ} where
  Found-cons :
      (p : A → Bool) (x : A) (xs : List A) (i : ℕ) (f : Found p i xs)
      → p x ≡ false
      → Found p (suc i) (x ∷ xs)
  Found-cons p x xs i f h = record {
    before = x ∷ f.before;
    at = f.at;
    after = f.after;
    split = ap (λ ys. x ∷ ys) f.split;
    missed = ground (arith, f.missed);
    hit = f.hit;
    removed = ap (λ ys. x ∷ ys) f.removed;
    replaced = λ y. ap (λ ys. x ∷ ys) (f.replaced y);
    gotten = f.gotten;
    counted = ap suc f.counted;
  }

  Found-head : (p : A → Bool) (x : A) (xs : List A) → p x ≡ true → Found p 0 (x ∷ xs)
  Found-head p x xs h = record {
    before = [];
    at = x;
    after = xs;
    split = refl;
    missed = refl;
    hit = h;
    removed = refl;
    replaced = λ y. refl;
    gotten = refl;
    counted = refl;
  }

  pub index_of-Found : (p : A → Bool) (xs : List A) (i : ℕ) → index_of p xs ≡ some i → Found p i xs
  index_of-Found p [] i h = absurd (ground arith)
  index_of-Found p (x ∷ xs) i h = elim (Bool-cases (p x)) [
    | inl e ↦
        let q : 0 ≡ i = ground arith in subst (λ j. Found p j (x ∷ xs)) q (Found-head p x xs e)
    | inr e ↦ elim (Option-cases (index_of p xs)) [
      | inl n ↦ absurd (ground arith)
      | inr (j, q) ↦
          let r : suc j ≡ i = ground arith in
          subst (λ k. Found p k (x ∷ xs)) r (Found-cons p x xs j (index_of-Found p xs j q) e)
    ]
  ]

  pub index_of-none : (p : A → Bool) (xs : List A) → index_of p xs ≡ none → any p xs ≡ false
  index_of-none p [] h = refl
  index_of-none p (x ∷ xs) h = elim (Bool-cases (p x)) [
    | inl e ↦ absurd (ground arith)
    | inr e ↦ elim (Option-cases (index_of p xs)) [
      | inl n ↦ ground (arith, index_of-none p xs n)
      | inr (j, q) ↦ absurd (ground arith)
    ]
  ]

module _ {ℓ κ} {A : Type ℓ} {K : Type κ} ⦃e : Comparable K⦄ (key : A → K) where
  abbrev pub keyed : K → A → Bool
  keyed k x = key x == k

  abbrev pub lookup : K → List A → Option A
  lookup k xs = find_first (keyed k) xs

  abbrev pub distinct : List A → Bool
  distinct [] = true
  distinct (x ∷ xs) = not (any (keyed (key x)) xs) && distinct xs

  pub lookup-set :
      (k m : K) (b : List A) (x y : A) (a : List A)
      → any (keyed m) b ≡ false
      → key x ≡ m
      → key y ≡ m
      → lookup k (b ++ (y ∷ a)) ≡ (if m == k then some y else lookup k (b ++ (x ∷ a)))
  lookup-set k m [] x y a h hx hy = ground arith
  lookup-set k m (c ∷ b) x y a h hx hy =
      ground (arith, e.equal_iff m k, lookup-set k m b x y a (ground arith) hx hy)

  pub lookup-none : (k : K) (xs : List A) → any (keyed k) xs ≡ false → lookup k xs ≡ none
  lookup-none k [] h = refl
  lookup-none k (x ∷ xs) h = ground (arith, lookup-none k xs (ground arith))

  pub lookup-append :
      (k m : K) (b : List A) (y : A)
      → any (keyed m) b ≡ false
      → key y ≡ m
      → lookup k (b ++ (y ∷ [])) ≡ (if m == k then some y else lookup k b)
  lookup-append k m [] y h hy = ground arith
  lookup-append k m (c ∷ b) y h hy =
      ground (arith, e.equal_iff m k, lookup-append k m b y (ground arith) hy)

  -- Of the two occurrences of a key, the earlier one hides the later.
  pub distinct-apart :
      (b : List A) (x : A) (a : List A)
      → distinct (b ++ (x ∷ a)) ≡ true
      → (any (keyed (key x)) a ≡ false) × (any (keyed (key x)) b ≡ false)
  distinct-apart [] x a h = (ground arith, refl)
  distinct-apart (c ∷ b) x a h =
      let (u, v) = distinct-apart b x a (ground arith) in
      (
        u,
        ground (
          arith,
          any-append (keyed (key c)) b (x ∷ a),
          e.equal_iff (key x) (key c),
          e.equal_iff (key c) (key x),
        ),
      )

  pub lookup-remove :
      (k m : K) (b : List A) (x : A) (a : List A)
      → any (keyed m) b ≡ false
      → key x ≡ m
      → any (keyed m) a ≡ false
      → lookup k (b ++ a) ≡ (if m == k then none else lookup k (b ++ (x ∷ a)))
  lookup-remove k m [] x a h hx ha = elim (Bool-cases (m == k)) [
    | inl q ↦
        let s : m ≡ k = (e.equal_iff m k).0 q in
        ground (arith, lookup-none k a (subst (λ j. any (keyed j) a ≡ false) s ha))
    | inr q ↦ ground arith
  ]
  lookup-remove k m (c ∷ b) x a h hx ha =
      ground (arith, e.equal_iff m k, lookup-remove k m b x a (ground arith) hx ha)

  pub distinct-set :
      (b : List A) (x y : A) (a : List A)
      → key y ≡ key x
      → distinct (b ++ (x ∷ a)) ≡ true
      → distinct (b ++ (y ∷ a)) ≡ true
  distinct-set [] x y a q h = subst (λ k. (not (any (keyed k) a) && distinct a) ≡ true) (sym q) h
  distinct-set (c ∷ b) x y a q h = ground (
    arith,
    any-append (keyed (key c)) b (x ∷ a),
    any-append (keyed (key c)) b (y ∷ a),
    distinct-set b x y a q (ground arith),
  )

  pub distinct-remove :
      (b : List A) (x : A) (a : List A) → distinct (b ++ (x ∷ a)) ≡ true → distinct (b ++ a) ≡ true
  distinct-remove [] x a h = ground arith
  distinct-remove (c ∷ b) x a h = ground (
    arith,
    any-append (keyed (key c)) b (x ∷ a),
    any-append (keyed (key c)) b a,
    distinct-remove b x a (ground arith),
  )

  pub distinct-append :
      (b : List A) (y : A)
      → any (keyed (key y)) b ≡ false
      → distinct b ≡ true
      → distinct (b ++ (y ∷ [])) ≡ true
  distinct-append [] y h d = refl
  distinct-append (c ∷ b) y h d = ground (
    arith,
    any-append (keyed (key c)) b (y ∷ []),
    e.equal_iff (key c) (key y),
    e.equal_iff (key y) (key c),
    distinct-append b y (ground arith) (ground arith),
  )
