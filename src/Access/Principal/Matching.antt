-- ===== src/Access/Principal/Matching.antt =====
-- When a principal matches a share's rules, said without the loops of principal.go.
use mathlib.Core.List.Memᴰ
use fileshare.Prelude.{
  ℕ, ◌≡◌, refl, sym, ap, subst, ◌≢◌, ◌↔◌, inl, inr, Bool, true, none, some, List, [], ◌∷◌, ◌++◌,
  Memᴰ, arith, Option-cases, ◌==◌, ℕ_eq, list_eq_iff, List_eq, All, any_iff, contains, Text,
  to_lower,
}
use fileshare.Access.Principal.{
  Principal, Kind, groups, user, domain, ClaimRule, after_last, domain_of, rule_holds, matches,
}

-- `y` stands after the last `b` of `s`.
abbrev pub IsAfterLast : ℕ → Text → Text → Type 0
IsAfterLast b s y = (x : Text) × (s ≡ x ++ b ∷ y) × All (λ c. c ≢ b) y

after_last-none : (b : ℕ) (s : Text) → after_last b s ≡ none → All (λ c. c ≢ b) s
after_last-none b [] h = tt
after_last-none b (c ∷ s) h = ground (arith, after_last-none b s)

after_last_sound : (b : ℕ) (s y : Text) → after_last b s ≡ some y → IsAfterLast b s y
after_last_sound b [] y h = cc
after_last_sound b (c ∷ s) y h = elim (Option-cases (after_last b s)) [
  | inr (t, e) ↦
      let (x, split, free) = after_last_sound b s y (ground arith) in
      (c ∷ x, ap (◌∷◌ c) split, free)
  | inl e ↦ ([], ground arith, ground (arith, after_last-none b s e))
]

none_of_free : (b : ℕ) (s : Text) → All (λ c. c ≢ b) s → after_last b s ≡ none
none_of_free b [] h = refl
none_of_free b (c ∷ s) h = ground (arith, none_of_free b s h.1)

after_last_complete : (b : ℕ) (x y : Text) → All (λ c. c ≢ b) y → after_last b (x ++ b ∷ y) ≡ some y
after_last_complete b [] y h = ground (arith, none_of_free b y h)
after_last_complete b (c ∷ x) y h = ground (arith, after_last_complete b x y h)

-- The scope of a name: what follows its last "@", in lower case, if that is not empty.
abbrev pub HasDomain : Text → Text → Type 0
HasDomain name d = (y : Text) × IsAfterLast b'@' name y × (y ≢ []) × (d ≡ to_lower y)

pub domain_of_sound : (name : Text) → domain_of name ≢ [] → HasDomain name (domain_of name)
unfolding domain_of
domain_of_sound name h = elim (Option-cases (after_last b'@' name)) [
  | inl e ↦ absurd (h (ground arith))
  | inr (y, e) ↦ (y, after_last_sound b'@' name y e, (λ z. h (ground arith)), ground arith)
]

pub domain_of_complete : (name d : Text) → HasDomain name d → domain_of name ≡ d
unfolding domain_of
domain_of_complete name d (y, (x, split, free), some_text, lowered) =
    rw (split, domain_of, after_last_complete b'@' x y free) (sym lowered)

to_lower-ne-nil : (y : Text) → y ≢ [] → to_lower y ≢ []
to_lower-ne-nil [] h = absurd (h refl)
to_lower-ne-nil (c ∷ y) h = cc

-- What each rule asks of a principal.
abbrev pub Holds : Principal → Kind → Text → Type 0
Holds p user v = v ≡ p.name
Holds p groups v = Memᴰ v p.groups
Holds p domain v = HasDomain p.name (to_lower v)

pub contains_iff : (xs : List Text) (v : Text) → (contains xs v ≡ true) ↔ Memᴰ v xs
contains_iff xs v = (
  (λ h.
      let (x, m, e) = (any_iff (λ x. x == v) xs).0 h in Memᴰ.cast (sym ((list_eq_iff x v).0 e)) m),
  (λ m. (any_iff (λ x. x == v) xs).1 (v, m, (list_eq_iff v v).1 refl)),
)

domain_holds_iff :
    (p : Principal) (v : Text) → (rule_holds p domain v ≡ true) ↔ HasDomain p.name (to_lower v)
unfolding rule_holds
domain_holds_iff p v = (to, from)
  where
    to : rule_holds p domain v ≡ true → HasDomain p.name (to_lower v)
    to h =
        let e : domain_of p.name ≡ to_lower v =
          (list_eq_iff (domain_of p.name) (to_lower v)).0 (ground arith) in
        subst (HasDomain p.name) e (domain_of_sound p.name (ground arith))

    from : HasDomain p.name (to_lower v) → rule_holds p domain v ≡ true
    from h =
        let e = domain_of_complete p.name (to_lower v) h in
        let (y, after, filled, lowered) = h in
        ground (
          arith,
          e,
          (list_eq_iff (domain_of p.name) (to_lower v)).1 e,
          lowered,
          to_lower-ne-nil y filled,
        )

pub rule_holds_iff : (p : Principal) (k : Kind) (v : Text) → (rule_holds p k v ≡ true) ↔ Holds p k v
unfolding rule_holds
rule_holds_iff p user v = list_eq_iff v p.name
rule_holds_iff p groups v = contains_iff p.groups v
rule_holds_iff p domain v = domain_holds_iff p v

-- A principal matches a list of rules exactly when the provider vouched for it and some rule of the
-- list holds: the name is the rule's, the groups hold the rule's value, or what follows the last "@"
-- of the name is not empty and is the rule's domain, case aside.
pub matches_iff :
    (p : Principal) (rules : List ClaimRule)
    → (matches p rules ≡ true)
      ↔ ((p.federated ≡ true) × ((r : ClaimRule) × Memᴰ r rules × Holds p r.kind r.value))
unfolding matches
matches_iff p rules = (to, from)
  where
    test : ClaimRule → Bool
    test r = rule_holds p r.kind r.value

    to :
        matches p rules ≡ true
        → (p.federated ≡ true) × ((r : ClaimRule) × Memᴰ r rules × Holds p r.kind r.value)
    to h =
        let (r, m, e) = (any_iff test rules).0 (ground arith) in
        (ground arith, (r, m, (rule_holds_iff p r.kind r.value).0 e))

    from :
        (p.federated ≡ true) × ((r : ClaimRule) × Memᴰ r rules × Holds p r.kind r.value)
        → matches p rules ≡ true
    from (fed, (r, m, holds)) =
        ground (arith, (any_iff test rules).1 (r, m, (rule_holds_iff p r.kind r.value).1 holds))
