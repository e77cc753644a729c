-- ===== src/Admin/Serving/Expansion.antt =====
-- Whom the lists of a block name, in the directory as it is read (reload.go: tolerantExpand,
-- expandLists).
use fileshare.Prelude.{
  ◌≡◌, refl, sym, subst, ◌≢◌, ◌↔◌, ◌⊎◌, inl, inr, Bool, true, false, Option, none, some, List, [],
  ◌∷◌, ◌++◌, Memᴰ, arith, if◌then◌else◌, Option-cases, Text,
}
use fileshare.Access.Principal.{Principal, ClaimRule, by_name, Split, ok, bad_rule, split_rules}
use fileshare.Access.Principal.Matching.{Holds}
use fileshare.Access.Share.Policy.{Listed}
use fileshare.Admin.{ShareBlock}
use fileshare.Admin.Serving.{
  GroupAnswer, members, no_such_group, empty_group, unreadable_group, Machine, join_members,
  tolerant_expand, Lists, expand_both, expand_lists,
}

-- A name stands for itself, or is a group's, and then for the group's members.
abbrev pub Named : Machine → List Text → Text → Type 0
Named m names t =
    (Memᴰ t names × (m.is_group t ≡ false))
    ⊎ ((g : Text) × (ms : List Text) × Memᴰ g names
        × (m.is_group g ≡ true)
        × (m.group g ≡ members ms)
        × Memᴰ t ms)

-- Entries that name somebody: by a name, or by a rule that holds of them.
abbrev pub NamesPerson : Machine → List Text → Principal → Type 0
NamesPerson m entries p =
    (names : List Text) × (rules : List ClaimRule) × (split_rules entries ≡ ok names rules)
    × (((by_name p ≡ true) × Named m names p.name)
        ⊎ ((p.federated ≡ true) × ((r : ClaimRule) × Memᴰ r rules × Holds p r.kind r.value)))

some_injective : {a b : List Text} → some a ≡ some b → a ≡ b
some_injective e = cc

append-mem : (xs ys : List Text) {t : Text} → Memᴰ t (xs ++ ys) → Memᴰ t xs ⊎ Memᴰ t ys
append-mem [] ys m = inr m
append-mem (x ∷ xs) ys (Memᴰ.head e) = inl (Memᴰ.head e)
append-mem (x ∷ xs) ys (Memᴰ.tail m) = elim (append-mem xs ys m) [
  | inl a ↦ inl (Memᴰ.tail a)
  | inr b ↦ inr b
]

append-left : (xs ys : List Text) {t : Text} → Memᴰ t xs → Memᴰ t (xs ++ ys)
append-left [] ys m = elim m [ ]
append-left (x ∷ xs) ys (Memᴰ.head e) = Memᴰ.head e
append-left (x ∷ xs) ys (Memᴰ.tail m) = Memᴰ.tail (append-left xs ys m)

append-right : (xs ys : List Text) {t : Text} → Memᴰ t ys → Memᴰ t (xs ++ ys)
append-right [] ys m = m
append-right (x ∷ xs) ys m = Memᴰ.tail (append-right xs ys m)

module _ (m : Machine) where
  one_more : {t : Text} (n : Text) (names : List Text) → Named m names t → Named m (n ∷ names) t
  one_more n names (inl (k, e)) = inl (Memᴰ.tail k, e)
  one_more n names (inr (g, ms, k, y, e, a)) = inr (g, ms, Memᴰ.tail k, y, e, a)

  -- Whom a list names, its first entry names or the others.
  first_or_later :
      (n : Text) (names : List Text) {t : Text}
      → Named m (n ∷ names) t
      → ((t ≡ n) × (m.is_group n ≡ false))
        ⊎ ((ms : List Text) × (m.is_group n ≡ true) × (m.group n ≡ members ms) × Memᴰ t ms)
        ⊎ Named m names t
  first_or_later n names (inl (Memᴰ.head q, e)) = inl (q, subst (λ u. m.is_group u ≡ false) q e)
  first_or_later n names (inl (Memᴰ.tail k, e)) = inr (inr (inl (k, e)))
  first_or_later n names (inr (g, ms, Memᴰ.head q, e, gives, k)) = inr (
      inl
        (ms, subst (λ u. m.is_group u ≡ true) q e, subst (λ u. m.group u ≡ members ms) q gives, k))
  first_or_later n names (inr (g, ms, Memᴰ.tail q, y, e, a)) = inr (inr (inr (g, ms, q, y, e, a)))

  abbrev Expands : List Text → List Text → Type 0
  Expands names out = (t : Text) → Memᴰ t out ↔ Named m names t

  -- An entry that is a person's name, and one that is a group's, with its members or without any.
  person-Expands :
      (n : Text) (names out : List Text)
      → m.is_group n ≡ false
      → Expands names out
      → Expands (n ∷ names) (n ∷ out)
  person-Expands n names out e h t = (to, from)
    where
      to : Memᴰ t (n ∷ out) → Named m (n ∷ names) t
      to (Memᴰ.head q) = inl (Memᴰ.head q, subst (λ u. m.is_group u ≡ false) (sym q) e)
      to (Memᴰ.tail k) = one_more n names ((h t).0 k)

      from : Named m (n ∷ names) t → Memᴰ t (n ∷ out)
      from k = elim (first_or_later n names k) [
        | inl (q, _) ↦ Memᴰ.head q
        | inr (inl (ms, y, _, _)) ↦ absurd (ground arith)
        | inr (inr later) ↦ Memᴰ.tail ((h t).1 later)
      ]

  group-Expands :
      (n : Text) (names ms out : List Text)
      → m.is_group n ≡ true
      → m.group n ≡ members ms
      → Expands names out
      → Expands (n ∷ names) (ms ++ out)
  group-Expands n names ms out y gives h t = (to, from)
    where
      to : Memᴰ t (ms ++ out) → Named m (n ∷ names) t
      to k = elim (append-mem ms out k) [
        | inl a ↦ inr (n, ms, Memᴰ.head refl, y, gives, a)
        | inr b ↦ one_more n names ((h t).0 b)
      ]

      from : Named m (n ∷ names) t → Memᴰ t (ms ++ out)
      from k = elim (first_or_later n names k) [
        | inl (q, e) ↦ absurd (ground arith)
        | inr (inl (ns, _, gave, a)) ↦
            let same : ns ≡ ms = cc in append-left ms out (subst (Memᴰ t) same a)
        | inr (inr later) ↦ append-right ms out ((h t).1 later)
      ]

  nobody-Expands :
      (n : Text) (names out : List Text)
      → m.is_group n ≡ true
      → ((ms : List Text) → m.group n ≢ members ms)
      → Expands names out
      → Expands (n ∷ names) out
  nobody-Expands n names out y none_there h t = (
    (λ k. one_more n names ((h t).0 k)),
    λ k. elim (first_or_later n names k) [
      | inl (q, e) ↦ absurd (ground arith)
      | inr (inl (ms, _, gives, a)) ↦ absurd (none_there ms gives)
      | inr (inr later) ↦ (h t).1 later
    ],
  )

  -- The expansion of a list has in it exactly whom the list names.
  pub tolerant_expand-Named :
      (names out : List Text) → tolerant_expand m names ≡ some out → Expands names out
  unfolding tolerant_expand
  tolerant_expand-Named [] out h = subst (Expands []) nothing (λ t. (
    (λ k. elim k [ ]),
    λ k. elim k [ inl (a, e) ↦ elim a [ ] | inr (g, ms, a, y, e, b) ↦ elim a [ ] ],
  ))
    where
      nothing : [] ≡ out
      nothing = cc
  tolerant_expand-Named (n ∷ names) out h =
      entry (m.is_group n) refl (tolerant_expand m names) (tolerant_expand-Named names) h
    where
      grouped :
          (a : GroupAnswer) (o : Option (List Text))
          → m.is_group n ≡ true
          → m.group n ≡ a
          → ((out : List Text) → o ≡ some out → Expands names out)
          → join_members a o ≡ some out
          → Expands (n ∷ names) out
      grouped (members ms) none y gives h k = absurd (cc)
      grouped (members ms) (some r) y gives h k =
          subst (Expands (n ∷ names)) (some_injective k)
            (group-Expands n names ms r y gives (h r refl))
      grouped no_such_group o y gives h k =
          nobody-Expands n names out y (λ ms e. absurd (cc)) (h out k)
      grouped empty_group o y gives h k =
          nobody-Expands n names out y (λ ms e. absurd (cc)) (h out k)
      grouped unreadable_group o y gives h k = absurd (cc)

      entry :
          (g : Bool)
          → m.is_group n ≡ g
          → (o : Option (List Text)) → ((out : List Text) → o ≡ some out → Expands names out)
          → (if g
              then join_members (m.group n) o
              else elim o [ none ↦ none | some rest ↦ some (n ∷ rest) ])
            ≡ some out
          → Expands (n ∷ names) out
      entry true y o h k = grouped (m.group n) o y refl h k
      entry false e none h k = absurd (cc)
      entry false e (some r) h k =
          subst (Expands (n ∷ names)) (some_injective k) (person-Expands n names r e (h r refl))

-- Lists that were expanded from entries that were split.
pub expand_both-lists :
    (m : Machine) (s w : Split) (l : Lists)
    → expand_both m s w ≡ some l
    → (s ≡ ok l.allow_names l.allow_claims)
      × (w ≡ ok l.writer_names l.writer_claims)
      × (tolerant_expand m l.allow_names ≡ some l.allow)
      × (tolerant_expand m l.writer_names ≡ some l.writers)
expand_both-lists m (bad_rule r) w l h = absurd (ground arith)
expand_both-lists m (ok an ac) (bad_rule r) l h = absurd (ground arith)
expand_both-lists m (ok an ac) (ok wn wc) l h = elim (Option-cases (tolerant_expand m an)) [
  | inl e ↦ absurd (ground arith)
  | inr (x, e) ↦ elim (Option-cases (tolerant_expand m wn)) [
    | inl f ↦ absurd (ground arith)
    | inr (y, f) ↦ (ground arith, ground arith, ground arith, ground arith)
  ]
]

Listed-NamesPerson :
    (m : Machine) (entries names expanded : List Text) (rules : List ClaimRule) (p : Principal)
    → split_rules entries ≡ ok names rules
    → tolerant_expand m names ≡ some expanded
    → Listed p expanded rules
    → NamesPerson m entries p
Listed-NamesPerson m entries names expanded rules p s e (inl (by, k)) =
    (names, rules, s, inl (by, (tolerant_expand-Named m names expanded e p.name).0 k))
Listed-NamesPerson m entries names expanded rules p s e (inr rule) = (names, rules, s, inr rule)

-- Whom the lists of a block have in them, its entries name.
module _ (m : Machine) (b : ShareBlock) (l : Lists) (read : expand_lists m b ≡ some l)
    (p : Principal) where
  pub allow-NamesPerson : Listed p l.allow l.allow_claims → NamesPerson m b.allow p
  unfolding expand_lists
  allow-NamesPerson h =
      let (s, w, e, f) = expand_both-lists m (split_rules b.allow) (split_rules b.writers) l read in
      Listed-NamesPerson m b.allow l.allow_names l.allow l.allow_claims p s e h

  pub writers-NamesPerson : Listed p l.writers l.writer_claims → NamesPerson m b.writers p
  unfolding expand_lists
  writers-NamesPerson h =
      let (s, w, e, f) = expand_both-lists m (split_rules b.allow) (split_rules b.writers) l read in
      Listed-NamesPerson m b.writers l.writer_names l.writers l.writer_claims p w f h
