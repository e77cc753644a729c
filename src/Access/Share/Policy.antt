-- ===== src/Access/Share/Policy.antt =====
-- What the lists of a share mean for a principal.
use fileshare.Prelude.{
  ℕ, zero, suc, ◌+◌, ◌≤◌, ◌≡◌, refl, ap, ◌↔◌, ◌⊎◌, inl, inr, true, false, List, [], ◌∷◌, Memᴰ,
  arith, Bool-cases, ℕ_eq, List_eq, length, replicate, contains, Text,
}
use fileshare.Access.Principal.{Principal, ClaimRule, by_name, local, matches}
use fileshare.Access.Principal.Matching.{Holds, contains_iff, matches_iff}
use fileshare.Access.Share.{
  Share, allows_anyone, any_allowed_writes, listed, may_use, read_only_for, anyone_writes,
}

-- Somebody a list names: by a plain name, which is asked of the provider's people only where their
-- names are local names, or by a rule, which is asked of the provider's people only.
abbrev pub Listed : Principal → List Text → List ClaimRule → Type 0
Listed p names rules =
    ((by_name p ≡ true) × Memᴰ p.name names)
    ⊎ ((p.federated ≡ true) × ((r : ClaimRule) × Memᴰ r rules × Holds p r.kind r.value))

listed_iff :
    (p : Principal) (names : List Text) (rules : List ClaimRule)
    → (listed p names rules ≡ true) ↔ Listed p names rules
unfolding listed
listed_iff p names rules = (to, from)
  where
    to : listed p names rules ≡ true → Listed p names rules
    to h = elim (Bool-cases (matches p rules)) [
      | inl e ↦ inr ((matches_iff p rules).0 e)
      | inr e ↦ inl (ground arith, (contains_iff names p.name).0 (ground arith))
    ]

    from : Listed p names rules → listed p names rules ≡ true
    from (inl (named, m)) = ground (arith, (contains_iff names p.name).1 m)
    from (inr h) = ground (arith, (matches_iff p rules).1 h)

-- Nothing was written in `allow`, and nothing stands in it.
abbrev pub IsOpen : Share → Type 0
IsOpen s = (s.allow_named ≡ false) × (s.allow ≡ []) × (s.allow_claims ≡ [])

abbrev pub IsOpenToWrite : Share → Type 0
IsOpenToWrite s = (s.writers_named ≡ false) × (s.writers ≡ []) × (s.writer_claims ≡ [])

-- Somebody may use a share exactly when the share is open or names them; a share whose list was
-- written and has emptied is not open.
pub may_use_iff :
    (s : Share) (p : Principal)
    → (may_use s p ≡ true) ↔ (IsOpen s ⊎ Listed p s.allow s.allow_claims)
unfolding may_use
may_use_iff s p = (to, from)
  where
    to : may_use s p ≡ true → IsOpen s ⊎ Listed p s.allow s.allow_claims
    to h = elim (Bool-cases (allows_anyone s)) [
      | inl e ↦ inl (ground arith)
      | inr e ↦ inr ((listed_iff p s.allow s.allow_claims).0 (rw (e, may_use) at h))
    ]

    from : IsOpen s ⊎ Listed p s.allow s.allow_claims → may_use s p ≡ true
    from (inl o) = ground arith
    from (inr l) = ground (arith, (listed_iff p s.allow s.allow_claims).1 l)

-- Somebody's view of a share can be written exactly when the share is not read-only and either
-- nothing was written in `writers` or `writers` names them.
pub writes_iff :
    (s : Share) (p : Principal)
    → (read_only_for s p ≡ false)
      ↔ ((s.read_only ≡ false) × (IsOpenToWrite s ⊎ Listed p s.writers s.writer_claims))
unfolding read_only_for
writes_iff s p = (to, from)
  where
    to :
        read_only_for s p ≡ false
        → (s.read_only ≡ false) × (IsOpenToWrite s ⊎ Listed p s.writers s.writer_claims)
    to h = elim (Bool-cases (any_allowed_writes s)) [
      | inl e ↦ (ground arith, inl (ground arith))
      | inr e ↦ (ground arith, inr ((listed_iff p s.writers s.writer_claims).0 (ground arith)))
    ]

    from :
        (s.read_only ≡ false) × (IsOpenToWrite s ⊎ Listed p s.writers s.writer_claims)
        → read_only_for s p ≡ false
    from (w, inl o) = ground arith
    from (w, inr l) = ground (arith, (listed_iff p s.writers s.writer_claims).1 l)

-- A name longer than every name of a list.
total : List Text → ℕ
total [] = 0
total (t ∷ ts) = length t + total ts

stranger : List Text → Text
stranger names = replicate (suc (total names)) b'x'

length-replicate : (n c : ℕ) → length (replicate n c) ≡ n
length-replicate zero c = refl
length-replicate (suc n) c = ap suc (length-replicate n c)

mem-length : (t : Text) (names : List Text) → Memᴰ t names → length t ≤ total names
unfolding total
mem-length t [] m = elim m [ ]
mem-length t (n ∷ names) (Memᴰ.head e) = omega (arith, ap length e)
mem-length t (n ∷ names) (Memᴰ.tail m) = omega (arith, mem-length t names m)

stranger_lem : (names : List Text) → contains names (stranger names) ≡ false
unfolding stranger
stranger_lem names = elim (Bool-cases (contains names (stranger names))) [
  | inr e ↦ e
  | inl e ↦ absurd (
      omega (
        arith,
        mem-length (stranger names) names ((contains_iff names (stranger names)).0 e),
        length-replicate (suc (total names)) b'x',
      ))
]

listed-stranger :
    (names : List Text) (rules : List ClaimRule)
    → listed (local (stranger names)) names rules ≡ false
unfolding listed local matches by_name
listed-stranger names rules = ground (arith, stranger_lem names)

-- `anyoneWrites` holds of exactly the shares that every principal may use and write to.
pub anyone_writes_iff :
    (s : Share)
    → (anyone_writes s ≡ true)
      ↔ ((p : Principal) → (may_use s p ≡ true) × (read_only_for s p ≡ false))
unfolding anyone_writes may_use read_only_for
anyone_writes_iff s = (λ h p. (ground arith, ground arith), from)
  where
    from :
        ((p : Principal) → (may_use s p ≡ true) × (read_only_for s p ≡ false))
        → anyone_writes s ≡ true
    from h = ground (
      arith,
      h (local (stranger s.allow)),
      h (local (stranger s.writers)),
      listed-stranger s.allow s.allow_claims,
      listed-stranger s.writers s.writer_claims,
    )
