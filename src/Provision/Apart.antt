-- ===== src/Provision/Apart.antt =====
-- config.go: which parents are well formed, and which may stand side by side.
use fileshare.Prelude.{
  ℕ, ◌≡◌, refl, sym, subst, ◌≢◌, ◌⊎◌, inl, inr, Bool, true, false, not, ◌&&◌, ◌||◌, Option, none,
  some, List, [], ◌∷◌, ◌++◌, arith, leb, if◌then◌else◌, Bool-cases, ◌==◌, ℕ_eq, list_eq_iff,
  List_eq, all, delete_if, null, contains, Text, bytes, has_prefix,
}
use fileshare.Union.Paths.{split_slash, parts_of, clean_rooted}
use fileshare.Provision.{Parent}
use fileshare.Provision.Service.Names.{is_name}
use fileshare.Provision.Setup.{parse_range, split_last, IsRange, parse_range-IsRange}

-- `pathWithin`, of absolute paths: the parts of the first begin those of the second.
abbrev begins : List Text → List Text → Bool
begins [] vs = true
begins (w ∷ ws) [] = false
begins (w ∷ ws) (v ∷ vs) = w == v && begins ws vs

unfoldable pub path_within : Text → Text → Bool
unfolding parts_of
path_within dir path = begins (parts_of dir) (parts_of path)

begins-append : (ws vs rest : List Text) → begins ws vs ≡ false → vs ≢ ws ++ rest
begins-append [] vs rest h e = absurd (ground arith)
begins-append (w ∷ ws) [] rest h e = absurd (ground arith)
begins-append (w ∷ ws) (v ∷ vs) rest h e = elim (Bool-cases (w == v)) [
  | inr n ↦ absurd (ground (arith, list_eq_iff w v))
  | inl y ↦ begins-append ws vs rest (ground arith) (ground arith)
]

-- A path that is not within a directory does not go on from its parts.
pub path_within-append :
    (dir path : Text) (rest : List Text)
    → path_within dir path ≡ false
    → parts_of path ≢ parts_of dir ++ rest
unfolding path_within
path_within-append dir path rest = begins-append (parts_of dir) (parts_of path) rest

-- One dataset is the other, or is below it.
abbrev nested : Text → Text → Bool
nested a b =
    not (null a)
    && not (null b)
    && (a == b || has_prefix b (a ++ bytes "/") || has_prefix a (b ++ bytes "/"))

abbrev ranges_meet : Parent → Parent → Bool
ranges_meet a b = not (a.hi == 0) && not (b.hi == 0) && leb a.lo b.hi && leb b.lo a.hi

-- The body of the inner loop of `checkApart`.
unfoldable pub may_stand_by : Parent → Parent → Bool
unfolding path_within
may_stand_by a b =
    not (path_within a.root b.root || path_within b.root a.root)
    && not (nested a.zfs b.zfs)
    && not (ranges_meet a b)

-- `checkApart`; `files` are the state file and the socket.
unfoldable pub check_apart : List Text → List Parent → Bool
unfolding path_within may_stand_by
check_apart files [] = true
check_apart files (a ∷ ps) =
    all (λ f. not (path_within a.root f)) files
    && all (λ b. may_stand_by a b) ps
    && check_apart files ps

-- A parent's block as it is written.
pub record ParentBlock : Type 0 where
  pub id : Text
  pub zfs : Text
  pub root : Text
  pub btrfs : Text
  pub xfs : Text
  pub ext4 : Text
  pub project_ids : Text
  pub enable_quota : Bool

abbrev double_slash : Text → Bool
double_slash [] = false
double_slash (c ∷ s) = has_prefix (c ∷ s) (bytes "//") || double_slash s

abbrev ends_in_slash : Text → Bool
ends_in_slash s = elim (split_last s) [ none ↦ false | some (t, c) ↦ c == b'/' ]

abbrev is_dataset_byte : ℕ → Bool
is_dataset_byte c =
    (leb b'a' c && leb c b'z')
    || (leb b'A' c && leb c b'Z')
    || (leb b'0' c && leb c b'9')
    || contains (bytes "_-.:/") c

unfoldable pub check_dataset : Text → Bool
unfolding split_slash
check_dataset ds =
    not (null ds || has_prefix ds (bytes "/") || ends_in_slash ds || double_slash ds)
    && all is_dataset_byte ds
    && all (λ w. not (w == bytes "." || w == bytes "..")) (split_slash ds)

unfoldable pub is_clean_root : Text → Bool
unfolding clean_rooted
is_clean_root r = has_prefix r (bytes "/") && clean_rooted r == r && not (r == bytes "/")

-- The kinds that the block names, each with its value.
abbrev kinds_of : ParentBlock → List (Text × Text)
kinds_of b =
    delete_if (λ k. null k.1)
      ((bytes "zfs", b.zfs)
        ∷ (bytes "btrfs", b.btrfs)
        ∷ (bytes "xfs", b.xfs)
        ∷ (bytes "ext4", b.ext4)
        ∷ [])

abbrev has_projects : Text → Bool
has_projects kind = kind == bytes "xfs" || kind == bytes "ext4"

abbrev parent_with : ParentBlock → Text → Text → ℕ × ℕ → Option Parent
parent_with b kind root (lo, hi) =
    if b.enable_quota && not (kind == bytes "btrfs")
    then none
    else some (record { id = b.id; kind = kind; zfs = b.zfs; root = root; lo = lo; hi = hi })

abbrev with_range : ParentBlock → Text → Text → Option (ℕ × ℕ) → Option Parent
with_range b kind root none = none
with_range b kind root (some range) = parent_with b kind root range

unfoldable pub check_root : ParentBlock → Text → Text → Option Parent
unfolding is_clean_root parse_range
check_root b kind root =
    if not (is_clean_root root)
    then none
    else if has_projects kind
    then with_range b kind root (if null b.project_ids then none else parse_range b.project_ids)
    else if null b.project_ids
    then parent_with b kind root (0, 0)
    else none

unfoldable pub check_kind : ParentBlock → List (Text × Text) → Option Parent
unfolding check_root check_dataset
check_kind b ((kind, value) ∷ []) =
    if kind == bytes "zfs"
    then if not (check_dataset b.zfs) || null b.root then none else check_root b kind b.root
    else if null b.root
    then check_root b kind value
    else none
check_kind b _ = none

-- `ParentBlock.check`: the parent that the block describes, if it is well formed.
unfoldable pub check_parent : ParentBlock → Option Parent
unfolding is_name check_kind
check_parent b = if is_name b.id then check_kind b (kinds_of b) else none

-- A root is absolute, clean and not "/", and project ids are those of a range, or none.
abbrev pub IsUsable : Parent → Type 0
IsUsable p = (is_clean_root p.root ≡ true) × (((p.lo ≡ 0) × (p.hi ≡ 0)) ⊎ IsRange (p.lo, p.hi))

parent_with-IsUsable :
    (b : ParentBlock) (kind root : Text) (r : ℕ × ℕ) (p : Parent)
    → is_clean_root root ≡ true
    → ((r.0 ≡ 0) × (r.1 ≡ 0)) ⊎ IsRange r
    → parent_with b kind root r ≡ some p
    → (p.id ≡ b.id) × IsUsable p
parent_with-IsUsable b kind root (lo, hi) p clean range h =
    elim (Bool-cases (b.enable_quota && not (kind == bytes "btrfs"))) [
      | inl e ↦ absurd (ground arith)
      | inr e ↦
          let q : Parent = record {
            id = b.id;
            kind = kind;
            zfs = b.zfs;
            root = root;
            lo = lo;
            hi = hi;
          } in
          let same : q ≡ p = ground arith in
          subst (λ x. (x.id ≡ b.id) × IsUsable x) same (refl, (clean, range))
    ]

with_range-IsUsable :
    (b : ParentBlock) (kind root : Text) (o : Option (ℕ × ℕ)) (p : Parent)
    → is_clean_root root ≡ true
    → ((r : ℕ × ℕ) → o ≡ some r → IsRange r)
    → with_range b kind root o ≡ some p
    → (p.id ≡ b.id) × IsUsable p
with_range-IsUsable b kind root none p clean range h = absurd (cc)
with_range-IsUsable b kind root (some r) p clean range h =
    parent_with-IsUsable b kind root r p clean (inr (range r refl)) h

given-IsRange :
    (ids : Text) (r : ℕ × ℕ) → (if null ids then none else parse_range ids) ≡ some r → IsRange r
given-IsRange [] r h = absurd (cc)
given-IsRange (c ∷ ids) r h = parse_range-IsRange (c ∷ ids) r h

check_root-IsUsable :
    (b : ParentBlock) (kind root : Text) (p : Parent)
    → check_root b kind root ≡ some p
    → (p.id ≡ b.id) × IsUsable p
unfolding check_root
check_root-IsUsable b kind root p h = elim (Bool-cases (is_clean_root root)) [
  | inr e ↦ absurd (ground arith)
  | inl clean ↦ elim (Bool-cases (has_projects kind)) [
    | inl yes_ids ↦
        with_range-IsUsable b kind root
          (if null b.project_ids then none else parse_range b.project_ids) p clean
          (given-IsRange b.project_ids) (ground arith)
    | inr no_ids ↦ parent_with-IsUsable b kind root (0, 0) p clean (inl (refl, refl)) (ground arith)
  ]
]

check_kind-IsUsable :
    (b : ParentBlock) (ks : List (Text × Text)) (p : Parent)
    → check_kind b ks ≡ some p
    → (p.id ≡ b.id) × IsUsable p
unfolding check_kind
check_kind-IsUsable b [] p h = absurd (cc)
check_kind-IsUsable b (j ∷ k ∷ ks) p h = absurd (cc)
check_kind-IsUsable b ((kind, value) ∷ []) p h = elim (Bool-cases (kind == bytes "zfs")) [
  | inl e ↦ check_root-IsUsable b kind b.root p (ground arith)
  | inr e ↦ check_root-IsUsable b kind value p (ground arith)
]

-- A parent block that passes its check becomes a parent of its id, which is a name; its root is
-- absolute, clean and below "/"; and it gives out no project id, or those of a range that holds
-- neither 0 nor 4294967295.
pub check_parent-IsUsable :
    (b : ParentBlock) (p : Parent)
    → check_parent b ≡ some p
    → (is_name p.id ≡ true) × (p.id ≡ b.id) × IsUsable p
unfolding check_parent
check_parent-IsUsable b p h = elim (Bool-cases (is_name b.id)) [
  | inr e ↦ absurd (ground arith)
  | inl e ↦
      let (same, usable) = check_kind-IsUsable b (kinds_of b) p (ground arith) in
      (subst (λ i. is_name i ≡ true) (sym same) e, same, usable)
]
