-- ===== src/Admin/Changes/Rights.antt =====
-- The state as a map from shares and subjects to rights, the state that is kept sound, and what
-- changing, deleting and adding one share does to both.
use fileshare.Prelude.{
  ℕ, ◌≡◌, refl, sym, ap, subst, Bool, true, false, Option, none, some, List, [], ◌∷◌, ◌++◌, arith,
  if◌then◌else◌, ◌==◌, ℕ_eq, list_eq_iff, List_eq, length, any, All, All-append, index_of,
  remove_at, index_of-Found, lookup, distinct, lookup-set, lookup-append, distinct-apart,
  lookup-remove, distinct-set, distinct-remove, distinct-append, Text, to_lower, equal_fold,
}
use fileshare.Admin.{ManagedShare, Result, done, failed, ◌>>=◌, named, Site, from_files}
use fileshare.Admin.Gives.{Gives, Gives-bind}
use fileshare.Admin.Edits.{change_at, writes}
use fileshare.Admin.Changes.Grants.{right_of, AreKept}

-- SMB compares names without case.
abbrev pub share_key : ManagedShare → Text
share_key s = to_lower s.name

abbrev pub share_right : Text → Option ManagedShare → Option Bool
share_right t none = none
share_right t (some s) = right_of t s.grants

-- What the share of a name gives a subject.
abbrev pub right_at : List ManagedShare → Text → Text → Option Bool
right_at shares name t = share_right t (lookup share_key (to_lower name) shares)

-- A share of the API has grants, and no grant of write where it is read-only.
abbrev pub IsSoundShare : ManagedShare → Type 0
IsSoundShare s = AreKept s.grants × (s.read_only ≡ true → any writes s.grants ≡ false)

-- No two shares of one name, none that the files define, and each of them sound.
abbrev pub IsSound : Site → List ManagedShare → Type 0
IsSound site shares =
    (distinct share_key shares ≡ true)
    × All (λ s. from_files site s.name ≡ false) shares
    × All IsSoundShare shares

-- The shares after a change that touches the rights of one name only, and those as `g` says.
abbrev pub Moves :
    Text → (Text → Option Bool → Option Bool) → List ManagedShare → List ManagedShare → Type 0
Moves name g shares next =
    (n t : Text)
    → right_at next n t
      ≡ (if equal_fold name n then g t (right_at shares n t) else right_at shares n t)

-- What a change of one share does to its rights.
abbrev pub IsChange : (Text → Option Bool → Option Bool) → ManagedShare → ManagedShare → Type 0
IsChange g s u =
    IsSoundShare u
    × (u.name ≡ s.name)
    × ((t : Text) → right_of t u.grants ≡ g t (right_of t s.grants))

module _ {A : Type 0} (P : A → Type 0) where
  pub All-middle : (b : List A) (x : A) (a : List A) → All P (b ++ (x ∷ a)) → P x
  All-middle [] x a h = h.0
  All-middle (c ∷ b) x a h = All-middle b x a h.1

  pub All-set :
      (b : List A) (x y : A) (a : List A) → All P (b ++ (x ∷ a)) → P y → All P (b ++ (y ∷ a))
  All-set [] x y a h p = (p, h.1)
  All-set (c ∷ b) x y a h p = (h.0, All-set b x y a h.1 p)

  pub All-drop : (b : List A) (x : A) (a : List A) → All P (b ++ (x ∷ a)) → All P (b ++ a)
  All-drop [] x a h = h.1
  All-drop (c ∷ b) x a h = (h.0, All-drop b x a h.1)

change_at-append :
    (f : ManagedShare → Result ManagedShare) (b : List ManagedShare) (x : ManagedShare)
    (a : List ManagedShare)
    → change_at f (length b) (b ++ (x ∷ a)) ≡ (f x >>= (λ y. done (b ++ (y ∷ a))))
unfolding change_at
change_at-append f [] x a = refl
change_at-append f (c ∷ b) x a = rw (change_at-append f b x a) (after (f x))
  where
    after :
        (r : Result ManagedShare)
        → ((r >>= (λ y. done (b ++ (y ∷ a)))) >>= (λ rest. done (c ∷ rest)))
          ≡ (r >>= (λ y. done (c ∷ (b ++ (y ∷ a)))))
    after (done y) = refl
    after (failed e) = refl

module _ (site : Site) (name : Text) where
  set-Moves :
      (g : Text → Option Bool → Option Bool) (b : List ManagedShare) (x y : ManagedShare)
      (a : List ManagedShare)
      → any (named name) b ≡ false
      → named name x ≡ true
      → IsChange g x y
      → Moves name g (b ++ (x ∷ a)) (b ++ (y ∷ a))
  set-Moves g b x y a h hx (s, same, r) n t =
      let kx : share_key x ≡ to_lower name = (list_eq_iff (share_key x) (to_lower name)).0 hx in
      let ky : share_key y ≡ to_lower name =
        subst (λ u. to_lower u ≡ to_lower name) (sym same) kx in
      ground (
        arith,
        r t,
        lookup-set share_key (to_lower n) (to_lower name) b x y a h kx ky,
        lookup-set share_key (to_lower n) (to_lower name) b x x a h kx kx,
      )

  set-IsSound :
      (g : Text → Option Bool → Option Bool) (b : List ManagedShare) (x y : ManagedShare)
      (a : List ManagedShare)
      → IsChange g x y
      → IsSound site (b ++ (x ∷ a))
      → IsSound site (b ++ (y ∷ a))
  set-IsSound g b x y a (s, same, r) (d, f, all_sound) = (
    distinct-set share_key b x y a (ap to_lower same) d,
    All-set (λ u. from_files site u.name ≡ false) b x y a f
        (subst (λ u. from_files site u ≡ false) (sym same) (All-middle _ b x a f)),
    All-set IsSoundShare b x y a all_sound s,
  )

  -- A change of one share, where `managed` found it.
  pub change_at_lem :
      (f : ManagedShare → Result ManagedShare) (g : Text → Option Bool → Option Bool)
      (shares : List ManagedShare) (i : ℕ)
      → ((s : ManagedShare) → IsSoundShare s → Gives (IsChange g s) (f s))
      → index_of (named name) shares ≡ some i
      → IsSound site shares
      → Gives (λ next. IsSound site next × Moves name g shares next) (change_at f i shares)
  change_at_lem f g shares i hf e s =
      let at = index_of-Found (named name) shares i e in
      let sound = subst (IsSound site) at.split s in
      let Q : List ManagedShare → List ManagedShare → Type 0 =
        λ xs next. IsSound site next × Moves name g xs next in
      subst (λ xs. Gives (Q xs) (change_at f i xs)) (sym at.split)
        (subst
          (λ j.
            Gives (Q (at.before ++ (at.at ∷ at.after)))
              (change_at f j (at.before ++ (at.at ∷ at.after))))
          at.counted
          (subst (Gives (Q (at.before ++ (at.at ∷ at.after))))
            (sym (change_at-append f at.before at.at at.after))
            (Gives-bind (IsChange g at.at) (Q (at.before ++ (at.at ∷ at.after)))
              (λ y. done (at.before ++ (y ∷ at.after))) (f at.at)
              (hf at.at (All-middle IsSoundShare at.before at.at at.after sound.2))
              (λ y c. (
                set-IsSound g at.before at.at y at.after c sound,
                set-Moves g at.before at.at y at.after at.missed at.hit c,
              )))))

  -- A share that is deleted leaves no right behind.
  pub remove_at_lem :
      (shares : List ManagedShare) (i : ℕ)
      → index_of (named name) shares ≡ some i
      → IsSound site shares
      → IsSound site (remove_at i shares) × Moves name (λ t r. none) shares (remove_at i shares)
  remove_at_lem shares i e s =
      let at = index_of-Found (named name) shares i e in
      let sound = subst (IsSound site) at.split s in
      let kx : share_key at.at ≡ to_lower name =
        (list_eq_iff (share_key at.at) (to_lower name)).0 at.hit in
      let apart : any (named name) at.after ≡ false =
        subst (λ k. any (λ s. to_lower s.name == k) at.after ≡ false) kx
          (distinct-apart share_key at.before at.at at.after sound.0).0 in
      subst (λ next. IsSound site next × Moves name (λ t r. none) shares next) (sym at.removed)
        (
          (
            distinct-remove share_key at.before at.at at.after sound.0,
            All-drop _ at.before at.at at.after sound.1,
            All-drop _ at.before at.at at.after sound.2,
          ),
          subst (λ xs. Moves name (λ t r. none) xs (at.before ++ at.after)) (sym at.split)
              (λ n t. ground (
                arith,
                lookup-remove share_key (to_lower n) (to_lower name) at.before at.at at.after
                    at.missed kx apart,
              )),
        )

  -- A new share brings the rights of its grants.
  pub append_lem :
      (s : ManagedShare) (shares : List ManagedShare)
      → s.name ≡ name
      → any (named name) shares ≡ false
      → from_files site name ≡ false
      → IsSoundShare s
      → IsSound site shares
      → IsSound site (shares ++ (s ∷ []))
        × Moves name (λ t r. right_of t s.grants) shares (shares ++ (s ∷ []))
  append_lem s shares same new outside sound (d, f, each) =
      let k : share_key s ≡ to_lower name = ap to_lower same in
      (
        (
          distinct-append share_key shares s
              (subst (λ k. any (λ u. to_lower u.name == k) shares ≡ false) (sym k) new) d,
          All-append _ shares (s ∷ []) f
              (subst (λ u. from_files site u ≡ false) (sym same) outside, tt),
          All-append _ shares (s ∷ []) each (sound, tt),
        ),
        λ n t. ground (arith, lookup-append share_key (to_lower n) (to_lower name) shares s new k),
      )

  -- Nothing changes where the rights of a name become what they are.
  pub stay_lem : (shares : List ManagedShare) → Moves name (λ t r. r) shares shares
  stay_lem shares n t = ground arith
