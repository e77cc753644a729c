-- ===== src/Union/Routing.antt =====
-- Where a path of the tree leads.
use mathlib.Core.List.{append-nil}
use fileshare.Prelude.{
  ℕ, zero, suc, ◌+◌, ◌≡◌, refl, ◌≢◌, ◌⊎◌, inl, inr, true, false, Option, none, some, List, [], ◌∷◌,
  ◌++◌, arith, Bool-cases, ◌==◌, ℕ_eq, list_eq_iff, List_eq, All, Text,
}
use fileshare.Union.Paths.{
  slashes, rooted, parts_of, clean_rooted, NoSlash, IsPlain, parts_of-IsPlain, cut-slashes,
}
use fileshare.Union.{
  Entry, Union, gone, Route, missing, root, found, find_entry, trim_slash, split_first, route_clean,
  route,
}

-- The entry at a place of the list.
abbrev pub get_elem? : List Entry → ℕ → Option Entry
get_elem? [] i = none
get_elem? (e ∷ es) zero = some e
get_elem? (e ∷ es) (suc i) = get_elem? es i

-- What a lookup answers: the first entry of that name, or that there is none.
abbrev pub Finds : ℕ → List Entry → Text → Text → Route → Type 0
Finds k es name inside missing = All (λ e. e.name ≢ name) es
Finds k es name inside root = ⊥
Finds k es name inside (found i e at) =
    (j : ℕ) × (i ≡ k + j) × (get_elem? es j ≡ some e) × (e.name ≡ name) × (at ≡ inside)

Finds-cons :
    (k : ℕ) (d : Entry) (es : List Entry) (name inside : Text) (r : Route)
    → d.name ≢ name
    → Finds (suc k) es name inside r
    → Finds k (d ∷ es) name inside r
Finds-cons k d es name inside missing ne h = (ne, h)
Finds-cons k d es name inside root ne h = h
Finds-cons k d es name inside (found i e at) ne (j, place, here, named, path) =
    (suc j, omega arith, here, named, path)

find_entry-Finds :
    (k : ℕ) (es : List Entry) (name inside : Text)
    → Finds k es name inside (find_entry k es name inside)
unfolding find_entry
find_entry-Finds k [] name inside = tt
find_entry-Finds k (d ∷ es) name inside = elim (Bool-cases (d.name == name)) [
  | inl e ↦ rw (e, find_entry) (zero, omega arith, refl, (list_eq_iff d.name name).0 e, refl)
  | inr e ↦
      rw (e, find_entry)
        (Finds-cons k d es name inside (find_entry (suc k) es name inside)
          (λ same. absurd (ground (arith, (list_eq_iff d.name name).1 same)))
          (find_entry-Finds (suc k) es name inside))
]

-- The parts of a request's path, resolved from the root of the tree.
abbrev pub parts : Text → List Text
parts p = parts_of (b'/' ∷ trim_slash p)

-- What a route means: the tree answers nothing once its session is revoked; else the root is the path
-- with no part left, and any other path is looked up by its first part, the rest being the path
-- inside.
abbrev pub Leads : Union → List Text → Route → Type 0
Leads u [] r = r ≡ root
Leads u (w ∷ ws) r = Finds 0 u.entries w (rooted ws) r

slash-append-ne : (w : Text) (s : Text) → w ≢ [] → ((b'/' ∷ (w ++ s)) == (b'/' ∷ [])) ≡ false
slash-append-ne [] s h = absurd (h refl)
slash-append-ne (c ∷ w) s h = refl

first_of_slashes :
    (w : Text) (ws : List Text)
    → NoSlash w
    → split_first (w ++ slashes ws) ≡ (w, elim ws [ [] ↦ [] | v ∷ vs ↦ v ++ slashes vs ])
first_of_slashes w [] h = ground (arith, cut-slashes w [] h, append-nil w)
first_of_slashes w (v ∷ vs) h = ground (arith, cut-slashes w (v ∷ vs) h)

rooted_tail : (ws : List Text) → b'/' ∷ elim ws [ [] ↦ [] | v ∷ vs ↦ v ++ slashes vs ] ≡ rooted ws
rooted_tail [] = refl
rooted_tail (v ∷ vs) = refl

route_clean-Leads :
    (u : Union) (ws : List Text) → All IsPlain ws → Leads u ws (route_clean u (rooted ws))
unfolding route_clean
route_clean-Leads u [] h = refl
route_clean-Leads u (w ∷ ws) ((filled, dot, dots, free), h) =
    rw
      (
        route_clean,
        slash-append-ne w (slashes ws) filled,
        first_of_slashes w ws free,
        rooted_tail ws,
      )
      (find_entry-Finds 0 u.entries w (rooted ws))

-- After a revocation no path leads anywhere. Before it, a path that resolves to nothing is the root,
-- and any other leads to the first entry that its first resolved part names, with the remaining parts
-- as a rooted path, or nowhere if no entry has that name.
pub route-Leads :
    (u : Union) (p : Text)
    → ((gone u ≡ true) × (route u p ≡ missing)) ⊎ ((gone u ≡ false) × Leads u (parts p) (route u p))
unfolding route clean_rooted
route-Leads u p = elim (Bool-cases (gone u)) [
  | inl e ↦ inl (e, rw (e, route))
  | inr e ↦
      inr
        (e, rw (e, route) (route_clean-Leads u (parts p) (parts_of-IsPlain (b'/' ∷ trim_slash p))))
]
