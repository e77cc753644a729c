-- ===== src/Admin/Reload.antt =====
-- reload.go: what a server does when its directory of people is read again. Adding people to a
-- running SMB server is left out, and the lines that are printed.
pub mod Fresh
use fileshare.Prelude.{
  ℕ, suc, ◌≡◌, refl, sym, ap, ◌∙◌, subst, ◌⊎◌, inl, inr, Bool, true, false, not, ◌&&◌, ◌||◌, Option,
  none, some, List, [], ◌∷◌, ◌++◌, map, arith, if◌then◌else◌, Bool-cases, Option-cases, ◌==◌, ℕ_eq,
  list_eq_iff, List_eq, any, all, delete_if, null, All, contains, lookup, Text,
}
use fileshare.Access.Share.{Share}
use fileshare.Admin.{ShareBlock, block}
use fileshare.Admin.Serving.{
  Machine, Served, Lists, expand_lists, new_share, Opening, opened, not_opened, open_shares,
}
use fileshare.Admin.Serving.Loop.{Opens, Each, open_shares-Each}
use fileshare.Admin.Serving.Granted.{OpenedWith, open_block-OpenedWith}
use fileshare.Admin.Manager.{unchanged, Store, let_go, swap}

-- Somebody of the directory, who stands there once, with the fingerprint of what they can show.
pub record Person : Type 0 where
  pub name : Text
  pub fingerprint : Text

-- The server, with who everybody is and the counts of reloads.
pub record Server : Type 0 where
  pub store : Store
  pub people : List Person
  pub unchanged : ℕ
  pub added : ℕ
  pub swapped : ℕ
  pub failures : ℕ

-- What a reload meets: the directory, if it can be read, the system, and whether the server serves.
pub record Reading : Type 0 where
  pub identities : Option (List Person)
  pub machine : Machine
  pub is_serving : Bool

abbrev person_key : Person → Text
person_key p = p.name

-- Of these people, those that are not among the others.
unfoldable pub not_among : List Person → List Person → List Text
not_among ps others = map person_key (delete_if (λ p. any (λ q. q.name == p.name) others) ps)

abbrev is_changed : List Person → Person → Bool
is_changed prev p = elim (lookup person_key p.name prev) [
  | none ↦ false
  | some q ↦ not (q.fingerprint == p.fingerprint)
]

unfoldable pub some_changed : List Person → List Person → Bool
some_changed prev next = any (is_changed prev) next

-- `sameSet`
unfoldable pub same_set : List Text → List Text → Bool
same_set a b = all (contains b) a && all (contains a) b

unfoldable pub is_moved : Lists → Share → Bool
unfolding same_set
is_moved l s =
    not (same_set l.allow s.allow) || (not s.read_only && not (same_set l.writers s.writers))

-- Whether the lists of some share expand to others; `none` where they cannot be read.
unfoldable pub lists_moved : Machine → List Served → Option Bool
unfolding expand_lists is_moved
lists_moved m [] = some false
lists_moved m (s ∷ ss) = elim (expand_lists m s.block) [
  | none ↦ none
  | some l ↦ elim (lists_moved m ss) [
    | none ↦ none
    | some moved ↦ some (is_moved l s.share || moved)
  ]
]

pub data Ending : Type 0 where
  nothing_to_do people_added generation_swapped reload_failed : Ending

abbrev pub failed_reload : Server → Server × Ending
failed_reload s = (record s { failures = suc s.failures }, reload_failed)

-- A new generation over the same blocks.
abbrev pub swap_in : Reading → List Person → Server → Opening → Server × Ending
swap_in r next s (not_opened closed) =
    failed_reload (record s { store = record s.store { closed = s.store.closed ++ closed } })
swap_in r next s (opened shares) =
    if r.is_serving
    then (
      record s { people = next; store = swap shares s.store; swapped = suc s.swapped },
      generation_swapped,
    )
    else failed_reload (record s { people = next; store = let_go shares s.store.serving s.store })

abbrev pub stays : List Person → List Person → Server → Server × Ending
stays prev next s =
    if null (not_among next prev)
    then (record s { unchanged = suc s.unchanged }, nothing_to_do)
    else (record s { people = next; added = suc s.added }, people_added)

abbrev pub reload_with : Reading → List Person → Server → Option Bool → Server × Ending
reload_with r next s none = failed_reload s
reload_with r next s (some moved) =
    if null (not_among s.people next) && not (some_changed s.people next) && not moved
    then stays s.people next s
    else swap_in r next s
        (open_shares r.machine (map (λ x. x.block) s.store.serving) s.store.serving)

-- `reload`
unfoldable pub reload : Reading → Server → Server × Ending
unfolding not_among some_changed lists_moved open_shares
reload r s = elim r.identities [
  | none ↦ failed_reload s
  | some next ↦ reload_with r next s (lists_moved r.machine s.store.serving)
]
