-- ===== src/Union/Isolation.antt =====
-- What reaches a driver through the tree of one person.
use fileshare.Prelude.{
  ℕ, zero, suc, ◌≡◌, refl, ◌∙◌, subst, ◌≢◌, inl, inr, true, false, Option, some, List, [], ◌∷◌,
  Memᴰ, arith, Bool-cases, Option-cases, ◌==◌, ℕ_eq, list_eq_iff, List_eq, All, Text,
}
use fileshare.Access.Principal.{Principal}
use fileshare.Access.Share.{Share, may_use, read_only_for}
use fileshare.Union.Paths.{rooted, IsPlain, parts_of-IsPlain}
use fileshare.Union.{
  Entry, Union, Err, not_exist, invalid, driver_for, entry_for, entries_for, gone, Route, missing,
  root, found, trim_slash, route, Target, no_target, target, writable_at, writable, Op, read_file,
  list_dir, stat, read_link, delete_file, delete_dir, write_file, mk_dir, rename, Reply, err,
  listing, directory, forward, to_driver, rename_to, read_at_route, list_at, stat_at, rename_from,
  run,
}
use fileshare.Union.Routing.{get_elem?, parts, Leads, route-Leads}

-- A path as a driver is given it: rooted, every part plain.
abbrev pub IsInside : Text → Type 0
IsInside s = (ws : List Text) × All IsPlain ws × (s ≡ rooted ws)

-- An entry that the tree of this person may hold: a share they may use, over its driver or their
-- worker's, and read-only as they see it.
abbrev pub IsTheirs : Principal → Option (Share → Option ℕ) → Entry → Share → Type 0
IsTheirs p worker e s =
    (may_use s p ≡ true)
    × (e.name ≡ s.name)
    × (driver_for worker s ≡ some e.fsys)
    × (e.read_only ≡ read_only_for s p)

entry_for-IsTheirs :
    (p : Principal) (worker : Option (Share → Option ℕ)) (s : Share) (e : Entry)
    → entry_for p worker s ≡ some e
    → IsTheirs p worker e s
unfolding entry_for
entry_for-IsTheirs p worker s e h = ground arith

pub entries_for-IsTheirs :
    (p : Principal) (worker : Option (Share → Option ℕ)) (shares : List Share) (i : ℕ) (e : Entry)
    → get_elem? (entries_for p worker shares) i ≡ some e
    → (s : Share) × Memᴰ s shares × IsTheirs p worker e s
unfolding entries_for
entries_for-IsTheirs p worker [] i e h = cc
entries_for-IsTheirs p worker (s ∷ shares) i e h = elim (Option-cases (entry_for p worker s)) [
  | inl left_out ↦
      let (t, m, theirs) =
        entries_for-IsTheirs p worker shares i e (rw (left_out, entries_for) at h) in
      (t, Memᴰ.tail m, theirs)
  | inr (d, kept) ↦
      at i (λ j g. entries_for-IsTheirs p worker shares j e g) d kept (rw (kept, entries_for) at h)
]
  where
    at :
        (i : ℕ)
        → ((j : ℕ)
            → get_elem? (entries_for p worker shares) j ≡ some e
            → (t : Share) × Memᴰ t shares × IsTheirs p worker e t)
        → (d : Entry) → entry_for p worker s ≡ some d
        → get_elem? (d ∷ entries_for p worker shares) i ≡ some e
        → (t : Share) × Memᴰ t (s ∷ shares) × IsTheirs p worker e t
    at zero later d kept g = (s, Memᴰ.head refl, entry_for-IsTheirs p worker s e (kept ∙ g))
    at (suc j) later d kept g = let (t, m, theirs) = later j g in (t, Memᴰ.tail m, theirs)

-- An entry of the tree, and a path inside it, while the session stands.
abbrev pub IsReached : Union → Entry → Text → Type 0
IsReached u e inside =
    (gone u ≡ false) × ((i : ℕ) × (get_elem? u.entries i ≡ some e)) × IsInside inside

Leads-found :
    (u : Union) (ws : List Text) (i : ℕ) (e : Entry) (inside : Text)
    → All IsPlain ws
    → Leads u ws (found i e inside)
    → ((j : ℕ) × (get_elem? u.entries j ≡ some e)) × IsInside inside
Leads-found u [] i e inside plain h = cc
Leads-found u (w ∷ ws) i e inside plain (j, place, here, named, path) =
    ((j, here), (ws, plain.1, path))

pub route-IsReached :
    (u : Union) (p : Text) (i : ℕ) (e : Entry) (inside : Text)
    → route u p ≡ found i e inside
    → IsReached u e inside
route-IsReached u p i e inside h = elim (route-Leads u p) [
  | inl (_, none_left) ↦ absurd (cc)
  | inr (stands, leads) ↦
      let (held, path) =
        Leads-found u (parts p) i e inside (parts_of-IsPlain (b'/' ∷ trim_slash p))
          (subst (Leads u (parts p)) h leads) in
      (stands, held, path)
]

abbrev pub top : Text
top = b'/' ∷ []

writable_at-target :
    (r : Route) (i : ℕ) (e : Entry) (inside : Text)
    → writable_at r ≡ target i e inside
    → (r ≡ found i e inside) × (e.read_only ≡ false) × (inside ≢ top)
unfolding writable_at
writable_at-target missing i e inside h = cc
writable_at-target root i e inside h = cc
writable_at-target (found j d path) i e inside h = ground (arith, list_eq_iff path top)

-- An entry that takes writes, and a path below its own directory.
abbrev pub IsWritten : Union → Entry → Text → Type 0
IsWritten u e inside = IsReached u e inside × (e.read_only ≡ false) × (inside ≢ top)

writable-IsWritten :
    (u : Union) (p : Text) (i : ℕ) (e : Entry) (inside : Text)
    → writable u p ≡ target i e inside
    → IsWritten u e inside
unfolding writable
writable-IsWritten u p i e inside h =
    let (led, open_to, below) = writable_at-target (route u p) i e inside h in
    (route-IsReached u p i e inside led, open_to, below)

-- What may be asked of the driver of an entry: reads inside it, and writes below its own directory
-- if it takes them.
abbrev pub MayAsk : Union → Entry → Op → Type 0
MayAsk u e (read_file s) = IsReached u e s
MayAsk u e (list_dir s) = IsReached u e s
MayAsk u e (stat s) = IsReached u e s
MayAsk u e (read_link s) = IsReached u e s
MayAsk u e (delete_file s) = IsWritten u e s
MayAsk u e (delete_dir s) = IsWritten u e s
MayAsk u e (write_file s text perm) = IsWritten u e s
MayAsk u e (mk_dir s perm) = IsWritten u e s
MayAsk u e (rename s t) = IsWritten u e s × IsInside t × (t ≢ top)

-- The call that a reply hands to a driver, if it is one, is one that may be asked of it.
abbrev pub IsAllowed : Union → Reply → Type 0
IsAllowed u (err why) = Unit
IsAllowed u (listing es) = Unit
IsAllowed u (directory mode) = Unit
IsAllowed u (forward f op) = (e : Entry) × (e.fsys ≡ f) × MayAsk u e op

module _ (u : Union) where
  read_at_route-IsAllowed :
      (why : Err) (op : Text → Op) (p : Text) (r : Route)
      → ((e : Entry) (s : Text) → IsReached u e s → MayAsk u e (op s))
      → route u p ≡ r
      → IsAllowed u (read_at_route why op r)
  unfolding read_at_route
  read_at_route-IsAllowed why op p missing ask h = tt
  read_at_route-IsAllowed why op p root ask h = tt
  read_at_route-IsAllowed why op p (found i e s) ask h =
      (e, refl, ask e s (route-IsReached u p i e s h))

  list_at-IsAllowed : (p : Text) (r : Route) → route u p ≡ r → IsAllowed u (list_at u r)
  unfolding list_at
  list_at-IsAllowed p missing h = tt
  list_at-IsAllowed p root h = tt
  list_at-IsAllowed p (found i e s) h = (e, refl, route-IsReached u p i e s h)

  stat_at-IsAllowed : (p : Text) (r : Route) → route u p ≡ r → IsAllowed u (stat_at r)
  unfolding stat_at
  stat_at-IsAllowed p missing h = tt
  stat_at-IsAllowed p root h = tt
  stat_at-IsAllowed p (found i e s) h = elim (Bool-cases (s == top)) [
    | inl own ↦ rw (own, stat_at) tt
    | inr below ↦ rw (below, stat_at) (e, refl, route-IsReached u p i e s h)
  ]

  to_driver-IsAllowed :
      (op : Text → Op) (p : Text) (t : Target)
      → ((e : Entry) (s : Text) → IsWritten u e s → MayAsk u e (op s))
      → writable u p ≡ t
      → IsAllowed u (to_driver t op)
  to_driver-IsAllowed op p (no_target why) ask h = tt
  to_driver-IsAllowed op p (target i e s) ask h =
      (e, refl, ask e s (writable-IsWritten u p i e s h))

  rename_from-IsAllowed :
      (from to : Text) (source dest : Target)
      → writable u from ≡ source
      → writable u to ≡ dest
      → IsAllowed u (rename_from source dest)
  unfolding rename_from
  rename_from-IsAllowed from to (no_target why) dest h k = tt
  rename_from-IsAllowed from to (target i e s) (no_target why) h k = tt
  rename_from-IsAllowed from to (target i e s) (target j d t) h k =
      let (reached, open_to, below) = writable-IsWritten u to j d t k in
      elim (Bool-cases (j == i)) [
        | inl same ↦
            rw (same, rename_to) (e, refl, (writable-IsWritten u from i e s h, reached.2, below))
        | inr other ↦ rw (other, rename_to) tt
      ]

  pub run-IsAllowed : (op : Op) → IsAllowed u (run u op)
  unfolding run
  run-IsAllowed (read_file p) =
      read_at_route-IsAllowed not_exist read_file p (route u p) (λ e s h. h) refl
  run-IsAllowed (read_link p) =
      read_at_route-IsAllowed invalid read_link p (route u p) (λ e s h. h) refl
  run-IsAllowed (list_dir p) = list_at-IsAllowed p (route u p) refl
  run-IsAllowed (stat p) = stat_at-IsAllowed p (route u p) refl
  run-IsAllowed (delete_file p) = to_driver-IsAllowed delete_file p (writable u p) (λ e s h. h) refl
  run-IsAllowed (delete_dir p) = to_driver-IsAllowed delete_dir p (writable u p) (λ e s h. h) refl
  run-IsAllowed (write_file p text perm) =
      to_driver-IsAllowed (λ s. write_file s text perm) p (writable u p) (λ e s h. h) refl
  run-IsAllowed (mk_dir p perm) =
      to_driver-IsAllowed (λ s. mk_dir s perm) p (writable u p) (λ e s h. h) refl
  run-IsAllowed (rename from to) =
      rename_from-IsAllowed from to (writable u from) (writable u to) refl refl
