-- ===== src/Union/Rights.antt =====
-- What one person can do through their tree, and what a revocation takes away.
use fileshare.Prelude.{
  ℕ, ◌≡◌, refl, sym, subst, ◌≢◌, ◌⊎◌, inl, inr, Bool, true, false, Option, none, some, List, Memᴰ,
  arith, Bool-cases, Option-cases, ◌==◌, ℕ_eq, list_eq_iff, List_eq, Text,
}
use fileshare.Access.Principal.{Principal}
use fileshare.Access.Share.{Share, may_use, read_only_for}
use fileshare.Union.{
  Entry, Union, Err, not_exist, invalid, driver_for, union_for_with, gone, Route, missing, root,
  found, route, no_target, writable_at, writable, Op, read_file, list_dir, stat, read_link,
  delete_file, delete_dir, write_file, mk_dir, rename, err, forward, run, Driver, Handle, opened,
  is_some, wrap, open_at, open_file, allowed, denied, read_at, write_at,
}
use fileshare.Union.Routing.{get_elem?}
use fileshare.Union.Isolation.{
  IsInside, entries_for-IsTheirs, IsReached, route-IsReached, top, MayAsk, IsAllowed, run-IsAllowed,
}

-- A call that keeps inside a share: its paths are rooted and plain, and a write is below the share's
-- own directory, and is only made where the share is not read-only.
abbrev pub KeepsInside : Bool → Op → Type 0
KeepsInside ro (read_file s) = IsInside s
KeepsInside ro (list_dir s) = IsInside s
KeepsInside ro (stat s) = IsInside s
KeepsInside ro (read_link s) = IsInside s
KeepsInside ro (delete_file s) = IsInside s × (ro ≡ false) × (s ≢ top)
KeepsInside ro (delete_dir s) = IsInside s × (ro ≡ false) × (s ≢ top)
KeepsInside ro (write_file s text perm) = IsInside s × (ro ≡ false) × (s ≢ top)
KeepsInside ro (mk_dir s perm) = IsInside s × (ro ≡ false) × (s ≢ top)
KeepsInside ro (rename s t) = IsInside s × IsInside t × (ro ≡ false) × (s ≢ top) × (t ≢ top)

MayAsk-KeepsInside :
    (u : Union) (e : Entry) (op : Op)
    → MayAsk u e op
    → (gone u ≡ false) × ((i : ℕ) × (get_elem? u.entries i ≡ some e)) × KeepsInside e.read_only op
MayAsk-KeepsInside u e (read_file s) h = h
MayAsk-KeepsInside u e (list_dir s) h = h
MayAsk-KeepsInside u e (stat s) h = h
MayAsk-KeepsInside u e (read_link s) h = h
MayAsk-KeepsInside u e (delete_file s) (h, w, b) = (h.0, h.1, (h.2, w, b))
MayAsk-KeepsInside u e (delete_dir s) (h, w, b) = (h.0, h.1, (h.2, w, b))
MayAsk-KeepsInside u e (write_file s text perm) (h, w, b) = (h.0, h.1, (h.2, w, b))
MayAsk-KeepsInside u e (mk_dir s perm) (h, w, b) = (h.0, h.1, (h.2, w, b))
MayAsk-KeepsInside u e (rename s t) ((h, w, b), inside, below) =
    (h.0, h.1, (h.2, inside, w, b, below))

-- Whatever a person asks of their tree, what reaches a driver is a call on the driver of a share of
-- the list that they may use, while their session is not revoked; its paths stay inside that share,
-- and a write is made only if the share is not read-only for them.
pub run_reaches :
    (shares : List Share) (p : Principal) (worker : Option (Share → Option ℕ))
    (revoked : Option Bool) (op call : Op) (f : ℕ)
    → run (union_for_with shares p worker revoked) op ≡ forward f call
    → (revoked ≢ some true)
      × ((s : Share) × Memᴰ s shares
          × (may_use s p ≡ true)
          × (driver_for worker s ≡ some f)
          × KeepsInside (read_only_for s p) call)
unfolding union_for_with
run_reaches shares p worker revoked op call f h =
    let u : Union = union_for_with shares p worker revoked in
    let (e, driver, ask) = subst (IsAllowed u) h (run-IsAllowed u op) in
    let (stands, (i, held), inside) = MayAsk-KeepsInside u e call ask in
    let (s, m, (may, named, over, view)) = entries_for-IsTheirs p worker shares i e held in
    (
      (λ r. absurd (ground arith)),
      (s, m, may, ground arith, subst (λ b. KeepsInside b call) view inside),
    )

route-gone : (u : Union) (p : Text) → gone u ≡ true → route u p ≡ missing
unfolding route
route-gone u p h = rw (h, route)

writable-gone : (u : Union) (p : Text) → gone u ≡ true → writable u p ≡ no_target not_exist
unfolding writable writable_at
writable-gone u p h = rw (writable, route-gone u p h)

-- Once the session is revoked every operation fails, and none reaches a driver.
pub run_revoked : (u : Union) (op : Op) → gone u ≡ true → (why : Err) × (run u op ≡ err why)
unfolding run
run_revoked u (read_file p) h = (not_exist, rw (route-gone u p h))
run_revoked u (list_dir p) h = (not_exist, rw (route-gone u p h))
run_revoked u (stat p) h = (not_exist, rw (route-gone u p h))
run_revoked u (read_link p) h = (invalid, rw (route-gone u p h))
run_revoked u (delete_file p) h = (not_exist, rw (writable-gone u p h))
run_revoked u (delete_dir p) h = (not_exist, rw (writable-gone u p h))
run_revoked u (write_file p text perm) h = (not_exist, rw (writable-gone u p h))
run_revoked u (mk_dir p perm) h = (not_exist, rw (writable-gone u p h))
run_revoked u (rename from to) h = (not_exist, rw (writable-gone u from h))

abbrev IsBehind : Union → Entry → Text → Handle → Type 0
IsBehind u e inside h =
    (h.fsys ≡ e.fsys)
    × (h.path ≡ inside)
    × (inside ≢ top)
    × ((h.writes ≡ false) ⊎ (e.read_only ≡ false))
    × (h.revocable ≡ is_some u.revoked)

wrap-opened :
    (u : Union) (e : Entry) (inside : Text) (o : Option Bool) (h : Handle)
    → inside ≢ top
    → wrap u e inside o ≡ opened h
    → IsBehind u e inside h
wrap-opened u e inside none h below k = cc
wrap-opened u e inside (some true) h below k =
    (ground arith, ground arith, below, ground arith, ground arith)
wrap-opened u e inside (some false) h below k =
    (ground arith, ground arith, below, ground arith, ground arith)

open_at-opened :
    (u : Union) (drivers : ℕ → Driver) (p : Text) (r : Route) (h : Handle)
    → route u p ≡ r
    → open_at u drivers r ≡ opened h
    → (e : Entry) × IsReached u e h.path × IsBehind u e h.path h
unfolding open_at
open_at-opened u drivers p missing h led k = cc
open_at-opened u drivers p root h led k = cc
open_at-opened u drivers p (found i e s) h led k = elim (Bool-cases (s == top)) [
  | inl own ↦ absurd (ground arith)
  | inr below ↦
      let behind : IsBehind u e s h =
        wrap-opened u e s _ h (λ z. absurd (ground (arith, (list_eq_iff s top).1 z)))
          (rw (below, open_at) at k) in
      let same : s ≡ h.path = sym behind.1 in
      (
        e,
        subst (IsReached u e) same (route-IsReached u p i e s led),
        subst (λ t. IsBehind u e t h) same behind,
      )
]

-- A file that a person opens through their tree is a file of a share they may use, inside it; it
-- offers writes only if the share is not read-only for them. Unless the tree was made without a way
-- to ask whether the session is revoked, the file answers no read and no write from the moment it is.
pub open_file_guards :
    (shares : List Share) (p : Principal) (worker : Option (Share → Option ℕ))
    (revoked : Option Bool) (drivers : ℕ → Driver) (path : Text) (h : Handle) (later : Union)
    → open_file (union_for_with shares p worker revoked) drivers path ≡ opened h
    → ((s : Share) × Memᴰ s shares
        × (may_use s p ≡ true)
        × (driver_for worker s ≡ some h.fsys)
        × IsInside h.path
        × ((h.writes ≡ false) ⊎ (read_only_for s p ≡ false)))
      × ((revoked ≡ none)
          ⊎ (gone later ≡ false)
          ⊎ ((read_at later h ≡ denied) × (write_at later h ≢ allowed)))
unfolding union_for_with open_file read_at write_at
open_file_guards shares p worker revoked drivers path h later k =
    let u : Union = union_for_with shares p worker revoked in
    let (e, (stands, (i, held), inside), (from, at, below, writes, kept)) =
      open_at-opened u drivers path (route u path) h refl k in
    let (s, m, (may, named, over, view)) = entries_for-IsTheirs p worker shares i e held in
    (
      (s, m, may, ground arith, inside, ground arith),
      elim (Option-cases revoked) [
        | inl never ↦ inl never
        | inr (r, can) ↦ inr (elim (Bool-cases (gone later)) [
          | inr on ↦ inl on
          | inl dead ↦ inr (ground arith, ground arith)
        ])
      ],
    )
