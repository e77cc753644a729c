-- ===== src/Union.antt =====
-- unionfs.go: the shares that one person may use, as the top-level directories of one tree. An
-- operation is answered by the tree itself or handed to the driver of one share.
pub mod Paths
pub mod Routing
pub mod Isolation
pub mod Rights
pub mod Snapshots
pub mod Tests
use fileshare.Prelude.{
  ℕ, suc, ◌+◌, Bool, true, false, not, ◌&&◌, Option, none, some, List, [], ◌∷◌, if◌then◌else◌, ◌==◌,
  ℕ_eq, List_eq, Text, cut_prefix, cut,
}
use fileshare.Access.Principal.{Principal}
use fileshare.Access.Share.{Share, may_use, read_only_for}
use fileshare.Union.Paths.{clean_rooted}

pub record Entry : Type 0 where
  pub name : Text
  pub fsys : ℕ
  pub read_only : Bool

-- `revoked` is `none` for a nil function, and otherwise whether the function answers an error now.
pub record Union : Type 0 where
  pub entries : List Entry
  pub revoked : Option Bool

pub data Err : Type 0 where
  not_exist invalid permission crosses_shares driver_failed : Err

-- One round of the loop of `unionForWith`; a share served as its people goes through the worker.
entry_over : Principal → Share → Option ℕ → Option Entry
entry_over p sh none = none
entry_over p sh (some f) =
    some (record { name = sh.name; fsys = f; read_only = read_only_for sh p })

abbrev pub driver_for : Option (Share → Option ℕ) → Share → Option ℕ
driver_for none sh = if sh.system then none else some sh.fsys
driver_for (some worker) sh = if sh.system then worker sh else some sh.fsys

pub entry_for : Principal → Option (Share → Option ℕ) → Share → Option Entry
unfolding entry_over
entry_for p worker sh = if not (may_use sh p) then none else entry_over p sh (driver_for worker sh)

pub entries_for : Principal → Option (Share → Option ℕ) → List Share → List Entry
entries_for p worker [] = []
entries_for p worker (sh ∷ shares) = elim (entry_for p worker sh) [
  | none ↦ entries_for p worker shares
  | some e ↦ e ∷ entries_for p worker shares
]

pub union_for_with : List Share → Principal → Option (Share → Option ℕ) → Option Bool → Union
union_for_with shares p worker revoked = record {
  entries = entries_for p worker shares;
  revoked = revoked;
}

abbrev pub gone : Union → Bool
gone u = elim u.revoked [ none ↦ false | some r ↦ r ]

pub data Route : Type 0 where
  missing root : Route
  found : ℕ → Entry → Text → Route

-- The loop over the entries, from index `i`.
pub find_entry : ℕ → List Entry → Text → Text → Route
find_entry i [] name inside = missing
find_entry i (e ∷ es) name inside =
    let later = find_entry (suc i) es name inside in
    if e.name == name then found i e inside else later

-- `strings.TrimPrefix(p, "/")`
abbrev pub trim_slash : Text → Text
trim_slash p = elim (cut_prefix p (b'/' ∷ [])) [ none ↦ p | some rest ↦ rest ]

abbrev pub split_first : Text → Text × Text
split_first rest = elim (cut b'/' rest) [ none ↦ (rest, []) | some (name, tail) ↦ (name, tail) ]

-- The part of `route` that follows `path.Clean`.
route_clean : Union → Text → Route
route_clean u clean =
    if clean == (b'/' ∷ [])
    then root
    else let (name, tail) = split_first (trim_slash clean) in
      find_entry 0 u.entries name (b'/' ∷ tail)

pub route : Union → Text → Route
route u p = if gone u then missing else route_clean u (clean_rooted (b'/' ∷ trim_slash p))

pub data Target : Type 0 where
  no_target : Err → Target
  target : ℕ → Entry → Text → Target

writable_at : Route → Target
writable_at missing = no_target not_exist
writable_at root = no_target permission
writable_at (found i e inside) =
    if inside == (b'/' ∷ [])
    then no_target permission
    else if e.read_only
    then no_target permission
    else target i e inside

-- `writable`: where a write may go.
pub writable : Union → Text → Target
unfolding writable_at
writable u p = writable_at (route u p)

pub data Op : Type 0 where
  read_file list_dir stat read_link delete_file delete_dir : Text → Op
  write_file : Text → List ℕ → ℕ → Op
  mk_dir : Text → ℕ → Op
  rename : Text → Text → Op

pub data Reply : Type 0 where
  err : Err → Reply
  listing : List (ℕ × Text) → Reply
  directory : ℕ → Reply
  forward : ℕ → Op → Reply

-- The directory entries of the root, numbered from 2.
abbrev number_from : ℕ → List Entry → List (ℕ × Text)
number_from i [] = []
number_from i (e ∷ es) = (i, e.name) ∷ number_from (suc i) es

abbrev mode_dir : ℕ
mode_dir = 0x4000

abbrev to_driver : Target → (Text → Op) → Reply
to_driver (no_target e) op = err e
to_driver (target i e inside) op = forward e.fsys (op inside)

-- `Rename`, once the source is known; entries are compared by where they stand.
abbrev rename_to : ℕ → Entry → Text → Target → Reply
rename_to i e inside (no_target why) = err why
rename_to i e inside (target j dst inside_to) =
    if j == i then forward e.fsys (rename inside inside_to) else err crosses_shares

-- `ReadFile` and `ReadLink`: neither the root nor a missing share answers.
read_at_route : Err → (Text → Op) → Route → Reply
read_at_route why op missing = err why
read_at_route why op root = err why
read_at_route why op (found i e inside) = forward e.fsys (op inside)

list_at : Union → Route → Reply
list_at u missing = err not_exist
list_at u root = listing (number_from 2 u.entries)
list_at u (found i e inside) = forward e.fsys (list_dir inside)

stat_at : Route → Reply
stat_at missing = err not_exist
stat_at root = directory (mode_dir + 0o555)
stat_at (found i e inside) =
    if inside == (b'/' ∷ [])
    then directory (mode_dir + (if e.read_only then 0o555 else 0o755))
    else forward e.fsys (stat inside)

rename_from : Target → Target → Reply
rename_from (no_target why) to = err why
rename_from (target i e inside) to = rename_to i e inside to

pub run : Union → Op → Reply
unfolding read_at_route list_at stat_at rename_from
run u (read_file p) = read_at_route not_exist read_file (route u p)
run u (list_dir p) = list_at u (route u p)
run u (stat p) = stat_at (route u p)
run u (read_link p) = read_at_route invalid read_link (route u p)
run u (delete_file p) = to_driver (writable u p) delete_file
run u (delete_dir p) = to_driver (writable u p) delete_dir
run u (write_file p text perm) = to_driver (writable u p) (λ inside. write_file inside text perm)
run u (mk_dir p perm) = to_driver (writable u p) (λ inside. mk_dir inside perm)
run u (rename from to) = rename_from (writable u from) (writable u to)

-- What a driver's file can do: whether it opens, and whether it then offers writes.
pub record Driver : Type 0 where
  pub can_open : Bool
  pub open_file : Text → Option Bool

pub record Handle : Type 0 where
  pub fsys : ℕ
  pub path : Text
  pub writes : Bool
  pub revocable : Bool

pub data Opening : Type 0 where
  no_file : Err → Opening
  opened : Handle → Opening

abbrev is_some {ℓ} : {A : Type ℓ} → Option A → Bool
is_some none = false
is_some (some a) = true

abbrev wrap : Union → Entry → Text → Option Bool → Opening
wrap u e inside none = no_file driver_failed
wrap u e inside (some w) = opened (record {
  fsys = e.fsys;
  path = inside;
  writes = w && not e.read_only;
  revocable = is_some u.revoked;
})

open_at : Union → (ℕ → Driver) → Route → Opening
open_at u drivers missing = no_file invalid
open_at u drivers root = no_file invalid
open_at u drivers (found i e inside) =
    if inside == (b'/' ∷ [])
    then no_file invalid
    else wrap u e inside
        (if (drivers e.fsys).can_open then (drivers e.fsys).open_file inside else some false)

-- `OpenFile`: a driver with no Opener is served from a snapshot, which cannot write.
pub open_file : Union → (ℕ → Driver) → Text → Opening
unfolding open_at
open_file u drivers p = open_at u drivers (route u p)

pub data Access : Type 0 where
  allowed denied not_offered : Access

-- `ReadAt`, and `WriteAt` or `Truncate`, of a handle whose tree is now `u`.
pub read_at : Union → Handle → Access
read_at u h = if h.revocable && gone u then denied else allowed

pub write_at : Union → Handle → Access
write_at u h = if h.writes then if h.revocable && gone u then denied else allowed else not_offered
