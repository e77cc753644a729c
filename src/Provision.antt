-- ===== src/Provision.antt =====
-- internal/provision: the privileged process that makes volumes. This file has its records, its errors
-- and the calls it makes: a call is a function of the service's state, and what it changed stays
-- changed when it fails. Storage, the state file's disk and the clock are an environment.
pub mod Service
pub mod Changes
pub mod Records
pub mod Allocate
pub mod Keeps
pub mod Setup
pub mod Apart
pub mod Owners
pub mod Invariant
pub mod Sound
pub mod Calls
pub mod Deletion
pub mod Tests
use fileshare.Prelude.{
  ℕ, Bool, true, false, ◌&&◌, Option, none, some, List, [], ◌∷◌, ◌++◌, if◌then◌else◌, ◌==◌, ℕ_eq,
  List_eq, delete_if, find_first, Text,
}

-- state.go: one volume that this provisioner created.
pub record Record : Type 0 where
  pub parent : Text
  pub name : Text
  pub kind : Text
  pub quota : ℕ
  pub created : ℕ
  pub pending : Bool
  pub project_id : ℕ
  pub subvol_id : ℕ
  pub subvol_uuid : Text
  pub snapshots : List Text

-- config.go: a parent, once its block was checked; `lo` and `hi` are 0 but for xfs and ext4.
pub record Parent : Type 0 where
  pub id : Text
  pub kind : Text
  pub zfs : Text
  pub root : Text
  pub lo : ℕ
  pub hi : ℕ

pub record Config : Type 0 where
  pub parents : List Parent
  pub max_volume : ℕ

pub data Code : Type 0 where
  invalid_argument out_of_range resource_exhausted already_exists failed_precondition : Code
  not_found unimplemented internal : Code

-- errors.go: a refusal with its code, what an ownership check finds, a full filesystem (ENOSPC or
-- EDQUOT), and any other failure.
pub data Err : Type 0 where
  refuse : Code → Err
  absent not_ours no_space fault : Err

unfoldable pub status_of : Err → Code
status_of (refuse c) = c
status_of no_space = resource_exhausted
status_of absent = internal
status_of not_ours = internal
status_of fault = internal

pub data Result (A : Type 0) : Type 0 where
  ok : A → Result A
  err : Err → Result A

-- backend.go: what a parent's storage answers and does. `create` also sets the two subvolume marks of
-- its record, and `snapshot` the record's own list of snapshots.
pub record Backend (W : Type 0) : Type 0 where
  pub space : W → Result (ℕ × ℕ)
  pub present : W → Record → Result Bool
  pub owned : W → Record → Option Err
  pub quota : W → Record → Result ℕ
  pub used : W → Record → Result ℕ
  pub create : W → Record → W × ℕ × Text × Option Err
  pub resize : W → Record → ℕ → W × Option Err
  pub can_snapshot : Bool
  pub snapshots : W → Record → Result (List Text)
  pub snapshot : W → Record → Text → W × List Text × Option Err
  pub empty : W → Record → Result Bool
  pub destroy : W → Record → List Text → W × Option Err

pub record Env (W : Type 0) : Type 0 where
  pub backends : Text → Backend W
  pub save : W → W × Option Err
  pub now : W → ℕ

-- The records in memory, those last written to the state file, and the storage.
pub record Store (W : Type 0) : Type 0 where
  pub vols : List Record
  pub disk : List Record
  pub world : W

abbrev pub M : Type 0 → Type 0 → Type 0
M W A = Store W → Result A × Store W

abbrev pub bind_at : {W A B : Type 0} → (A → M W B) → Result A × Store W → Result B × Store W
bind_at f (ok a, s) = f a s
bind_at f (err e, s) = (err e, s)

infixl 5 ◌>>=◌ ◌>>◌
abbrev pub ◌>>=◌ : {W A B : Type 0} → M W A → (A → M W B) → M W B
◌>>=◌ m f s = bind_at f (m s)

abbrev pub ◌>>◌ : {W B : Type 0} → M W (Unit {0}) → M W B → M W B
m >> k = m >>= λ _. k

abbrev pub pure : {W A : Type 0} → A → M W A
pure a s = (ok a, s)

abbrev pub fail : {W A : Type 0} → Err → M W A
fail e s = (err e, s)

abbrev pub guard : {W : Type 0} → Bool → Err → M W (Unit {0})
guard true e = pure tt
guard false e = fail e

-- A question that changes nothing, and one whose failure is an answer too.
abbrev pub ask : {W A : Type 0} → (W → Result A) → M W A
ask q s = (q s.world, s)

abbrev pub look : {W A : Type 0} → (Store W → A) → M W A
look q s = (ok (q s), s)

abbrev pub settle : {W : Type 0} → Option Err → M W (Unit {0})
settle none = pure tt
settle (some e) = fail e

abbrev pub change : {W : Type 0} → (List Record → List Record) → M W (Unit {0})
change f s = (ok tt, record s { vols = f s.vols })

abbrev pub put_world : {W : Type 0} → W → M W (Unit {0})
put_world w s = (ok tt, record s { world = w })

-- `state.get`, `put` and `remove`; and a write through the pointer that `get` returned.
abbrev pub is_at : Text → Text → Record → Bool
is_at parent name r = r.parent == parent && r.name == name

unfoldable pub find : Text → Text → List Record → Option Record
find parent name vols = find_first (is_at parent name) vols

unfoldable pub put : Record → List Record → List Record
unfolding find
put r vols = elim (find r.parent r.name vols) [ none ↦ vols ++ r ∷ [] | some old ↦ vols ]

unfoldable pub remove : Text → Text → List Record → List Record
remove parent name vols = delete_if (is_at parent name) vols

unfoldable pub update : Record → List Record → List Record
update r [] = []
update r (x ∷ xs) = let rest = update r xs in if is_at r.parent r.name x then r ∷ xs else x ∷ rest
