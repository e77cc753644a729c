-- ===== src/Volumes.antt =====
-- volume.go: the checks that a volume passes before it is served, and whether this process would write
-- past a quota. What the kernel answers, and what Sscanf reads of a hexadecimal number, are arguments.
pub mod Fit
pub mod Exempt
pub mod Resolve
pub mod Calls
pub mod Found
pub mod Unused
mod Tests
use fileshare.Prelude.{
  ℕ, ◌+◌, ◌/◌, ◌%◌, ◌^◌, Bool, true, false, not, ◌&&◌, ◌||◌, Option, none, some, List, [], ◌∷◌,
  ◌++◌, if◌then◌else◌, ◌==◌, ℕ_eq, List_eq, null, Text, bytes, cut_prefix, trim_space, has_prefix,
}
use fileshare.Union.Paths.{rooted, parts_of}
use fileshare.Admin.{VolumeRef}
use fileshare.Admin.Edits.{Outside, is_abs, root_of, place_of}
use fileshare.Admin.Overlap.{split_base}

-- The kinds of volume; of one that this server does not know, the name.
pub data Kind : Type 0 where
  zfs btrfs xfs ext4 : Kind
  other_kind : Text → Kind

-- What a path is on: its device, its inode, and whether it is a directory.
pub record PathInfo : Type 0 where
  pub device : ℕ
  pub inode : ℕ
  pub is_dir : Bool

-- What the checks ask the system; `none` is an error. `exempt` says that this process would write past
-- a quota.
pub record Kernel : Type 0 where
  pub exempt : Bool
  pub outside : Outside
  pub place_of : Text → Option PathInfo
  pub magic_of : Text → Option ℕ
  pub project_of : Text → Option (ℕ × Bool)

-- `volumeFound`
pub record VolumeFound : Type 0 where
  pub ref : VolumeRef
  pub kind : Kind
  pub path : Text

pub data Fault : Type 0 where
  is_exempt not_clean no_roots unresolved outside_roots unreadable not_directory : Fault
  unknown_kind no_magic other_filesystem no_parent not_mounted not_subvolume : Fault
  no_project no_quota : Fault

-- The path to serve, or why it is not served.
pub data Checked : Type 0 where
  fit : Text → Checked
  unfit : Fault → Checked

-- The f_type of each kind.
unfoldable pub wanted_magic : Kind → Option ℕ
wanted_magic zfs = some 0x2fc12fc1
wanted_magic btrfs = some 0x9123683e
wanted_magic xfs = some 0x58465342
wanted_magic ext4 = some 0xef53
wanted_magic (other_kind name) = none

-- `btrfsSubvolRoot`
abbrev pub subvolume_root : ℕ
subvolume_root = 256

-- `filepath.Dir` of an absolute path.
unfoldable pub parent_dir : Text → Text
parent_dir path = rooted (split_base (parts_of path)).0

abbrev pub check_mounted : Text → PathInfo → Option PathInfo → Checked
check_mounted real p none = unfit no_parent
check_mounted real p (some parent) =
    if parent.device == p.device then unfit not_mounted else fit real

abbrev pub check_project : Text → Option (ℕ × Bool) → Checked
check_project real none = unfit no_project
check_project real (some (id, inherits)) =
    if id == 0 || not inherits then unfit no_quota else fit real

-- The check of each kind.
unfoldable pub check_kind : Kernel → Text → PathInfo → Kind → Checked
unfolding parent_dir
check_kind s real p zfs = check_mounted real p (s.place_of (parent_dir real))
check_kind s real p btrfs = if p.inode == subvolume_root then fit real else unfit not_subvolume
check_kind s real p xfs = check_project real (s.project_of real)
check_kind s real p ext4 = check_project real (s.project_of real)
check_kind s real p (other_kind name) = fit real

abbrev pub check_magic : Kernel → Text → PathInfo → Kind → ℕ → Option ℕ → Checked
check_magic s real p k magic none = unfit no_magic
check_magic s real p k magic (some got) =
    if got == magic then check_kind s real p k else unfit other_filesystem

abbrev pub check_wanted : Kernel → Text → PathInfo → Kind → Option ℕ → Checked
check_wanted s real p k none = unfit unknown_kind
check_wanted s real p k (some magic) = check_magic s real p k magic (s.magic_of real)

abbrev pub check_place : Kernel → Text → Kind → Option PathInfo → Checked
check_place s real k none = unfit unreadable
check_place s real k (some p) =
    if p.is_dir then check_wanted s real p k (wanted_magic k) else unfit not_directory

abbrev pub check_root : Kernel → Text → Kind → Option (Text × Text) → Checked
check_root s real k none = unfit outside_roots
check_root s real k (some found) = check_place s real k (s.place_of real)

abbrev pub check_real : Kernel → List Text → Kind → Option Text → Checked
check_real s roots k none = unfit unresolved
check_real s roots k (some real) = check_root s real k (root_of s.outside roots real)

-- Absolute, and as `filepath.Clean` leaves it.
unfoldable pub is_clean : Text → Bool
is_clean path = is_abs path && rooted (parts_of path) == path

-- `checkVolume`
unfoldable pub check_volume : Kernel → List Text → VolumeFound → Checked
unfolding is_clean wanted_magic check_kind
check_volume s roots v =
    if s.exempt
    then unfit is_exempt
    else if not (is_clean v.path)
    then unfit not_clean
    else if null roots
    then unfit no_roots
    else check_real s roots v.kind (s.outside.eval_symlinks v.path)

-- quotaExemptFrom: the masks of /proc/self/status, the last of each name.
pub record Masks : Type 0 where
  pub permitted : Option ℕ
  pub effective : Option ℕ

-- The lines of a text.
abbrev pub add_to_line : ℕ → List Text → List Text
add_to_line c [] = (c ∷ []) ∷ []
add_to_line c (l ∷ ls) = (c ∷ l) ∷ ls

unfoldable pub lines : Text → List Text
lines [] = [] ∷ []
lines (c ∷ s) = let rest = lines s in if c == 10 then [] ∷ rest else add_to_line c rest

pub data SetName : Type 0 where
  cap_prm cap_eff : SetName

abbrev pub set_prefix : SetName → Text
set_prefix cap_prm = bytes "CapPrm:"
set_prefix cap_eff = bytes "CapEff:"

abbrev pub set_mask : SetName → ℕ → Masks → Masks
set_mask cap_prm caps m = record m { permitted = some caps }
set_mask cap_eff caps m = record m { effective = some caps }

-- A line read for one of the two names; `none` where its number cannot be read.
unfoldable pub read_line : (Text → Option ℕ) → SetName → Text → Masks → Option Masks
read_line scan name line m = elim (cut_prefix line (set_prefix name)) [
  | none ↦ some m
  | some hex ↦ elim (scan (trim_space hex)) [
    | none ↦ none
    | some caps ↦ some (set_mask name caps m)
  ]
]

abbrev pub then_read : (Masks → Option Masks) → Option Masks → Option Masks
then_read f none = none
then_read f (some m) = f m

unfoldable pub read_lines : (Text → Option ℕ) → List Text → Masks → Option Masks
unfolding read_line
read_lines scan [] m = some m
read_lines scan (l ∷ ls) m =
    then_read (λ a. then_read (λ b. read_lines scan ls b) (read_line scan cap_eff l a))
      (read_line scan cap_prm l m)

-- CAP_SYS_RESOURCE in a mask.
unfoldable pub has_resource : ℕ → Bool
has_resource caps = (caps / 2 ^ 24) % 2 == 1

abbrev pub lacks_resource : Option ℕ → Bool
lacks_resource none = false
lacks_resource (some caps) = not (has_resource caps)

-- `quotaExemptFrom`: true where it names a reason. The status is `none` where it cannot be read.
unfoldable pub quota_exempt_from : (Text → Option ℕ) → ℕ → Option Text → Bool
unfolding read_lines lines has_resource
quota_exempt_from scan euid none = true
quota_exempt_from scan euid (some status) =
    euid == 0
    || elim (read_lines scan (lines status) (record { permitted = none; effective = none })) [
      | none ↦ true
      | some m ↦ not (lacks_resource m.effective && lacks_resource m.permitted)
    ]

-- `adminBlock.checkVolumes`: the block's settings for volumes.
pub record VolumeSettings : Type 0 where
  pub provisioner : Text
  pub provisioner_uid : Option ℕ
  pub listen : Text
  pub allowed_uids : List ℕ

abbrev pub is_socket : Option Text → Bool
is_socket none = false
is_socket (some rest) = has_prefix rest (bytes "/") && rooted (parts_of rest) == rest

-- Whether the settings pass; whether the system names the peer of a socket is an argument.
unfoldable pub check_settings : Bool → VolumeSettings → Bool
check_settings peer_readable a =
    if not (null a.provisioner) && not (is_socket (cut_prefix a.provisioner (bytes "unix://")))
    then false
    else if elim a.provisioner_uid [ none ↦ false | some uid ↦ true ] && null a.provisioner
    then false
    else if null a.allowed_uids
    then true
    else has_prefix a.listen (bytes "unix:") && peer_readable

unfoldable pub provisioner_uid : VolumeSettings → ℕ
provisioner_uid a = elim a.provisioner_uid [ none ↦ 0 | some uid ↦ uid ]
