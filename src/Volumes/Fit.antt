-- ===== src/Volumes/Fit.antt =====
-- What a volume is that passes the checks of volume.go, described apart from the code.
use fileshare.Prelude.{
  ℕ, ◌≡◌, refl, subst, ◌≢◌, inl, inr, Bool, true, false, Option, none, some, List, arith,
  Bool-cases, ◌==◌, nat_eq_iff, ℕ_eq, List_eq, null, Text,
}
use fileshare.Admin.Edits.{root_of}
use fileshare.Volumes.{
  Kind, zfs, btrfs, xfs, ext4, other_kind, PathInfo, Kernel, VolumeFound, fit, wanted_magic,
  subvolume_root, parent_dir, check_mounted, check_project, check_kind, check_magic, check_wanted,
  check_place, check_root, check_real, is_clean, check_volume,
}

-- What limits how much is written to a directory of a kind: a ZFS dataset is mounted there, since the
-- parent directory is on another device; it is a btrfs subvolume's root; an XFS or ext4 directory has
-- a project, which new files inherit.
abbrev pub IsLimited : Kernel → Kind → Text → PathInfo → Type 0
IsLimited s zfs real p =
    (parent : PathInfo) × (s.place_of (parent_dir real) ≡ some parent) × (parent.device ≢ p.device)
IsLimited s btrfs real p = p.inode ≡ subvolume_root
IsLimited s xfs real p = (id : ℕ) × (s.project_of real ≡ some (id, true)) × (id ≢ 0)
IsLimited s ext4 real p = (id : ℕ) × (s.project_of real ≡ some (id, true)) × (id ≢ 0)
IsLimited s (other_kind name) real p = ⊥

-- A volume that may be served at a path, which is where its links lead: this process is held to
-- quotas; the volume's path is absolute and clean; the path lies under one of the roots; it is a
-- directory, on a filesystem of the volume's kind, and limited as that kind is.
pub record IsFit (s : Kernel) (roots : List Text) (v : VolumeFound) (real : Text) : Type 0 where
  pub held : s.exempt ≡ false
  pub clean : is_clean v.path ≡ true
  pub leads : s.outside.eval_symlinks v.path ≡ some real
  pub rooted : (found : Text × Text) × (root_of s.outside roots real ≡ some found)
  pub place : PathInfo
  pub stands : s.place_of real ≡ some place
  pub directory : place.is_dir ≡ true
  pub same_kind : (magic : ℕ) × (wanted_magic v.kind ≡ some magic) × (s.magic_of real ≡ some magic)
  pub limited : IsLimited s v.kind real place

fit-path : {a b : Text} → fit a ≡ fit b → a ≡ b
fit-path h = cc

check_mounted-fit :
    (real out : Text) (p : PathInfo) (o : Option PathInfo)
    → check_mounted real p o ≡ fit out
    → (real ≡ out) × ((q : PathInfo) × (o ≡ some q) × (q.device ≢ p.device))
check_mounted-fit real out p none h = absurd (cc)
check_mounted-fit real out p (some q) h = elim (Bool-cases (q.device == p.device)) [
  | inl e ↦ absurd (ground arith)
  | inr e ↦ (ground arith, (q, refl, λ x. ground (arith, nat_eq_iff q.device p.device)))
]

check_project-fit :
    (real out : Text) (o : Option (ℕ × Bool))
    → check_project real o ≡ fit out
    → (real ≡ out) × ((id : ℕ) × (o ≡ some (id, true)) × (id ≢ 0))
check_project-fit real out none h = absurd (cc)
check_project-fit real out (some (id, false)) h = elim (Bool-cases (id == 0)) [
  | inl e ↦ absurd (ground arith)
  | inr e ↦ absurd (ground arith)
]
check_project-fit real out (some (id, true)) h = elim (Bool-cases (id == 0)) [
  | inl e ↦ absurd (ground arith)
  | inr e ↦ (ground arith, (id, refl, λ x. ground (arith, nat_eq_iff id 0)))
]

check_kind-fit :
    (s : Kernel) (real out : Text) (p : PathInfo) (k : Kind) {magic : ℕ}
    → wanted_magic k ≡ some magic
    → check_kind s real p k ≡ fit out
    → (real ≡ out) × IsLimited s k real p
unfolding check_kind wanted_magic
check_kind-fit s real out p zfs w h = check_mounted-fit real out p (s.place_of (parent_dir real)) h
check_kind-fit s real out p btrfs w h = elim (Bool-cases (p.inode == subvolume_root)) [
  | inl e ↦ (ground arith, (nat_eq_iff p.inode subvolume_root).0 e)
  | inr e ↦ absurd (ground arith)
]
check_kind-fit s real out p xfs w h = check_project-fit real out (s.project_of real) h
check_kind-fit s real out p ext4 w h = check_project-fit real out (s.project_of real) h
check_kind-fit s real out p (other_kind name) w h = absurd (cc)

-- From where the path was resolved on.
module _ (s : Kernel) (roots : List Text) (v : VolumeFound) (real out : Text)
    (held : s.exempt ≡ false) (clean : is_clean v.path ≡ true)
    (leads : s.outside.eval_symlinks v.path ≡ some real) (found : Text × Text)
    (root : root_of s.outside roots real ≡ some found) where
  check_magic-fit :
      (p : PathInfo) (magic : ℕ) (o : Option ℕ)
      → s.place_of real ≡ some p
      → p.is_dir ≡ true
      → wanted_magic v.kind ≡ some magic
      → s.magic_of real ≡ o
      → check_magic s real p v.kind magic o ≡ fit out
      → (real ≡ out) × IsFit s roots v real
  check_magic-fit p magic none at dir w got h = absurd (cc)
  check_magic-fit p magic (some m) at dir w got h = elim (Bool-cases (m == magic)) [
    | inr e ↦ absurd (ground arith)
    | inl e ↦
        let same = (nat_eq_iff m magic).0 e in
        let (q, limits) = check_kind-fit s real out p v.kind w (rw e at h) in
        (
          q,
          record {
            held = held;
            clean = clean;
            leads = leads;
            rooted = (found, root);
            place = p;
            stands = at;
            directory = dir;
            same_kind = (magic, w, subst (λ n. s.magic_of real ≡ some n) same got);
            limited = limits;
          },
        )
  ]

  check_wanted-fit :
      (p : PathInfo) (o : Option ℕ)
      → s.place_of real ≡ some p
      → p.is_dir ≡ true
      → wanted_magic v.kind ≡ o
      → check_wanted s real p v.kind o ≡ fit out
      → (real ≡ out) × IsFit s roots v real
  check_wanted-fit p none at dir w h = absurd (cc)
  check_wanted-fit p (some magic) at dir w h =
      check_magic-fit p magic (s.magic_of real) at dir w refl h

  check_place-fit :
      (o : Option PathInfo)
      → s.place_of real ≡ o
      → check_place s real v.kind o ≡ fit out
      → (real ≡ out) × IsFit s roots v real
  check_place-fit none at h = absurd (cc)
  check_place-fit (some p) at h = elim (Bool-cases p.is_dir) [
    | inr e ↦ absurd (ground arith)
    | inl e ↦ check_wanted-fit p (wanted_magic v.kind) at e refl (ground arith)
  ]

check_real-fit :
    (s : Kernel) (roots : List Text) (v : VolumeFound) (out : Text) (o : Option Text)
    → s.exempt ≡ false
    → is_clean v.path ≡ true
    → s.outside.eval_symlinks v.path ≡ o
    → check_real s roots v.kind o ≡ fit out
    → IsFit s roots v out
check_real-fit s roots v out none held clean leads h = absurd (cc)
check_real-fit s roots v out (some real) held clean leads h =
    under (root_of s.outside roots real) refl h
  where
    under :
        (o : Option (Text × Text))
        → root_of s.outside roots real ≡ o
        → check_root s real v.kind o ≡ fit out
        → IsFit s roots v out
    under none root h = absurd (cc)
    under (some found) root h =
        let (q, f) =
          check_place-fit s roots v real out held clean leads found root (s.place_of real) refl h in
        subst (IsFit s roots v) q f

-- A volume that passes every check is fit to be served at the path that the check gives.
pub check_volume-IsFit :
    (s : Kernel) (roots : List Text) (v : VolumeFound) (real : Text)
    → check_volume s roots v ≡ fit real
    → IsFit s roots v real
unfolding check_volume
check_volume-IsFit s roots v real h = elim (Bool-cases s.exempt) [
  | inl a ↦ absurd (ground arith)
  | inr a ↦ elim (Bool-cases (is_clean v.path)) [
    | inr b ↦ absurd (ground arith)
    | inl b ↦ elim (Bool-cases (null roots)) [
      | inl c ↦ absurd (ground arith)
      | inr c ↦
          check_real-fit s roots v real (s.outside.eval_symlinks v.path) a b refl (ground arith)
    ]
  ]
]
