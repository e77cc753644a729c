-- ===== src/Volumes/Unused.antt =====
-- What the checks of a volume (volume.go) and the question who uses it (volume_grpc.go) give the calls
-- that rely on them.
use fileshare.Prelude.{
  ◌≡◌, refl, ◌⊎◌, inl, inr, Bool, true, false, not, ◌&&◌, none, List, [], ◌∷◌, ◌++◌, arith,
  if◌then◌else◌, Bool-cases, ℕ_eq, List_eq, null, All, contains, Text,
}
use fileshare.Provision.Apart.{path_within}
use fileshare.Admin.{VolumeRef, ManagedShare, ShareBlock, StateFile, Result, done, failed, Site}
use fileshare.Admin.Edits.{Outside, check_volume_ref}
use fileshare.Admin.Manager.{all_blocks}
use fileshare.Admin.Overlap.{PathSystem, resolved_source}
use fileshare.Volumes.{Kernel}
use fileshare.Volumes.Resolve.{
  Status, Volume, Answer, gives, fails, VolumeService, Provisioner, Words, resolve_volumes,
}
use fileshare.Volumes.Calls.{
  same_volume, made_from, sourced_in, inside_of, users_of, Counts, delete_unused, is_missing,
  delete_found, delete_checked, delete_volume,
}
use fileshare.Volumes.Found.{IsFound, IsDialled, resolve_from-IsFound}

-- Whatever a start finds of the volumes of its shares: each entry serves no path, or it serves one of
-- the volume of a share of that name, which the provisioner that the start dialled described when it
-- was asked for it, and which is fit to be served there.
pub resolve_volumes-IsFit :
    (s : Kernel) (w : Words) (roots : List Text) (dials : ManagedShare → Provisioner)
    (ms : List ManagedShare)
    → All (IsFound s roots dials ms) (resolve_volumes s w roots dials ms)
unfolding resolve_volumes IsDialled
resolve_volumes-IsFit s w roots dials ms = resolve_from-IsFound s w roots dials none ms tt

made_from-null :
    (ref : VolumeRef) (ms : List ManagedShare)
    → null (made_from ref ms) ≡ true
    → All (λ m. same_volume ref m.volume ≡ false) ms
unfolding made_from
made_from-null ref [] h = tt
made_from-null ref (m ∷ ms) h = elim (Bool-cases (same_volume ref m.volume)) [
  | inl e ↦ absurd (ground arith)
  | inr e ↦ (e, made_from-null ref ms (ground arith))
]

sourced_in-null :
    (f : PathSystem) (inside : Text) (out : List Text) (bs : List ShareBlock)
    → null (sourced_in f inside out bs) ≡ true
    → (null out ≡ true) × All (λ b. path_within inside (resolved_source f b) ≡ false) bs
unfolding sourced_in
sourced_in-null f inside out [] h = (h, tt)
sourced_in-null f inside out (b ∷ bs) h =
    let test = not (contains out b.name) && path_within inside (resolved_source f b) in
    let (empty, rest) =
      sourced_in-null f inside (if test then out ++ (b.name ∷ []) else out) bs h in
    let (e, outside) = kept out b.name (path_within inside (resolved_source f b)) empty in
    (e, (outside, rest))
  where
    kept :
        (out : List Text) (name : Text) (within : Bool)
        → null (if not (contains out name) && within then out ++ (name ∷ []) else out) ≡ true
        → (null out ≡ true) × (within ≡ false)
    kept [] name true h = absurd (cc)
    kept [] name false h = (refl, refl)
    kept (x ∷ out) name within h = elim (Bool-cases (not (contains (x ∷ out) name) && within)) [
      | inl e ↦ absurd (ground arith)
      | inr e ↦ absurd (ground arith)
    ]

-- No share of the state was made from the volume, and where the provisioner says where it is, no share
-- has its source there.
pub record IsUnused (f : PathSystem) (site : Site) (st : StateFile) (c : VolumeService)
    (ref : VolumeRef) : Type 0 where
  pub not_made : All (λ m. same_volume ref m.volume ≡ false) st.shares
  pub not_inside :
      ((e : Status) × (c.get ref ≡ fails e) × (is_missing e ≡ true))
      ⊎ ((v : Volume) × (c.get ref ≡ gives v)
          × ((null v.path ≡ true)
              ⊎ All
                  (λ b. path_within (inside_of f v.path) (resolved_source f b) ≡ false)
                  (all_blocks site st)))

users_of-null :
    (f : PathSystem) (site : Site) (st : StateFile) (ref : VolumeRef) (path : Text)
    → null (users_of f site st ref path) ≡ true
    → All (λ m. same_volume ref m.volume ≡ false) st.shares
      × ((null path ≡ true)
          ⊎ All
              (λ b. path_within (inside_of f path) (resolved_source f b) ≡ false)
              (all_blocks site st))
unfolding users_of
users_of-null f site st ref path h = elim (Bool-cases (null path)) [
  | inl e ↦ (made_from-null ref st.shares (ground arith), inl e)
  | inr e ↦
      let (a, b) =
        sourced_in-null f (inside_of f path) (made_from ref st.shares) (all_blocks site st)
          (ground arith) in
      (made_from-null ref st.shares a, inr b)
]

delete_unused-asked :
    (c : VolumeService) (ref : VolumeRef) (destroy : Bool) (n : Counts) (users : List Text)
    → (delete_unused c ref destroy n users).asked ≡ true
    → null users ≡ true
delete_unused-asked c ref destroy n [] h = refl
delete_unused-asked c ref destroy n (u ∷ users) h = absurd (cc)

-- DeleteVolume asks the provisioner to delete a volume only where nothing uses it: no share of the
-- state was made from it, taken offline or waiting included, and, where the provisioner says that it
-- is somewhere, no share of the files or of the state has its source inside.
pub delete_volume-IsUnused :
    (o : Outside) (f : PathSystem) (site : Site) (st : StateFile) (c : VolumeService)
    (ref : VolumeRef) (destroy : Bool) (n : Counts)
    → (delete_volume o f site st c ref destroy n).asked ≡ true
    → IsUnused f site st c ref
unfolding delete_volume
delete_volume-IsUnused o f site st c ref destroy n h = checked (check_volume_ref o ref) h
  where
    found :
        (a : Answer Volume)
        → c.get ref ≡ a
        → (delete_found f site st c ref destroy n a).asked ≡ true
        → IsUnused f site st c ref
    found (gives v) g h =
        let (made, inside) =
          users_of-null f site st ref v.path
            (delete_unused-asked c ref destroy n (users_of f site st ref v.path) h) in
        record { not_made = made; not_inside = inr (v, g, inside) }
    found (fails e) g h = elim (Bool-cases (is_missing e)) [
      | inr x ↦ absurd (ground arith)
      | inl x ↦
          let (made, inside) =
            users_of-null f site st ref []
              (delete_unused-asked c ref destroy n (users_of f site st ref []) (rw x at h)) in
          record { not_made = made; not_inside = inl (e, g, x) }
    ]

    checked :
        (r : Result Unit)
        → (delete_checked f site st c ref destroy n r).asked ≡ true
        → IsUnused f site st c ref
    checked (failed e) h = absurd (cc)
    checked (done u) h = found (c.get ref) refl h
