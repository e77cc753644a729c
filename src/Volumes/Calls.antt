-- ===== src/Volumes/Calls.antt =====
-- volume_grpc.go: which shares use a volume, and the calls of the API on volumes. The provisioner is an
-- argument.
use fileshare.Prelude.{
  ℕ, suc, Bool, true, false, not, ◌&&◌, Option, none, some, List, [], ◌∷◌, ◌++◌, if◌then◌else◌,
  ◌==◌, ℕ_eq, List_eq, null, contains, Text,
}
use fileshare.Union.Paths.{rooted, parts_of}
use fileshare.Admin.{VolumeRef, ManagedShare, ShareBlock, StateFile, Result, done, failed, Site}
use fileshare.Admin.Edits.{Outside, is_volume_byte, matches_grammar, check_volume_ref}
use fileshare.Admin.Manager.{all_blocks}
use fileshare.Provision.Apart.{path_within}
use fileshare.Admin.Overlap.{PathSystem, resolved_source}
use fileshare.Volumes.Resolve.{
  Status, not_found_status, unavailable_status, bad_argument, permission_denied, unauthenticated,
  bad_state, plain, Volume, Answer, gives, fails, VolumeService,
}

-- `relayed`: the status that the API answers.
unfoldable pub relayed : Status → Status
relayed permission_denied = bad_state
relayed unauthenticated = bad_state
relayed plain = unavailable_status
relayed e = e

abbrev pub same_volume : VolumeRef → Option VolumeRef → Bool
same_volume ref none = false
same_volume ref (some v) = v.parent == ref.parent && v.name == ref.name

-- The shares of the state that were made from a volume.
unfoldable pub made_from : VolumeRef → List ManagedShare → List Text
made_from ref [] = []
made_from ref (s ∷ ss) =
    let rest = made_from ref ss in if same_volume ref s.volume then s.name ∷ rest else rest

-- The further shares with a source inside a path.
unfoldable pub sourced_in : PathSystem → Text → List Text → List ShareBlock → List Text
unfolding resolved_source
sourced_in f inside out [] = out
sourced_in f inside out (b ∷ bs) =
    sourced_in f inside
      (if not (contains out b.name) && path_within inside (resolved_source f b)
        then out ++ (b.name ∷ [])
        else out)
      bs

-- Where a volume's path leads.
abbrev pub inside_of : PathSystem → Text → Text
inside_of f path = elim (f.eval_symlinks path) [ some real ↦ real | none ↦ rooted (parts_of path) ]

-- `usersOf`, but for the order of the names.
unfoldable pub users_of : PathSystem → Site → StateFile → VolumeRef → Text → List Text
unfolding made_from sourced_in all_blocks
users_of f site st ref path =
    let made = made_from ref st.shares in
    if null path then made else sourced_in f (inside_of f path) made (all_blocks site st)

-- What a call of the API answers, and the counts of calls that were refused and applied.
pub record Counts : Type 0 where
  pub refusals : ℕ
  pub applied : ℕ

abbrev pub count_refused : Counts → Counts
count_refused n = record n { refusals = suc n.refusals }

abbrev pub count_applied : Counts → Counts
count_applied n = record n { applied = suc n.applied }

abbrev pub audited : {A : Type 0} → Counts → Answer A → Answer A × Counts
audited n (gives a) = (gives a, count_applied n)
audited n (fails e) = (fails (relayed e), count_refused n)

abbrev pub after_ref : {A : Type 0} → Counts → Result Unit → Answer A × Counts → Answer A × Counts
after_ref n (failed e) later = (fails bad_argument, n)
after_ref n (done u) later = later

-- CreateVolume, ResizeVolume and SnapshotVolume, where there is a provisioner.
unfoldable pub create_volume :
    Outside → VolumeService → VolumeRef → ℕ → Counts → Answer (Volume × Bool) × Counts
unfolding check_volume_ref relayed
create_volume o c ref quota n =
    after_ref n (check_volume_ref o ref) (audited n (c.create ref quota))

unfoldable pub resize_volume :
    Outside → VolumeService → VolumeRef → ℕ → Counts → Answer Volume × Counts
unfolding check_volume_ref relayed
resize_volume o c ref quota n =
    after_ref n (check_volume_ref o ref) (audited n (c.resize ref quota))

unfoldable pub snapshot_volume :
    Outside → VolumeService → VolumeRef → Text → Counts → Answer (Volume × Bool) × Counts
unfolding check_volume_ref relayed is_volume_byte
snapshot_volume o c ref snap n = after_ref n (check_volume_ref o ref) (
    if not (matches_grammar snap) then (fails bad_argument, n) else audited n (c.snapshot ref snap))

-- What DeleteVolume comes to: the answer, the counts, and whether the provisioner was asked to delete.
pub record Deleted : Type 0 where
  pub answer : Answer Bool
  pub counts : Counts
  pub asked : Bool

abbrev pub not_asked : Counts → Status → Deleted
not_asked n e = record { answer = fails e; counts = n; asked = false }

abbrev pub delete_answered : Counts → Answer Bool → Deleted
delete_answered n (gives d) = record { answer = gives d; counts = count_applied n; asked = true }
delete_answered n (fails e) = record {
  answer = fails (relayed e);
  counts = count_refused n;
  asked = true;
}

abbrev pub delete_unused : VolumeService → VolumeRef → Bool → Counts → List Text → Deleted
delete_unused c ref destroy n users =
    if null users
    then delete_answered n (c.delete ref destroy)
    else not_asked (count_refused n) bad_state

abbrev pub is_missing : Status → Bool
is_missing not_found_status = true
is_missing _ = false

-- The path that the provisioner says; none where there is no such volume.
abbrev pub delete_found :
    PathSystem
    → Site
    → StateFile
    → VolumeService
    → VolumeRef
    → Bool
    → Counts
    → Answer Volume
    → Deleted
delete_found f site st c ref destroy n (gives v) =
    delete_unused c ref destroy n (users_of f site st ref v.path)
delete_found f site st c ref destroy n (fails e) =
    if is_missing e
    then delete_unused c ref destroy n (users_of f site st ref [])
    else not_asked (count_refused n) (relayed e)

abbrev pub delete_checked :
    PathSystem
    → Site
    → StateFile
    → VolumeService
    → VolumeRef
    → Bool
    → Counts
    → Result Unit
    → Deleted
delete_checked f site st c ref destroy n (failed e) = not_asked n bad_argument
delete_checked f site st c ref destroy n (done u) =
    delete_found f site st c ref destroy n (c.get ref)

-- DeleteVolume, under the manager's lock, where there is a provisioner.
unfoldable pub delete_volume :
    Outside → PathSystem → Site → StateFile → VolumeService → VolumeRef → Bool → Counts → Deleted
unfolding check_volume_ref relayed users_of
delete_volume o f site st c ref destroy n =
    delete_checked f site st c ref destroy n (check_volume_ref o ref)

-- GetVolume; the view is the volume with the shares that use it.
abbrev pub view : PathSystem → Site → StateFile → VolumeRef → Volume → Volume × List Text
view f site st ref v = (v, users_of f site st ref v.path)

abbrev pub viewed :
    PathSystem → Site → StateFile → VolumeRef → Answer Volume → Answer (Volume × List Text)
viewed f site st ref (gives v) = gives (view f site st ref v)
viewed f site st ref (fails e) = fails (relayed e)

unfoldable pub get_volume :
    Outside
    → PathSystem
    → Site
    → StateFile
    → VolumeService
    → VolumeRef
    → Answer (Volume × List Text)
unfolding check_volume_ref relayed users_of
get_volume o f site st c ref = elim (check_volume_ref o ref) [
  | failed e ↦ fails bad_argument
  | done u ↦ viewed f site st ref (c.get ref)
]

abbrev pub view_all :
    PathSystem → Site → StateFile → List (VolumeRef × Volume) → List (Volume × List Text)
view_all f site st [] = []
view_all f site st ((ref, v) ∷ vs) = view f site st ref v ∷ view_all f site st vs

abbrev pub all_viewed :
    PathSystem
    → Site
    → StateFile
    → Answer (List (VolumeRef × Volume))
    → Answer (List (Volume × List Text))
all_viewed f site st (gives vs) = gives (view_all f site st vs)
all_viewed f site st (fails e) = fails (relayed e)

unfoldable pub list_volumes :
    PathSystem → Site → StateFile → VolumeService → Text → Answer (List (Volume × List Text))
unfolding relayed users_of
list_volumes f site st c parent = all_viewed f site st (c.list parent)
