-- ===== src/Admin/Edits.antt =====
-- admin_grpc.go: what each call of the API changes in the state, as a function of a copy of it, and
-- state.go: a source within the source roots.
use fileshare.Prelude.{
  ℕ, zero, suc, Bool, true, false, not, ◌&&◌, ◌||◌, Option, none, some, List, [], ◌∷◌, ◌++◌, ltb,
  leb, if◌then◌else◌, ◌==◌, ℕ_eq, List_eq, length, any, all, delete_if, null, Text, bytes,
  equal_fold,
}
use fileshare.Union.Paths.{rooted, parts_of}
use fileshare.Admin.{
  ℤ, VolumeRef, Resolution, Grant, ManagedShare, StateFile, invalid, not_found, exists,
  precondition, refused, out_of_range, Result, done, failed, ◌>>=◌, pure, refuse_if, share_index,
  Site, from_files,
}
use fileshare.Admin.Subjects.{Asked, grants_of}

-- What a call asks outside: of characters, of symbolic links (`EvalSymlinks`, `none` where it
-- fails), and of the provisioner, if there is one.
pub record Outside : Type 0 where
  pub printable : Text → Bool
  pub eval_symlinks : Text → Option Text
  pub provisioner : Option (VolumeRef → Result Resolution)

abbrev pub is_abs : Text → Bool
is_abs [] = false
is_abs (c ∷ s) = c == b'/'

-- The parts that are left below a directory.
abbrev below : List Text → List Text → Option (List Text)
below [] vs = some vs
below (w ∷ ws) [] = none
below (w ∷ ws) (v ∷ vs) = let rest = below ws vs in if w == v then rest else none

abbrev joined : List Text → Text
joined [] = bytes "."
joined (w ∷ ws) = elim (rooted (w ∷ ws)) [ [] ↦ [] | c ∷ rest ↦ rest ]

-- `filepath.Rel` of an absolute path, where it does not climb; a root that is relative has none.
abbrev pub rel_below : Text → Text → Option Text
rel_below root real =
    if is_abs root
    then elim (below (parts_of root) (parts_of real)) [ none ↦ none | some ws ↦ some (joined ws) ]
    else none

-- `filepath.Clean` of an absolute path; a relative spelling is under no root whichever way it is
-- cleaned.
abbrev pub cleaned : Text → Text
cleaned r = if is_abs r then rooted (parts_of r) else r

abbrev pub under : Text → List Text → Option (Text × Text)
under real [] = none
under real (root ∷ roots) =
    let later = under real roots in
    elim (rel_below root real) [ some rel ↦ some (root, rel) | none ↦ later ]

abbrev pub spellings : Outside → Text → List Text
spellings o r = elim (o.eval_symlinks r) [
  | none ↦ cleaned r ∷ []
  | some resolved ↦ resolved ∷ cleaned r ∷ []
]

unfoldable pub root_of : Outside → List Text → Text → Option (Text × Text)
root_of o [] real = none
root_of o (r ∷ roots) real =
    let later = root_of o roots real in
    elim (under real (spellings o r)) [ some found ↦ some found | none ↦ later ]

unfoldable pub within_roots : Outside → List Text → Text → Result Text
unfolding root_of
within_roots o roots path = do
  _ ← refuse_if (null roots) precondition
  _ ← refuse_if (not (is_abs path)) invalid
  elim (o.eval_symlinks path) [
    | none ↦ failed (refused precondition)
    | some real ↦ elim (root_of o roots real) [
      | none ↦ failed (refused precondition)
      | some found ↦ done real
    ]
  ]

-- volume_grpc.go
unfoldable pub is_volume_byte : ℕ → Bool
is_volume_byte c = (leb b'a' c && leb c b'z') || (leb b'0' c && leb c b'9')

abbrev pub is_volume_rest : ℕ → Bool
is_volume_rest c = is_volume_byte c || c == b'_' || c == b'-'

-- `nameGrammar`
abbrev pub matches_grammar : Text → Bool
matches_grammar [] = false
matches_grammar (c ∷ s) = is_volume_byte c && leb (length s) 62 && all is_volume_rest s

unfoldable pub check_volume_ref : Outside → VolumeRef → Result Unit
unfolding is_volume_byte
check_volume_ref o v = do
  _ ← refuse_if (null v.parent || ltb 64 (length v.parent) || not (o.printable v.parent)) invalid
  refuse_if (not (matches_grammar v.name)) invalid

unfoldable pub resolve_for : Outside → VolumeRef → Result Resolution
resolve_for o v = elim o.provisioner [ none ↦ failed (refused precondition) | some ask ↦ ask v ]

abbrev pub drop_name : Text → List Text → List Text
drop_name name disabled = delete_if (λ d. equal_fold d name) disabled

-- `managed`
unfoldable pub managed : Site → StateFile → Text → Result ℕ
unfolding from_files share_index
managed site st name = do
  _ ← refuse_if (from_files site name) precondition
  elim (share_index st name) [ none ↦ failed (refused not_found) | some i ↦ done i ]

-- A change of the share at an index.
unfoldable pub change_at :
    (ManagedShare → Result ManagedShare) → ℕ → List ManagedShare → Result (List ManagedShare)
change_at f i [] = failed out_of_range
change_at f zero (s ∷ shares) = do t ← f s; pure (t ∷ shares)
change_at f (suc i) (s ∷ shares) = do rest ← change_at f i shares; pure (s ∷ rest)

unfoldable pub edit :
    Site → Text → (ManagedShare → Result ManagedShare) → StateFile → Result StateFile
unfolding managed change_at
edit site name f st = do
  i ← managed site st name
  shares ← change_at f i st.shares
  pure (record st { shares = shares })

abbrev pub writes : Grant → Bool
writes g = g.write

-- CreateShare
pub data Source : Type 0 where
  image directory : Text → Source
  volume : VolumeRef → Source

pub record CreateRequest : Type 0 where
  pub name : Text
  pub read_only : Bool
  pub filesystem : Text
  pub partition : Option ℤ
  pub partition_label : Text
  pub partition_uuid : Text
  pub protocols : List Text
  pub source : Option Source
  pub grants : List Asked
  pub disabled : Bool

-- Where the share comes from: an image, a directory and a volume, of which one is set.
abbrev pub Place : Type 0
Place = Text × Text × Option VolumeRef

unfoldable pub place_of : Outside → Site → Option Source → Result Place
unfolding within_roots check_volume_ref
place_of o site none = failed (refused invalid)
place_of o site (some (image path)) = do p ← within_roots o site.roots path; pure (p, [], none)
place_of o site (some (directory path)) = do p ← within_roots o site.roots path; pure ([], p, none)
place_of o site (some (volume v)) = do _ ← check_volume_ref o v; pure ([], [], some v)

abbrev pub share_of : CreateRequest → Place → List Grant → ManagedShare
share_of req place grants = record {
  name = req.name;
  image = place.0;
  directory = place.1;
  read_only = req.read_only;
  filesystem = req.filesystem;
  partition = req.partition;
  partition_label = req.partition_label;
  partition_uuid = req.partition_uuid;
  protocols = req.protocols;
  grants = grants;
  volume = place.2;
  resolved = none;
}

-- What CreateShare refuses before it changes anything.
unfoldable pub share_asked : Outside → Site → CreateRequest → Result ManagedShare
unfolding place_of grants_of
share_asked o site req = do
  _ ← refuse_if (null req.name) invalid
  place ← place_of o site req.source
  grants ← grants_of o.printable req.grants
  _ ← refuse_if (null grants) invalid
  _ ← refuse_if (req.read_only && any writes grants) invalid
  pure (share_of req place grants)

-- A volume is looked up as the share is made.
unfoldable pub with_volume : Outside → ManagedShare → Result ManagedShare
unfolding resolve_for
with_volume o m = elim m.volume [
  | none ↦ pure m
  | some v ↦ do res ← resolve_for o v; pure (record m { directory = res.path; resolved = some res })
]

unfoldable pub add_share : Outside → Site → ManagedShare → Bool → StateFile → Result StateFile
unfolding from_files share_index with_volume
add_share o site m disabled st = do
  _ ← refuse_if (from_files site m.name) exists
  _ ← refuse_if (elim (share_index st m.name) [ none ↦ false | some i ↦ true ]) exists
  s ← with_volume o m
  pure (record {
    shares = st.shares ++ (s ∷ []);
    disabled = drop_name m.name st.disabled ++ (if disabled then m.name ∷ [] else []);
  })

unfoldable pub create_share : Outside → Site → CreateRequest → StateFile → Result StateFile
unfolding share_asked add_share
create_share o site req st = do m ← share_asked o site req; add_share o site m req.disabled st
