-- ===== src/Admin.antt =====
-- state.go: the shares that the administration API manages, as the state file holds them, and the
-- share blocks (config.go) they stand for.
pub mod Gives
pub mod Subjects
pub mod Edits
pub mod Changes
pub mod Serving
pub mod Manager
pub mod Startup
pub mod Reload
pub mod Overlap
pub mod CallTests
mod Tests
use fileshare.Prelude.{
  ℕ, ◌/◌, Bool, true, false, not, ◌||◌, Option, none, some, List, [], ◌∷◌, ◌++◌, map, if◌then◌else◌,
  ℕ_eq, List_eq, any, null, index_of, Text, bytes, equal_fold,
}

-- A Go int, as a share carries its partition.
pub data ℤ : Type 0 where
  pos negsuc : ℕ → ℤ

pub record VolumeRef : Type 0 where
  pub parent : Text
  pub name : Text

pub volume_text : VolumeRef → Text
volume_text v = v.parent ++ (bytes "/" ++ v.name)

-- `volumeResolution`; an empty path or reason is none.
pub record Resolution : Type 0 where
  pub path : Text
  pub why : Text
  pub ref : VolumeRef
  pub kind : Text
  pub quota : ℕ
  pub used : ℕ

pub record Grant : Type 0 where
  pub subject : Text
  pub write : Bool

pub record ManagedShare : Type 0 where
  pub name : Text
  pub image : Text
  pub directory : Text
  pub read_only : Bool
  pub filesystem : Text
  pub partition : Option ℤ
  pub partition_label : Text
  pub partition_uuid : Text
  pub protocols : List Text
  pub grants : List Grant
  pub volume : Option VolumeRef
  pub resolved : Option Resolution

pub record ShareBlock : Type 0 where
  pub name : Text
  pub image : Text
  pub directory : Text
  pub read_only : Bool
  pub filesystem : Text
  pub partition : Option ℤ
  pub partition_label : Text
  pub partition_uuid : Text
  pub allow : List Text
  pub writers : List Text
  pub protocols : List Text
  pub identity : Text
  pub vol : Option Resolution
  pub no_writers : Bool
  pub confine : List Text
  pub volume : Text

-- Of one version, 1: another is refused when the file is read.
pub record StateFile : Type 0 where
  pub shares : List ManagedShare
  pub disabled : List Text

unfoldable pub is_disabled : StateFile → Text → Bool
is_disabled st name = any (λ d. equal_fold d name) st.disabled

-- What is served and what is offline, each in order.
abbrev pub to_side :
    Bool → ShareBlock → List ShareBlock × List ShareBlock → List ShareBlock × List ShareBlock
to_side true b (serve, offline) = (serve, b ∷ offline)
to_side false b (serve, offline) = (b ∷ serve, offline)

unfoldable pub split : StateFile → List ShareBlock → List ShareBlock × List ShareBlock
unfolding is_disabled
split st [] = ([], [])
split st (b ∷ blocks) = to_side (is_disabled st b.name) b (split st blocks)

-- The subjects that were granted write.
abbrev pub writing : List Grant → List Text
writing [] = []
writing (g ∷ gs) = let rest = writing gs in if g.write then g.subject ∷ rest else rest

-- The resolution whose path is served in place of the directory.
abbrev pub looked_up : ManagedShare → Option Resolution
looked_up m = elim m.volume [
  | none ↦ none
  | some v ↦ elim m.resolved [ none ↦ none | some r ↦ if null r.path then none else some r ]
]

unfoldable pub block : ManagedShare → ShareBlock
unfolding volume_text
block m = record {
  name = m.name;
  image = m.image;
  directory = elim (looked_up m) [ none ↦ m.directory | some r ↦ r.path ];
  read_only = m.read_only;
  filesystem = m.filesystem;
  partition = m.partition;
  partition_label = m.partition_label;
  partition_uuid = m.partition_uuid;
  allow = map (λ g. g.subject) m.grants;
  writers = writing m.grants;
  protocols = m.protocols;
  identity = [];
  vol = looked_up m;
  no_writers = null (writing m.grants);
  confine = [];
  volume = elim m.volume [ none ↦ [] | some v ↦ volume_text v ];
}

-- volume.go: why a share that is enabled is not served; empty where nothing stands in its way.
unfoldable pub unavailable : ManagedShare → Text
unavailable m = elim m.volume [
  | none ↦ []
  | some v ↦ elim m.resolved [
    | none ↦ bytes "volume " ++ (volume_text v ++ bytes " has not been looked up")
    | some r ↦ r.why
  ]
]

-- Refusals by their kind, and the errors that are not refusals: a panic on an index, a write of the
-- state file that fails, and a server that does not serve.
pub data RefusalKind : Type 0 where
  invalid not_found exists precondition unavailable_now : RefusalKind

pub data Err : Type 0 where
  refused : RefusalKind → Err
  out_of_range not_written not_serving : Err

pub data Result (A : Type 0) : Type 0 where
  done : A → Result A
  failed : Err → Result A

infixl 20 ◌>>=◌
abbrev pub ◌>>=◌ : {A B : Type 0} → Result A → (A → Result B) → Result B
done a >>= f = f a
failed e >>= f = failed e

abbrev pub pure : {A : Type 0} → A → Result A
pure = done

-- Go's `if test { return refuse(kind, ...) }`.
abbrev pub refuse_if : Bool → RefusalKind → Result Unit
refuse_if true k = failed (refused k)
refuse_if false k = done tt

-- The status that the gRPC layer answers.
pub data Code : Type 0 where
  not_found already_exists failed_precondition unavailable_code invalid_argument internal : Code

abbrev kind_code : RefusalKind → Code
kind_code invalid = invalid_argument
kind_code not_found = Code.not_found
kind_code exists = already_exists
kind_code precondition = failed_precondition
kind_code unavailable_now = unavailable_code

pub grpc_error : Err → Code
grpc_error (refused k) = kind_code k
grpc_error out_of_range = internal
grpc_error not_written = internal
grpc_error not_serving = internal

abbrev pub named : Text → ManagedShare → Bool
named name s = equal_fold s.name name

unfoldable pub share_index : StateFile → Text → Option ℕ
share_index st name = index_of (named name) st.shares

-- What a change is made against: the shares of the files, the source roots.
pub record Site : Type 0 where
  pub files : List ShareBlock
  pub roots : List Text

unfoldable pub from_files : Site → Text → Bool
from_files site name = any (λ b. equal_fold b.name name) site.files

unfoldable pub is_defined : Site → StateFile → Text → Bool
unfolding share_index from_files
is_defined site st name =
    from_files site name || elim (share_index st name) [ none ↦ false | some i ↦ true ]
