-- ===== src/Volumes/Resolve.antt =====
-- volume_grpc.go: what the file server asks of the provisioner for a volume at a start and for one share.
-- The provisioner is an argument.
use fileshare.Prelude.{Option, ℕ, Bool, none, some, List, [], ◌∷◌, ℕ_eq, List_eq, Text, to_lower}
use fileshare.Admin.{
  VolumeRef, Resolution, ManagedShare, RefusalKind, invalid, not_found, precondition,
  unavailable_now, refused, Result, done, failed,
}
use fileshare.Volumes.{Kind, Kernel, VolumeFound, Fault, Checked, fit, unfit, check_volume}

-- The status of an error; `plain` is an error that carries none.
pub data Status : Type 0 where
  not_found_status unavailable_status deadline_exceeded canceled bad_argument : Status
  permission_denied unauthenticated bad_state plain : Status
  other_status : ℕ → Status

-- `provisionv1.Volume` as far as it is read.
pub record Volume : Type 0 where
  pub kind : Kind
  pub path : Text
  pub quota : ℕ
  pub used : ℕ

pub data Answer (A : Type 0) : Type 0 where
  gives : A → Answer A
  fails : Status → Answer A

-- `volumeService`, as one call finds it.
pub record VolumeService : Type 0 where
  pub get : VolumeRef → Answer Volume
  pub create : VolumeRef → ℕ → Answer (Volume × Bool)
  pub resize : VolumeRef → ℕ → Answer Volume
  pub snapshot : VolumeRef → Text → Answer (Volume × Bool)
  pub delete : VolumeRef → Bool → Answer Bool
  pub list : Text → Answer (List (VolumeRef × Volume))

-- The kind of refusal that an error of the provisioner becomes; `status.FromError` makes an unknown
-- status of a plain error.
unfoldable pub refusal_of : Status → RefusalKind
refusal_of not_found_status = not_found
refusal_of unavailable_status = unavailable_now
refusal_of deadline_exceeded = unavailable_now
refusal_of canceled = unavailable_now
refusal_of bad_argument = invalid
refusal_of permission_denied = precondition
refusal_of unauthenticated = precondition
refusal_of bad_state = precondition
refusal_of plain = precondition
refusal_of (other_status n) = precondition

abbrev pub resolved : VolumeRef → Volume → (Kind → Text) → Checked → Result Resolution
resolved ref v name (unfit e) = failed (refused precondition)
resolved ref v name (fit path) = done (record {
  path = path;
  why = [];
  ref = ref;
  kind = name v.kind;
  quota = v.quota;
  used = v.used;
})

abbrev pub found_of : VolumeRef → Volume → VolumeFound
found_of ref v = record { ref = ref; kind = v.kind; path = v.path }

abbrev pub resolve_answer :
    Kernel → (Kind → Text) → List Text → VolumeRef → Answer Volume → Result Resolution
resolve_answer s name roots ref (fails e) = failed (refused (refusal_of e))
resolve_answer s name roots ref (gives v) =
    resolved ref v name (check_volume s roots (found_of ref v))

-- `resolveVolume`, with the texts of the kinds.
unfoldable pub resolve_volume :
    Kernel → (Kind → Text) → VolumeService → List Text → VolumeRef → Result Resolution
unfolding refusal_of
resolve_volume s name c roots ref = resolve_answer s name roots ref (c.get ref)

-- A resolution that only says why the volume is not served.
abbrev pub only_why : Text → Resolution
only_why why = record {
  path = [];
  why = why;
  ref = record { parent = []; name = [] };
  kind = [];
  quota = 0;
  used = 0;
}

-- What a start has of the provisioner, for one share: none is named, dialling it fails, or it is there.
pub data Provisioner : Type 0 where
  not_named : Provisioner
  no_dial : Text → Provisioner
  dialled : VolumeService → Provisioner

-- The words of a start's errors.
pub record Words : Type 0 where
  pub kinds : Kind → Text
  pub no_provisioner : VolumeRef → Text
  pub refusal : VolumeRef → Status → Text
  pub fault : VolumeRef → Fault → Text

abbrev pub checked_at_start : Words → VolumeRef → Volume → Checked → Resolution
checked_at_start w ref v (unfit e) = only_why (w.fault ref e)
checked_at_start w ref v (fit path) = record {
  path = path;
  why = [];
  ref = ref;
  kind = w.kinds v.kind;
  quota = v.quota;
  used = v.used;
}

abbrev pub answer_at_start : Kernel → Words → List Text → VolumeRef → Answer Volume → Resolution
answer_at_start s w roots ref (fails e) = only_why (w.refusal ref e)
answer_at_start s w roots ref (gives v) =
    checked_at_start w ref v (check_volume s roots (found_of ref v))

unfoldable pub resolve_at_start : Kernel → Words → List Text → Provisioner → VolumeRef → Resolution
resolve_at_start s w roots not_named ref = only_why (w.no_provisioner ref)
resolve_at_start s w roots (no_dial why) ref = only_why why
resolve_at_start s w roots (dialled c) ref = answer_at_start s w roots ref (c.get ref)

-- The client in hand, or what dialling for this share comes to; and the client that stays in hand.
abbrev pub client_at :
    (ManagedShare → Provisioner) → Option VolumeService → ManagedShare → Provisioner
client_at dials none m = dials m
client_at dials (some c) m = dialled c

abbrev pub in_hand : Provisioner → Option VolumeService
in_hand not_named = none
in_hand (no_dial why) = none
in_hand (dialled c) = some c

-- The loop of `resolveVolumes`: what was found, by the share's name; case is mapped to one case.
unfoldable pub resolve_from :
    Kernel
    → Words
    → List Text
    → (ManagedShare → Provisioner)
    → Option VolumeService
    → List ManagedShare
    → List (Text × Resolution)
unfolding resolve_at_start
resolve_from s w roots dials c [] = []
resolve_from s w roots dials c (m ∷ ms) = elim m.volume [
  | none ↦ resolve_from s w roots dials c ms
  | some ref ↦
      (to_lower m.name, resolve_at_start s w roots (client_at dials c m) ref)
      ∷ resolve_from s w roots dials (in_hand (client_at dials c m)) ms
]

-- `resolveVolumes`, with what dialling for each share comes to.
unfoldable pub resolve_volumes :
    Kernel
    → Words
    → List Text
    → (ManagedShare → Provisioner)
    → List ManagedShare
    → List (Text × Resolution)
unfolding resolve_from
resolve_volumes s w roots dials ms = resolve_from s w roots dials none ms
