-- ===== src/Volumes/Tests.antt =====
-- One volume of one share.
use fileshare.Prelude.{
  map, lower, ℕ, ◌≡◌, refl, ◌≢◌, true, false, Option, none, some, List, [], ◌∷◌, ◌++◌,
  if◌then◌else◌, ◌==◌, ℕ_eq, List_eq, All, Text, bytes,
}
use fileshare.Admin.{VolumeRef, ManagedShare, Site}
use fileshare.Admin.Edits.{Outside, root_of}
use fileshare.Union.Paths.{parts_of, resolve, split_slash, push_part}
use fileshare.Admin.Overlap.{PathSystem}
use fileshare.Volumes.{
  zfs, btrfs, Kernel, not_mounted, not_subvolume, fit, unfit, subvolume_root, check_volume, cap_prm,
  cap_eff, quota_exempt_from,
}
use fileshare.Volumes.Exempt.{Lacks, quota_exempt_from-Lacks}
use fileshare.Volumes.Resolve.{
  no_dial, Provisioner, not_found_status, Volume, gives, fails, VolumeService, dialled, Words,
  resolve_volumes,
}
use fileshare.Volumes.Calls.{Counts, delete_volume}
use fileshare.Volumes.Found.{IsFound}
use fileshare.Volumes.Unused.{resolve_volumes-IsFit, IsUnused, delete_volume-IsUnused}

abbrev outside : Outside
outside = record { printable = λ t. true; eval_symlinks = λ t. some t; provisioner = none }

abbrev kernel : Kernel
kernel = record {
  exempt = false;
  outside = outside;
  place_of = λ t. some (record { device = 7; inode = subvolume_root; is_dir = true });
  magic_of = λ t. some 0x9123683e;
  project_of = λ t. none;
}

abbrev ref : VolumeRef
ref = record { parent = bytes "pool"; name = bytes "media" }

abbrev media_volume : Volume
media_volume = record { kind = btrfs; path = bytes "/srv/media"; quota = 100; used = 1 }

abbrev service : VolumeService
service = record {
  get = λ r. gives media_volume;
  create = λ r q. fails not_found_status;
  resize = λ r q. fails not_found_status;
  snapshot = λ r s. fails not_found_status;
  delete = λ r d. gives true;
  list = λ p. gives [];
}

abbrev words : Words
words = record {
  kinds = λ k. bytes "btrfs";
  no_provisioner = λ r. bytes "none";
  refusal = λ r e. bytes "refused";
  fault = λ r e. bytes "fault";
}

abbrev share : ManagedShare
share = record {
  name = bytes "media";
  image = [];
  directory = [];
  read_only = false;
  filesystem = [];
  partition = none;
  partition_label = [];
  partition_uuid = [];
  protocols = [];
  grants = [];
  volume = some ref;
  resolved = none;
}

abbrev roots : List Text
roots = bytes "/srv" ∷ []

is_served :
    check_volume kernel roots (record { ref = ref; kind = btrfs; path = bytes "/srv/media" })
    ≡ fit (bytes "/srv/media")
unfolding check_volume parts_of resolve split_slash push_part root_of
is_served = refl

-- A plain directory on btrfs, and a dataset that is not mounted.
plain_directory :
    check_volume
      (record kernel { place_of = λ t. some (record { device = 7; inode = 300; is_dir = true }) })
      roots
      (record { ref = ref; kind = btrfs; path = bytes "/srv/media" })
    ≡ unfit not_subvolume
unfolding check_volume parts_of resolve split_slash push_part root_of
plain_directory = refl

unmounted :
    check_volume
      (record kernel { magic_of = λ t. some 0x2fc12fc1 })
      roots
      (record { ref = ref; kind = zfs; path = bytes "/srv/media" })
    ≡ unfit not_mounted
unfolding check_volume parts_of resolve split_slash push_part root_of
unmounted = refl

-- Dialling fails for the first share, and is tried again for the next.
abbrev dials : ManagedShare → Provisioner
dials m = if m.name == bytes "media" then no_dial (bytes "refused") else dialled service

dialled_again :
    map
      (λ e. e.1.path)
      (resolve_volumes kernel words roots dials
        (share ∷ record share { name = bytes "other" } ∷ share ∷ []))
    ≡ [] ∷ bytes "/srv/media" ∷ bytes "/srv/media" ∷ []
unfolding resolve_volumes lower check_volume parts_of resolve split_slash push_part root_of
dialled_again = refl

resolve_volumes-IsFit_example :
    All
      (IsFound kernel roots (λ m. dialled service) (share ∷ []))
      (resolve_volumes kernel words roots (λ m. dialled service) (share ∷ []))
resolve_volumes-IsFit_example =
    resolve_volumes-IsFit kernel words roots (λ m. dialled service) (share ∷ [])

abbrev site : Site
site = record { files = []; roots = roots }

abbrev paths : PathSystem
paths = record { absolute = λ t. t; eval_symlinks = λ t. some t }

abbrev no_counts : Counts
no_counts = record { refusals = 0; applied = 0 }

in_use :
    (delete_volume outside paths site
      (record { shares = share ∷ []; disabled = [] })
      service
      ref
      true
      no_counts).asked
    ≡ false
unfolding delete_volume
in_use = refl

unused :
    (delete_volume outside paths site
      (record { shares = []; disabled = [] })
      service
      ref
      true
      no_counts).asked
    ≡ true
unfolding delete_volume
unused = refl

delete_volume-IsUnused_example :
    IsUnused paths site (record { shares = []; disabled = [] }) service ref
delete_volume-IsUnused_example =
    delete_volume-IsUnused outside paths site (record { shares = []; disabled = [] }) service ref
      true no_counts unused

abbrev scan : Text → Option ℕ
scan t = if t == bytes "0" then some 0 else if t == bytes "1000000" then some 0x1000000 else none

abbrev status : Text
status = bytes "Name: f" ++ (10 ∷ (bytes "CapPrm: 0" ++ (10 ∷ bytes "CapEff: 0")))

holds_resource :
    quota_exempt_from scan 1000 (some (bytes "CapPrm: 1000000" ++ (10 ∷ bytes "CapEff: 0"))) ≡ true
unfolding quota_exempt_from
holds_resource = refl

quota_exempt_from-Lacks_example :
    (text : Text) × (some status ≡ some text)
    × (◌≢◌ {A = ℕ} 1000 0)
    × Lacks scan cap_eff text
    × Lacks scan cap_prm text
unfolding quota_exempt_from
quota_exempt_from-Lacks_example = quota_exempt_from-Lacks scan 1000 (some status) refl
