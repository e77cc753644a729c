-- ===== src/Admin/CallTests.antt =====
-- Calls of the administration on concrete shares.
use fileshare.Prelude.{
  ◌≡◌, refl, ◌⊎◌, true, false, none, some, List, [], ◌∷◌, map, Memᴰ, if◌then◌else◌, ℕ_eq, List_eq,
  bytes, lower, equal_fold, has_prefix,
}
use fileshare.Access.Principal.{by_name, local, split_rules}
use fileshare.Access.Share.{listed, may_use, read_only_for}
use fileshare.Provision.Apart.{path_within}
use fileshare.Union.Paths.{split_slash, push_part, resolve, parts_of}
use fileshare.Admin.{
  ManagedShare, StateFile, is_disabled, writing, exists, precondition, Err, done, failed, Site,
}
use fileshare.Admin.Subjects.{Subject, group, access_read, access_write, Asked, subject_of}
use fileshare.Admin.Edits.{Outside, directory, CreateRequest, share_of}
use fileshare.Admin.Changes.{Call, create, disable, enable, revoke_from, edited}
use fileshare.Admin.Changes.Rights.{right_at, IsSound}
use fileshare.Admin.Changes.Refines.{effect, edited-effect}
use fileshare.Admin.Serving.{members, Machine, image_key, Served}
use fileshare.Admin.Overlap.{PathSystem}
use fileshare.Admin.Manager.{
  managed_block, is_waiting, all_blocks, blocks_to_serve, Meeting, Store, change, run,
}
use fileshare.Admin.Manager.Atomic.{IsWhole, change-IsWhole}
use fileshare.Admin.Serving.Expansion.{NamesPerson}
use fileshare.Admin.Manager.Runs.{
  IsInOrder, IsServedWith, last_system, run-IsSound_state, run-serves_enabled, run-serves_granted,
}

abbrev pub site : Site
site = record { files = []; roots = bytes "/srv" ∷ [] }

abbrev pub plain : Outside
plain = record { printable = λ v. true; eval_symlinks = some; provisioner = none }

abbrev no_state : StateFile
no_state = record { shares = []; disabled = [] }

abbrev to_alice : Asked
to_alice = record { subject = some (Subject.user (bytes "alice")); access = access_write }

abbrev to_staff : Asked
to_staff = record { subject = some (group (bytes "staff")); access = access_read }

abbrev media : CreateRequest
media = record {
  name = bytes "media";
  read_only = false;
  filesystem = [];
  partition = none;
  partition_label = [];
  partition_uuid = [];
  protocols = [];
  source = some (directory (bytes "/srv/media"));
  grants = to_alice ∷ to_staff ∷ [];
  disabled = false;
}

abbrev pub media_kept : ManagedShare
media_kept =
    share_of media ([], bytes "/srv/media", none)
      (record { subject = bytes "alice"; write = true }
        ∷ record { subject = bytes "@staff"; write = false }
        ∷ [])

abbrev pub one_share : StateFile
one_share = record { shares = media_kept ∷ []; disabled = [] }

create_media : edited plain site (create media) no_state ≡ done one_share
unfolding edited parts_of resolve split_slash push_part lower
create_media = refl

create_twice : edited plain site (create media) one_share ≡ failed (Err.refused exists)
unfolding edited parts_of resolve split_slash push_part lower
create_twice = refl

create_outside :
    edited plain site (create (record media { source = some (directory (bytes "/etc")) })) no_state
    ≡ failed (Err.refused precondition)
unfolding edited parts_of resolve split_slash push_part lower
create_outside = refl

edited-effect_example : right_at one_share.shares (bytes "MEDIA") (bytes "@staff") ≡ (
    if equal_fold (bytes "media") (bytes "MEDIA")
    then effect plain.printable (create media) (bytes "@staff") none
    else none)
edited-effect_example =
    edited-effect plain site (create media) no_state one_share (bytes "MEDIA") (bytes "@staff")
      (refl, tt, tt) create_media

staff_read : subject_of plain.printable (some (group (bytes "staff"))) ≡ done (bytes "@staff")
unfolding subject_of
staff_read = refl

abbrev pub machine : Machine
machine = record {
  stat = λ p. none;
  is_group = λ n. has_prefix n (bytes "@");
  group = λ n. members (bytes "bob" ∷ []);
  open_image = λ b. none;
  open_tree = λ b. some 7;
}

abbrev pub path_system : PathSystem
path_system = record { absolute = λ p. p; eval_symlinks = some }

abbrev meeting : Meeting
meeting = record {
  outside = plain;
  machine = machine;
  checks = λ b. true;
  holds_no_secrets = λ b. true;
  paths = path_system;
  resolves = λ b. true;
  writes_state = true;
  is_serving = true;
  writes_back = true;
}

abbrev pub started : Store
started = record {
  state = no_state;
  file = no_state;
  serving = [];
  generation = 1;
  closed = [];
  served_of_api = 0;
  taken_offline = 0;
  applied = 0;
  refusals = 0;
}

started-IsInOrder : IsInOrder site started
unfolding blocks_to_serve
started-IsInOrder = ((refl, tt, tt), tt)

abbrev calls : List (Meeting × Call)
calls =
    (meeting, create media)
    ∷ (meeting, disable (bytes "media"))
    ∷ (meeting, enable (bytes "media"))
    ∷ (meeting, revoke_from (bytes "media") (some (Subject.user (bytes "nobody"))))
    ∷ []

state_after : (run site calls started).state ≡ one_share
unfolding run parts_of resolve split_slash push_part split_rules lower path_within
state_after = refl

generation_after : (run site calls started).generation ≡ 4
unfolding run parts_of resolve split_slash push_part split_rules lower path_within
generation_after = refl

change-IsWhole_example :
    IsWhole meeting site (create media) started (change meeting site (create media) started)
change-IsWhole_example = change-IsWhole meeting site (create media) started

run-IsSound_state_example : IsSound site (run site calls started).state.shares
run-IsSound_state_example = run-IsSound_state site calls started started-IsInOrder

-- The share that is served in the end.
abbrev pub media_served : Served
media_served = record {
  share = record {
    name = bytes "media";
    read_only = false;
    allow = bytes "alice" ∷ bytes "bob" ∷ [];
    writers = bytes "alice" ∷ [];
    allow_claims = [];
    writer_claims = [];
    protocols = [];
    system = false;
    fsys = 7;
    opened_read_only = false;
    forced_read_only = false;
    asked_write = true;
    closers = 7 ∷ [];
    allow_named = true;
    writers_named = true;
  };
  source = bytes "/srv/media";
  opened = image_key machine (managed_block site media_kept);
  block = managed_block site media_kept;
}

is_served : Memᴰ media_served (run site calls started).serving
unfolding run parts_of resolve split_slash push_part split_rules lower path_within
is_served = Memᴰ.head refl

run-serves_enabled_example :
    Memᴰ media_served.block (all_blocks site (run site calls started).state)
    × (is_disabled (run site calls started).state media_served.block.name ≡ false)
    × (is_waiting (run site calls started).state media_served.block.name ≡ false)
run-serves_enabled_example =
    run-serves_enabled site calls started media_served started-IsInOrder is_served

is_kept : Memᴰ media_kept (run site calls started).state.shares
unfolding run parts_of resolve split_slash push_part split_rules lower path_within
is_kept = Memᴰ.head refl

bob_reads : may_use media_served.share (local (bytes "bob")) ≡ true
unfolding may_use listed by_name local
bob_reads = refl

started-IsServedWith : IsServedWith machine site started
unfolding blocks_to_serve
started-IsServedWith = ((refl, tt, tt), tt)

run-serves_granted_example :
    NamesPerson
      (last_system site machine calls started)
      (map (λ g. g.subject) media_kept.grants)
      (local (bytes "bob"))
    × ((read_only_for media_served.share (local (bytes "bob")) ≡ true)
        ⊎ ((media_kept.read_only ≡ false)
            × NamesPerson
                (last_system site machine calls started)
                (writing media_kept.grants)
                (local (bytes "bob"))))
run-serves_granted_example =
    run-serves_granted site machine calls started media_served media_kept (local (bytes "bob"))
      started-IsServedWith is_served is_kept refl bob_reads
