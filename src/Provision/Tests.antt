-- ===== src/Provision/Tests.antt =====
-- Runs of service.go over one ext4 parent whose storage has room and loses nothing.
use fileshare.Prelude.{
  ℕ, ◌*◌, ◌^◌, ◌≤◌, ◌<◌, ◌≡◌, refl, true, false, none, some, List, [], ◌∷◌, Memᴰ, arith,
  if◌then◌else◌, ◌==◌, ℕ_eq, List_eq, delete_if, contains, Text, bytes, trim_space,
}
use fileshare.Provision.{
  Record, Parent, Config, absent, fault, ok, Backend, Env, Store, find, put, remove, update,
}
use fileshare.Provision.Service.{
  first_free, held_ids, find_parent, parent_of, target, check_quota, check_room, volume, allocate,
  save, forget, finish, start_with, start_new, create_at, create,
}
use fileshare.Provision.Service.Names.{is_name}
use fileshare.Provision.Changes.{
  destroy_with, check_empty, delete_ours, delete_checked, delete_record, delete_at, delete,
}
use fileshare.Provision.Keeps.{IsSound}
use fileshare.Provision.Allocate.{Allocates, allocate-Allocates}
use fileshare.Union.Paths.{split_slash, push_part, resolve, parts_of, clean_rooted}
use fileshare.Provision.Setup.{
  parse_uint, parse_range, power_of, shifted, size_of, parse_size, parse_size-exact,
}
use fileshare.Provision.Apart.{
  path_within, may_stand_by, check_apart, ParentBlock, is_clean_root, check_root, check_kind,
  check_parent,
}
use fileshare.Provision.Owners.{run-owner}
use fileshare.Provision.Calls.{Event, create_volume, delete_volume, step, run, run-IsSound}
use fileshare.Provision.Deletion.{Careful, delete-Careful}

abbrev pool : Parent
pool = record {
  id = bytes "pool";
  kind = bytes "ext4";
  zfs = [];
  root = bytes "/pool";
  lo = 100;
  hi = 101;
}

abbrev cfg : Config
cfg = record { parents = pool ∷ []; max_volume = 1000 }

-- The storage is the names of the directories that are there.
abbrev directory : Backend (List Text)
directory = record {
  space = λ w. ok (5000, 9000);
  present = λ w r. ok (contains w r.name);
  owned = λ w r. if contains w r.name then none else some absent;
  quota = λ w r. ok r.quota;
  used = λ w r. ok 0;
  create = λ w r. (r.name ∷ w, 0, [], none);
  resize = λ w r q. (w, none);
  can_snapshot = false;
  snapshots = λ w r. ok [];
  snapshot = λ w r snap. (w, [], some fault);
  empty = λ w r. ok true;
  destroy = λ w r snaps. (delete_if (λ n. n == r.name) w, none);
}

abbrev env : Env (List Text)
env = record { backends = λ id. directory; save = λ w. (w, none); now = λ w. 7 }

abbrev nothing : Store (List Text)
nothing = record { vols = []; disk = []; world = [] }

abbrev morning : List (Event (List Text))
morning =
    create_volume (bytes "pool") (bytes "a") 10
    ∷ create_volume (bytes "pool") (bytes "b") 20
    ∷ delete_volume (bytes "pool") (bytes "a") false
    ∷ create_volume (bytes "pool") (bytes "c") 30
    ∷ []

morning_ids : held_ids (run cfg env morning nothing).vols ≡ 101 ∷ 100 ∷ []
unfolding run step create delete target is_name parent_of find_parent check_quota find create_at
    start_new check_room allocate first_free start_with put save finish update volume delete_at
    delete_record delete_checked delete_ours check_empty destroy_with forget remove
morning_ids = refl

run-IsSound_example : IsSound cfg (run cfg env morning nothing).vols
run-IsSound_example = run-IsSound cfg env morning []

delete-Careful_example :
    Careful cfg env
      (bytes "pool")
      (bytes "a")
      false
      (run cfg env morning nothing)
      (delete cfg env (bytes "pool") (bytes "a") false (run cfg env morning nothing)).1
delete-Careful_example =
    delete-Careful cfg env (bytes "pool") (bytes "a") false (run cfg env morning nothing)

allocate-Allocates_example :
    Allocates pool
      (run cfg env morning nothing)
      (allocate cfg env pool (run cfg env morning nothing))
allocate-Allocates_example = allocate-Allocates cfg env pool (run cfg env morning nothing)

abbrev block : ParentBlock
block = record {
  id = bytes "pool";
  zfs = [];
  root = [];
  btrfs = [];
  xfs = [];
  ext4 = bytes "/pool";
  project_ids = bytes "100-101";
  enable_quota = false;
}

abbrev checked_pool : Parent
checked_pool = record pool { root = bytes "/pool" }

block_pool : check_parent block ≡ some checked_pool
unfolding check_parent is_name check_kind check_root is_clean_root clean_rooted parts_of resolve
    push_part split_slash parse_range parse_uint
block_pool = refl

ten_gigabytes : parse_size (bytes " 10GiB ") ≡ some 10737418240
unfolding parse_size parse_uint power_of shifted
ten_gigabytes = refl

parse_size-exact_example :
    (n : ℕ) × (parse_uint 64 (trim_space (size_of (bytes " 10GiB ")).0) ≡ some n)
    × ((size_of (bytes " 10GiB ")).1 ≤ 6)
    × (10737418240 ≡ n * 2 ^ (10 * (size_of (bytes " 10GiB ")).1))
    × (10737418240 < 2 ^ 64)
parse_size-exact_example = parse_size-exact (bytes " 10GiB ") 10737418240 ten_gigabytes

abbrev volume_b : Record
volume_b = record {
  parent = bytes "pool";
  name = bytes "b";
  kind = bytes "ext4";
  quota = 20;
  created = 7;
  pending = false;
  project_id = 101;
  subvol_id = 0;
  subvol_uuid = [];
  snapshots = [];
}

pool_apart : check_apart (bytes "/var/state" ∷ []) cfg.parents ≡ true
unfolding check_apart path_within parts_of resolve push_part split_slash may_stand_by
pool_apart = refl

b_there : Memᴰ volume_b (run cfg env morning nothing).vols
unfolding run step create delete target is_name parent_of find_parent check_quota find create_at
    start_new check_room allocate first_free start_with put save finish update volume delete_at
    delete_record delete_checked delete_ours check_empty destroy_with forget remove
b_there = Memᴰ.head refl

run-owner_example : bytes "pool" ≡ bytes "pool"
run-owner_example =
    run-owner cfg env (bytes "/var/state" ∷ []) morning [] volume_b pool pool_apart b_there
      (Memᴰ.head refl) (λ e. ground arith) (omega arith) (omega arith)
