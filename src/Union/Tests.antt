-- ===== src/Union/Tests.antt =====
-- Runs of unionfs.go over two shares.
use fileshare.Prelude.{
  ◌++◌, ℕ, ◌≡◌, refl, ◌≢◌, ◌⊎◌, Bool, true, false, Option, none, some, List, [], ◌∷◌, Memᴰ, bytes,
}
use fileshare.Access.Principal.{Principal, by_name, matches}
use fileshare.Access.Share.{
  Share, allows_anyone, any_allowed_writes, listed, may_use, read_only_for,
}
use fileshare.Union.{
  Union, not_exist, driver_for, entry_for, entries_for, union_for_with, gone, missing, find_entry,
  route_clean, route, writable_at, writable, read_file, write_file, err, forward, read_at_route,
  run, Driver, Handle, opened, open_at, open_file, allowed, denied, read_at, write_at,
}
use fileshare.Union.Paths.{split_slash, push_part, resolve, parts_of, clean_rooted}
use fileshare.Union.Routing.{parts, Leads, route-Leads}
use fileshare.Union.Isolation.{IsInside}
use fileshare.Union.Snapshots.{
  open_snapshot, act_on, close_file, SnapshotStep, opens, reads, adds, settles, drops, closes, step,
  steps,
}
use fileshare.Union.Snapshots.Loads.{IsWithin}
use fileshare.Union.Snapshots.Bounds.{empty_cache, steps-IsWithin}
use fileshare.Union.Rights.{KeepsInside, run_reaches, open_file_guards}

abbrev bob : Principal
bob = record { name = bytes "bob"; federated = false; groups = []; local_name = false }

abbrev docs : Share
docs = record {
  name = bytes "docs";
  read_only = false;
  allow = bytes "bob" ∷ [];
  writers = [];
  allow_claims = [];
  writer_claims = [];
  protocols = [];
  system = false;
  fsys = 1;
  opened_read_only = false;
  forced_read_only = false;
  asked_write = true;
  closers = [];
  allow_named = true;
  writers_named = false;
}

abbrev secret : Share
secret = record docs { name = bytes "secret"; allow = bytes "root" ∷ []; fsys = 2 }

abbrev tree : Option Bool → Union
tree revoked = union_for_with (secret ∷ docs ∷ []) bob none revoked

abbrev drivers : ℕ → Driver
drivers f = record { can_open = true; open_file = λ p. some true }

abbrev report : Handle
report = record { fsys = 1; path = bytes "/a"; writes = true; revocable = true }

run_up :
    run (tree none) (write_file (bytes "docs/../docs/a") [] 0)
    ≡ forward 1 (write_file (bytes "/a") [] 0)
unfolding run writable writable_at route union_for_with entries_for entry_for route_clean find_entry
    clean_rooted parts_of resolve push_part split_slash may_use allows_anyone read_only_for
    any_allowed_writes listed by_name matches open_file open_at read_at_route
run_up = refl

run_secret : run (tree none) (read_file (bytes "/secret/a")) ≡ err not_exist
unfolding run writable writable_at route union_for_with entries_for entry_for route_clean find_entry
    clean_rooted parts_of resolve push_part split_slash may_use allows_anyone read_only_for
    any_allowed_writes listed by_name matches open_file open_at read_at_route
run_secret = refl

open_report : open_file (tree (some false)) drivers (bytes "docs/a") ≡ opened report
unfolding run writable writable_at route union_for_with entries_for entry_for route_clean find_entry
    clean_rooted parts_of resolve push_part split_slash may_use allows_anyone read_only_for
    any_allowed_writes listed by_name matches open_file open_at read_at_route
open_report = refl

run_reaches_example :
    (none ≢ some true)
    × ((s : Share) × Memᴰ s (secret ∷ docs ∷ [])
        × (may_use s bob ≡ true)
        × (driver_for none s ≡ some 1)
        × KeepsInside (read_only_for s bob) (write_file (bytes "/a") [] 0))
run_reaches_example =
    run_reaches (secret ∷ docs ∷ []) bob none none (write_file (bytes "docs/../docs/a") [] 0)
      (write_file (bytes "/a") [] 0) 1 run_up

open_file_guards_example :
    ((s : Share) × Memᴰ s (secret ∷ docs ∷ [])
      × (may_use s bob ≡ true)
      × (driver_for none s ≡ some 1)
      × IsInside (bytes "/a")
      × ((true ≡ false) ⊎ (read_only_for s bob ≡ false)))
    × ((some false ≡ none)
        ⊎ (gone (tree (some true)) ≡ false)
        ⊎ ((read_at (tree (some true)) report ≡ denied)
            × (write_at (tree (some true)) report ≢ allowed)))
unfolding union_for_with
open_file_guards_example =
    open_file_guards (secret ∷ docs ∷ []) bob none (some false) drivers (bytes "docs/a") report
      (tree (some true)) open_report

route-Leads_example :
    ((gone (tree none) ≡ true) × (route (tree none) (bytes "docs/a") ≡ missing))
    ⊎ ((gone (tree none) ≡ false)
        × Leads (tree none) (parts (bytes "docs/a")) (route (tree none) (bytes "docs/a")))
route-Leads_example = route-Leads (tree none) (bytes "docs/a")

-- Two handles on one file, which is read once and freed with the second.
abbrev two_readers : List SnapshotStep
two_readers =
    opens (bytes "/a")
    ∷ opens (bytes "/a")
    ∷ reads 0 (some 5)
    ∷ adds 0
    ∷ settles 0
    ∷ closes 0
    ∷ reads 0 (some 5)
    ∷ closes 1
    ∷ drops 0
    ∷ []

two_readers_freed : (steps two_readers empty_cache).total ≡ 0
unfolding steps step open_snapshot act_on close_file
two_readers_freed = refl

-- A read that checked its handle before the last close loads after it: nothing gives the bytes back.
abbrev late_reader : List SnapshotStep
late_reader = opens (bytes "/a") ∷ closes 0 ∷ reads 0 (some 5) ∷ adds 0 ∷ settles 0 ∷ []

late_reader_held : (steps late_reader empty_cache).total ≡ 5
unfolding steps step open_snapshot act_on close_file
late_reader_held = refl

-- Two loads: while the one that does not fit is counted, the one that would have fitted is refused too.
abbrev racing : List SnapshotStep
racing =
    opens (bytes "/a")
    ∷ opens (bytes "/b")
    ∷ reads 0 (some 20000000)
    ∷ reads 1 (some 60000000)
    ∷ adds 1
    ∷ adds 0
    ∷ []

racing_counted : (steps racing (record empty_cache { total = 500000000 })).total ≡ 580000000
unfolding steps step open_snapshot act_on close_file
racing_counted = refl

racing_settled :
    (steps (racing ++ settles 0 ∷ settles 1 ∷ []) (record empty_cache { total = 500000000 })).total
    ≡ 500000000
unfolding steps step open_snapshot act_on close_file
racing_settled = refl

steps-IsWithin_example :
    IsWithin (steps two_readers empty_cache).snapshots (steps two_readers empty_cache).total
steps-IsWithin_example = steps-IsWithin two_readers
