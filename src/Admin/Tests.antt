-- ===== src/Admin/Tests.antt =====
-- Taking offline, starting again, reloading and telling sources apart, on concrete shares.
use fileshare.Prelude.{
  ◌≡◌, refl, ◌⊎◌, true, false, none, some, [], ◌∷◌, map, Memᴰ, ℕ_eq, List_eq, All, bytes, lower,
  equal_fold,
}
use fileshare.Access.Principal.{split_rules}
use fileshare.Provision.Apart.{path_within}
use fileshare.Union.Paths.{split_slash, push_part, resolve, parts_of}
use fileshare.Admin.{
  pos, ShareBlock, is_disabled, block, precondition, Err, done, failed, from_files,
}
use fileshare.Admin.Edits.{root_of}
use fileshare.Admin.Changes.{volume_to_look_up, disable_share, enable_share}
use fileshare.Admin.Changes.Toggle.{enable_share-disable_share}
use fileshare.Admin.Serving.{members}
use fileshare.Admin.Startup.{
  Loaded, loaded, VolumesFound, manager_state, outside_of_roots, with_state, with_state-serves,
}
use fileshare.Admin.Overlap.{holds_no_share}
use fileshare.Admin.Overlap.Apart.{AreApart, holds_no_share-AreApart}
use fileshare.Admin.Reload.{Server, Reading, reload_failed, reload}
use fileshare.Admin.Reload.Fresh.{IsFresh, reload-IsFresh}
use fileshare.Admin.Manager.{managed_block, blocks_to_serve}
use fileshare.Admin.CallTests.{
  site, plain, media_kept, one_share, machine, path_system, started, media_served,
}

disable_media :
    disable_share site (bytes "media") one_share
    ≡ done (record { shares = media_kept ∷ []; disabled = bytes "media" ∷ [] })
unfolding disable_share lower
disable_media = refl

no_volume :
    volume_to_look_up
      (record { shares = media_kept ∷ []; disabled = bytes "media" ∷ [] })
      (bytes "media")
    ≡ none
unfolding volume_to_look_up lower
no_volume = refl

enable_share-disable_share_example :
    (enable_share plain site
        (bytes "media")
        (record { shares = media_kept ∷ []; disabled = bytes "media" ∷ [] })
      ≡ done one_share)
    × (is_disabled
          (record { shares = media_kept ∷ []; disabled = bytes "media" ∷ [] })
          (bytes "media")
        ≡ true)
    × (disable_share site
          (bytes "media")
          (record { shares = media_kept ∷ []; disabled = bytes "media" ∷ [] })
        ≡ failed (Err.refused precondition))
enable_share-disable_share_example =
    enable_share-disable_share plain site (bytes "media") one_share
      (record { shares = media_kept ∷ []; disabled = bytes "media" ∷ [] }) disable_media no_volume

abbrev nothing_found : VolumesFound
nothing_found name = none

abbrev media_loaded : Loaded
media_loaded = record {
  served = managed_block site media_kept ∷ [];
  waiting = [];
  offline = [];
  managed_names = bytes "media" ∷ [];
}

started_again : with_state plain site nothing_found (λ b. true) one_share ≡ loaded media_loaded
unfolding with_state parts_of resolve split_slash push_part lower root_of
started_again = refl

with_state-serves_example :
    (media_loaded.served ≡ blocks_to_serve site (manager_state nothing_found one_share))
    × All
        (λ m. (from_files site m.name ≡ false) × (outside_of_roots plain site m ≡ false))
        one_share.shares
with_state-serves_example =
    with_state-serves plain site nothing_found (λ b. true) one_share media_loaded started_again

-- Somebody is removed from the directory, and the staff is somebody else.
abbrev changed_directory : Reading
changed_directory = record {
  identities = some (record { name = bytes "carol"; fingerprint = [] } ∷ []);
  machine = record machine { group = λ n. members (bytes "carol" ∷ []) };
  is_serving = true;
}

abbrev server : Server
server = record {
  store = record started { state = one_share; file = one_share; serving = media_served ∷ [] };
  people = record { name = bytes "bob"; fingerprint = [] } ∷ [];
  unchanged = 0;
  added = 0;
  swapped = 0;
  failures = 0;
}

carol_served :
    map (λ s. s.share.allow) (reload changed_directory server).0.store.serving
    ≡ (bytes "alice" ∷ bytes "carol" ∷ []) ∷ []
unfolding reload split_rules lower block
carol_served = refl

reload-IsFresh_example :
    All (IsFresh changed_directory.machine) (reload changed_directory server).0.store.serving
    ⊎ (((reload changed_directory server).1 ≡ reload_failed)
        × ((reload changed_directory server).0.store.serving ≡ server.store.serving))
reload-IsFresh_example = reload-IsFresh changed_directory server

abbrev media_block : ShareBlock
media_block = managed_block site media_kept

abbrev music_block : ShareBlock
music_block = record media_block { name = bytes "music"; directory = bytes "/srv/music" }

two_apart : holds_no_share path_system (media_block ∷ music_block ∷ []) (music_block ∷ []) ≡ true
unfolding holds_no_share block lower path_within parts_of resolve split_slash push_part
two_apart = refl

-- One partition, named by its index and by its label.
abbrev by_number : ShareBlock
by_number = record media_block {
  image = bytes "/srv/disk";
  directory = [];
  partition = some (pos 1);
}

abbrev labelled : ShareBlock
labelled = record by_number {
  name = bytes "disk";
  partition = none;
  partition_label = bytes "data";
}

one_partition : holds_no_share path_system (by_number ∷ labelled ∷ []) (labelled ∷ []) ≡ true
unfolding holds_no_share block lower path_within parts_of resolve split_slash push_part
one_partition = refl

other_name : equal_fold media_block.name music_block.name ≡ false
unfolding block lower
other_name = refl

holds_no_share-AreApart_example : AreApart path_system music_block media_block
holds_no_share-AreApart_example =
    holds_no_share-AreApart path_system (media_block ∷ music_block ∷ []) (music_block ∷ [])
      music_block media_block two_apart (Memᴰ.head refl) (Memᴰ.head refl) other_name
