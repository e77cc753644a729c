-- ===== src/Admin/Serving.antt =====
-- The shares that a list of blocks is opened as: server.go (openSharesExpanding, openImage,
-- sameImage), hostdir.go (openDirectory), share.go (imageKey) and reload.go (tolerantExpand,
-- expandLists, sameSet).
pub mod Loop
pub mod Granted
pub mod Expansion
pub mod Rights
use fileshare.Prelude.{
  ℕ, Bool, true, false, not, ◌&&◌, ◌||◌, Option, none, some, List, [], ◌∷◌, ◌++◌, if◌then◌else◌,
  ◌==◌, ℕ_eq, List_eq, find_first, null, Text, bytes,
}
use fileshare.Access.Principal.{ClaimRule, Split, ok, bad_rule, split_rules}
use fileshare.Access.Share.{Share, adopt}
use fileshare.Admin.{ℤ, pos, negsuc, ShareBlock, block}

-- `source`
abbrev pub source_of : ShareBlock → Text
source_of b = if null b.directory then b.image else b.directory

-- An image key; its file is a number that tells files apart, as `os.SameFile` does.
pub record ImageKey : Type 0 where
  pub of_directory : Bool
  pub filesystem : Text
  pub label : Text
  pub uuid : Text
  pub partition : ℤ
  pub info : Option ℕ

abbrev pub same_bool : Bool → Bool → Bool
same_bool true b = b
same_bool false b = not b

abbrev pub same_int : ℤ → ℤ → Bool
same_int (pos a) (pos b) = a == b
same_int (negsuc a) (negsuc b) = a == b
same_int _ _ = false

abbrev same_file : Option ℕ → Option ℕ → Bool
same_file (some a) (some b) = a == b
same_file _ _ = false

abbrev pub same_key : ImageKey → ImageKey → Bool
same_key k o =
    same_bool k.of_directory o.of_directory
    && k.filesystem == o.filesystem
    && k.label == o.label
    && k.uuid == o.uuid
    && same_int k.partition o.partition
    && same_file k.info o.info

-- What asking the directory for a group answers.
pub data GroupAnswer : Type 0 where
  members : List Text → GroupAnswer
  no_such_group empty_group unreadable_group : GroupAnswer

-- An image as it is opened, with its file: whether the file was opened for reading only, whether it
-- is a device, and whether a partition of it was chosen.
pub record Image : Type 0 where
  pub fsys : ℕ
  pub file : ℕ
  pub opened_read_only : Bool
  pub is_device : Bool
  pub is_partition : Bool

-- What opening asks of the system and of the directory. A driver and a file are numbers, and no
-- driver is 0.
pub record Machine : Type 0 where
  pub stat : Text → Option ℕ
  pub is_group : Text → Bool
  pub group : Text → GroupAnswer
  pub open_image : ShareBlock → Option Image
  pub open_tree : ShareBlock → Option ℕ

unfoldable pub image_key : Machine → ShareBlock → ImageKey
image_key m b = record {
  of_directory = not (null b.directory);
  filesystem = b.filesystem;
  label = b.partition_label;
  uuid = b.partition_uuid;
  partition = elim b.partition [ none ↦ pos 0 | some p ↦ p ];
  info = m.stat (source_of b);
}

abbrev pub join_members : GroupAnswer → Option (List Text) → Option (List Text)
join_members (members ms) rest = elim rest [ none ↦ none | some out ↦ some (ms ++ out) ]
join_members no_such_group rest = rest
join_members empty_group rest = rest
join_members unreadable_group rest = none

-- `tolerantExpand`, without its notes.
unfoldable pub tolerant_expand : Machine → List Text → Option (List Text)
tolerant_expand m [] = some []
tolerant_expand m (n ∷ names) =
    let rest = tolerant_expand m names in
    if m.is_group n
    then join_members (m.group n) rest
    else elim rest [ none ↦ none | some out ↦ some (n ∷ out) ]

-- A share that is served, with what it was opened as.
pub record Served : Type 0 where
  pub share : Share
  pub source : Text
  pub opened : ImageKey
  pub block : ShareBlock

-- The two lists, expanded.
pub record Lists : Type 0 where
  pub allow_names : List Text
  pub writer_names : List Text
  pub allow : List Text
  pub writers : List Text
  pub allow_claims : List ClaimRule
  pub writer_claims : List ClaimRule

abbrev pub expand_both : Machine → Split → Split → Option Lists
expand_both m (bad_rule r) w = none
expand_both m (ok an ac) (bad_rule r) = none
expand_both m (ok an ac) (ok wn wc) = elim (tolerant_expand m an) [
  | none ↦ none
  | some allow ↦ elim (tolerant_expand m wn) [
    | none ↦ none
    | some writers ↦ some (record {
      allow_names = an;
      writer_names = wn;
      allow = allow;
      writers = writers;
      allow_claims = ac;
      writer_claims = wc;
    })
  ]
]

unfoldable pub expand_lists : Machine → ShareBlock → Option Lists
unfolding tolerant_expand
expand_lists m b = expand_both m (split_rules b.allow) (split_rules b.writers)

-- The share of a block, before anything is opened.
unfoldable pub new_share : ShareBlock → Lists → Share
new_share b l = record {
  name = b.name;
  read_only = b.read_only || b.no_writers;
  allow = l.allow;
  writers = l.writers;
  allow_claims = l.allow_claims;
  writer_claims = l.writer_claims;
  protocols = b.protocols;
  system = b.identity == bytes "system";
  fsys = 0;
  opened_read_only = false;
  forced_read_only = false;
  asked_write = false;
  closers = [];
  allow_named = not (null l.allow_names);
  writers_named = not (null l.writer_names);
}

-- The share among these that has an image open.
unfoldable pub same_image : List Served → ImageKey → Option Served
same_image previous k = find_first (λ s. not (s.share.fsys == 0) && same_key s.opened k) previous

-- A share whose writes were taken away as it was opened.
abbrev pub made_read_only : Bool → Share → Share
made_read_only false s = s
made_read_only true s = if s.read_only then s else record s { read_only = true; writers = [] }

-- `openImage`, of an image that opens.
unfoldable pub with_image : ShareBlock → Share → Image → Share
with_image b sh i =
    let on_device : Share = record sh {
      read_only = sh.read_only || i.is_device;
      opened_read_only = i.opened_read_only;
      asked_write = not b.read_only;
    } in
    let opened : Share =
      made_read_only i.is_partition (made_read_only i.opened_read_only on_device) in
    record opened {
      forced_read_only = i.is_device || i.is_partition;
      fsys = i.fsys;
      closers = i.fsys ∷ i.file ∷ [];
    }

-- `openDirectory`, of a tree that opens.
unfoldable pub with_tree : ShareBlock → Share → ℕ → Share
with_tree b sh fsys = record sh {
  fsys = fsys;
  opened_read_only = b.read_only;
  asked_write = not b.read_only;
  closers = fsys ∷ [];
}

unfoldable pub open_fresh : Machine → ShareBlock → Share → Option Share
unfolding with_image with_tree
open_fresh m b sh =
    if sh.system
    then some sh
    else if not (null b.directory)
    then elim (m.open_tree b) [ none ↦ none | some fsys ↦ some (with_tree b sh fsys) ]
    else elim (m.open_image b) [ none ↦ none | some i ↦ some (with_image b sh i) ]

pub data Step : Type 0 where
  refused_block : Step
  reused fresh : Served → Step

abbrev pub served_as : Machine → ShareBlock → Share → Served
served_as m b sh = record { share = sh; source = source_of b; opened = image_key m b; block = b }

abbrev pub stays_read_only : Share → ShareBlock → Bool
stays_read_only prev b = prev.opened_read_only && not b.read_only && not prev.asked_write

-- One round of the loop of `openSharesExpanding`.
abbrev pub open_as : Machine → ShareBlock → Share → Option Served → Step
open_as m b sh none = elim (open_fresh m b sh) [
  | none ↦ refused_block
  | some new ↦ fresh (served_as m b new)
]
open_as m b sh (some prev) =
    if stays_read_only prev.share b
    then refused_block
    else reused (served_as m b (adopt sh prev.share))

unfoldable pub open_block : Machine → List Served → ShareBlock → Step
unfolding expand_lists new_share same_image image_key open_fresh
open_block m previous b = elim (expand_lists m b) [
  | none ↦ refused_block
  | some l ↦
      let sh = new_share b l in
      open_as m b sh (if sh.system then none else same_image previous (image_key m b))
]

pub data Opening : Type 0 where
  opened : List Served → Opening
  -- With the closers that ran.
  not_opened : List ℕ → Opening

abbrev pub closers_of : List Served → List ℕ
closers_of [] = []
closers_of (s ∷ ss) = s.share.closers ++ closers_of ss

unfoldable pub open_from :
    Machine → List Served → List Served → List Served → List ShareBlock → Opening
unfolding open_block
open_from m previous out new [] = opened out
open_from m previous out new (b ∷ blocks) = elim (open_block m (previous ++ out) b) [
  | refused_block ↦ not_opened (closers_of new)
  | reused s ↦ open_from m previous (out ++ (s ∷ [])) new blocks
  | fresh s ↦ open_from m previous (out ++ (s ∷ [])) (new ++ (s ∷ [])) blocks
]

unfoldable pub open_shares : Machine → List ShareBlock → List Served → Opening
unfolding open_from
open_shares m blocks previous = open_from m previous [] [] blocks
