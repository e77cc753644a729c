-- ===== src/Admin/Manager.antt =====
-- state.go (manager: blocks, changedBlocks, change, apply, recount), with the swap of server.go: a
-- change is checked, opened, written down and served, in that order.
pub mod Atomic
pub mod Runs
use fileshare.Prelude.{
  ℕ, suc, ◌+◌, Bool, true, false, not, ◌&&◌, Option, none, some, List, [], ◌∷◌, ◌++◌, map,
  if◌then◌else◌, ◌==◌, ℕ_eq, List_eq, any, delete_if, null, nth, Text, to_lower,
}
use fileshare.Access.Share.{Share, release, refused}
use fileshare.Admin.{
  VolumeRef, Resolution, Grant, ManagedShare, ShareBlock, StateFile, is_disabled, split, block,
  unavailable, invalid, precondition, Err, not_written, not_serving, Result, done, failed, ◌>>=◌,
  refuse_if, named, share_index, Site,
}
use fileshare.Admin.Subjects.{}
use fileshare.Admin.Edits.{Outside, image, directory, volume}
use fileshare.Admin.Changes.{Call, edited}
use fileshare.Admin.Overlap.{PathSystem, holds_no_share}
use fileshare.Admin.Serving.{
  same_bool, same_int, Machine, Served, Opening, opened, not_opened, open_shares,
}

-- A share's block as the API gives it out, confined to the source roots.
abbrev pub managed_block : Site → ManagedShare → ShareBlock
managed_block site s = record (block s) { confine = site.roots }

-- A share of this name waits for its volume.
unfoldable pub is_waiting : StateFile → Text → Bool
unfolding unavailable
is_waiting st name =
    any (λ s. not (null (unavailable s)) && to_lower s.name == to_lower name) st.shares

-- `blocks`: every share, and those to serve.
unfoldable pub all_blocks : Site → StateFile → List ShareBlock
unfolding block
all_blocks site st = site.files ++ map (managed_block site) st.shares

unfoldable pub blocks_to_serve : Site → StateFile → List ShareBlock
unfolding is_waiting split all_blocks
blocks_to_serve site st = delete_if (λ b. is_waiting st b.name) (split st (all_blocks site st)).0

-- `reflect.DeepEqual`, field by field; a list that is nil and one that is empty are one here.
abbrev same_option {ℓ} : {A : Type ℓ} → (A → A → Bool) → Option A → Option A → Bool
same_option same none none = true
same_option same none (some b) = false
same_option same (some a) none = false
same_option same (some a) (some b) = same a b

abbrev same_list {ℓ} : {A : Type ℓ} → (A → A → Bool) → List A → List A → Bool
same_list same [] [] = true
same_list same [] (b ∷ m) = false
same_list same (a ∷ l) [] = false
same_list same (a ∷ l) (b ∷ m) = same a b && same_list same l m

abbrev same_ref : VolumeRef → VolumeRef → Bool
same_ref a b = a.parent == b.parent && a.name == b.name

abbrev same_resolution : Resolution → Resolution → Bool
same_resolution a b =
    a.path == b.path
    && a.why == b.why
    && same_ref a.ref b.ref
    && a.kind == b.kind
    && a.quota == b.quota
    && a.used == b.used

abbrev same_grant : Grant → Grant → Bool
same_grant a b = a.subject == b.subject && same_bool a.write b.write

unfoldable pub deep_equal : ManagedShare → ManagedShare → Bool
deep_equal a b =
    a.name == b.name
    && a.image == b.image
    && a.directory == b.directory
    && same_bool a.read_only b.read_only
    && a.filesystem == b.filesystem
    && same_option same_int a.partition b.partition
    && a.partition_label == b.partition_label
    && a.partition_uuid == b.partition_uuid
    && a.protocols == b.protocols
    && same_list same_grant a.grants b.grants
    && same_option same_ref a.volume b.volume
    && same_option same_resolution a.resolved b.resolved

abbrev pub unchanged : StateFile → ManagedShare → Bool
unchanged st m = elim (share_index st m.name) [
  | none ↦ false
  | some i ↦ elim (nth st.shares i) [ none ↦ false | some s ↦ deep_equal s m ]
]

-- `changedBlocks`
unfoldable pub changed_blocks : StateFile → StateFile → List ShareBlock
unfolding share_index deep_equal block
changed_blocks st next = map block (delete_if (unchanged st) next.shares)

-- What a change meets: the outside that its edit asks, the system that shares are opened on, the
-- other checks of the configuration (true where they pass), what the system says of paths, whether
-- the state file is written, whether the server serves, and whether the state file is written back.
pub record Meeting : Type 0 where
  pub outside : Outside
  pub machine : Machine
  pub checks : List ShareBlock → Bool
  pub holds_no_secrets : List ShareBlock → Bool
  pub paths : PathSystem
  pub resolves : List ShareBlock → Bool
  pub writes_state : Bool
  pub is_serving : Bool
  pub writes_back : Bool

-- The manager and the server: the state in memory and in its file, the shares that are served, how
-- many generations there were, the closers that ran, and the counts of shares and of changes.
pub record Store : Type 0 where
  pub state : StateFile
  pub file : StateFile
  pub serving : List Served
  pub generation : ℕ
  pub closed : List ℕ
  pub served_of_api : ℕ
  pub taken_offline : ℕ
  pub applied : ℕ
  pub refusals : ℕ

abbrev pub shares_of : List Served → List Share
shares_of = map (λ s. s.share)

abbrev pub count {ℓ} : {A : Type ℓ} → (A → Bool) → List A → ℕ
count p [] = 0
count p (x ∷ xs) = let rest = count p xs in if p x then suc rest else rest

abbrev pub is_managed : StateFile → ShareBlock → Bool
is_managed st b = elim (share_index st b.name) [ none ↦ false | some i ↦ true ]

unfoldable pub recount : Site → StateFile → Store → Store
unfolding blocks_to_serve is_disabled
recount site st s = record s {
  served_of_api = count (is_managed st) (blocks_to_serve site st);
  taken_offline =
      count (λ b. is_disabled st b.name) site.files + count (λ m. is_disabled st m.name) st.shares;
}

-- Closing what a list of shares has open and another does not serve.
abbrev pub let_go : List Served → List Served → Store → Store
let_go shares kept s = record s { closed = s.closed ++ release (shares_of shares) (shares_of kept) }

-- `swap`, of a server that serves; stopping its connections and its workers stands elsewhere.
abbrev pub swap : List Served → Store → Store
swap next s = let_go s.serving next (record s { serving = next; generation = suc s.generation })

-- What `apply` does once the shares are opened, or not.
unfoldable pub serve_opened : Meeting → StateFile → Opening → Store → Result Unit × Store
serve_opened w next (not_opened closed) s =
    (failed (Err.refused precondition), record s { closed = s.closed ++ closed })
serve_opened w next (opened shares) s =
    if not w.writes_state
    then (failed not_written, let_go shares s.serving s)
    else if not w.is_serving
    then (
      failed not_serving,
      record (let_go shares s.serving s) { file = if w.writes_back then s.state else next },
    )
    else (done tt, swap shares (record s { file = next }))

-- The checks of `apply`.
unfoldable pub checked : Meeting → Site → StateFile → StateFile → Result Unit
unfolding all_blocks changed_blocks holds_no_share
checked w site st next = do
  _ ← refuse_if (not (w.checks (all_blocks site next))) invalid
  _ ← refuse_if (not (w.holds_no_secrets (changed_blocks st next))) precondition
  _ ←
      refuse_if (not (holds_no_share w.paths (all_blocks site next) (changed_blocks st next)))
        precondition
  refuse_if (not (w.resolves (changed_blocks st next))) invalid

abbrev pub apply_checked : Meeting → Site → StateFile → Store → Result Unit → Result Unit × Store
apply_checked w site next s (failed e) = (failed e, s)
apply_checked w site next s (done u) =
    serve_opened w next (open_shares w.machine (blocks_to_serve site next) s.serving) s

unfoldable pub apply : Meeting → Site → StateFile → Store → Result Unit × Store
unfolding checked serve_opened open_shares blocks_to_serve
apply w site next s = apply_checked w site next s (checked w site s.state next)

abbrev pub conclude : Site → StateFile → Result Unit × Store → Result Unit × Store
conclude site next (failed e, s) = (failed e, record s { refusals = suc s.refusals })
conclude site next (done u, s) =
    (done u, record (recount site next (record s { state = next })) { applied = suc s.applied })

abbrev pub apply_edit : Meeting → Site → Store → Result StateFile → Result Unit × Store
apply_edit w site s (failed e) = (failed e, record s { refusals = suc s.refusals })
apply_edit w site s (done next) = conclude site next (apply w site next s)

-- `change`, of a call's edit.
unfoldable pub change : Meeting → Site → Call → Store → Result Unit × Store
unfolding edited apply recount
change w site c s = apply_edit w site s (edited w.outside site c s.state)

-- Calls one after another, each with what it meets.
unfoldable pub run : Site → List (Meeting × Call) → Store → Store
unfolding change
run site [] s = s
run site ((w, c) ∷ calls) s = run site calls (change w site c s).1
