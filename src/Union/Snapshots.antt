-- ===== src/Union/Snapshots.antt =====
-- unionfs.go: whole files served from memory, for drivers without random access. Each step is what one
-- goroutine does at once; loading a snapshot is three of them, so that others run between the read of
-- the file, the change of the count and what follows from it.
pub mod Loads
pub mod Bounds
use fileshare.Prelude.{
  ℕ, zero, suc, ◌+◌, ◌-◌, ◌≤◌, ◌≡◌, refl, ◌∙◌, inl, inr, Bool, true, false, ◌&&◌, ◌||◌, Option,
  none, some, List, [], ◌∷◌, ◌++◌, arith, ltb, if◌then◌else◌, Bool-cases, ◌==◌, ℕ_eq, List_eq, All,
  Text,
}

abbrev pub max_snapshot_file : ℕ
max_snapshot_file = 67108864

abbrev pub max_snapshot_total : ℕ
max_snapshot_total = 536870912

-- How far `once` is: it read bytes, of which the number is kept; it added them to the count, and found
-- the count within the limit or not; it ended with an error or with the bytes. `freeing` is what the
-- last release took off the count and has yet to drop.
pub data Load : Type 0 where
  unread failed : Load
  has_read added over_limit loaded freeing : ℕ → Load

-- `in_cache` says whether the map still leads to the snapshot.
pub record Snapshot : Type 0 where
  pub path : Text
  pub refs : ℕ
  pub in_cache : Bool
  pub load : Load

pub record SnapshotFile : Type 0 where
  pub snapshot : ℕ
  pub closed : Bool

-- The snapshots made so far, the handles given out, and `snapshotBytes`.
pub record Cache : Type 0 where
  pub snapshots : List Snapshot
  pub files : List SnapshotFile
  pub total : ℕ

-- The length of `data`, as whoever takes the lock finds it.
abbrev pub held : Load → ℕ
held (loaded n) = n
held _ = 0

-- `snapshotCache.open`: the snapshot of the path, one handle more, or a new one.
abbrev pub more_refs : Snapshot → Snapshot
more_refs s = record s { refs = s.refs + 1 }

abbrev pub new_snapshot : Text → Snapshot
new_snapshot path = record { path = path; refs = 1; in_cache = true; load = unread }

abbrev pub hold_at : ℕ → Text → List Snapshot → List Snapshot × ℕ
hold_at i path [] = (new_snapshot path ∷ [], i)
hold_at i path (s ∷ ss) =
    let (later, j) = hold_at (suc i) path ss in
    if s.in_cache && s.path == path then (more_refs s ∷ ss, i) else (s ∷ later, j)

unfoldable pub open_snapshot : Text → Cache → Cache
open_snapshot path c =
    let (ss, i) = hold_at 0 path c.snapshots in
    record c { snapshots = ss; files = c.files ++ record { snapshot = i; closed = false } ∷ [] }

-- `ReadFile` of `snapshot.bytes`, where the driver reads so many bytes, or fails, and the first test.
abbrev pub read_once : Option ℕ → ℕ → Load → Load × ℕ
read_once none total unread = (failed, total)
read_once (some n) total unread =
    if ltb max_snapshot_file n then (failed, total) else (has_read n, total)
read_once read total l = (l, total)

-- `snapshotBytes.Add`, with the test of what it answers.
abbrev pub add_once : ℕ → Load → Load × ℕ
add_once total (has_read n) =
    (if ltb max_snapshot_total (total + n) then over_limit n else added n, total + n)
add_once total l = (l, total)

-- The end of `snapshot.bytes`: the bytes are kept, or taken off the count again.
abbrev pub settle_once : ℕ → Load → Load × ℕ
settle_once total (added n) = (loaded n, total)
settle_once total (over_limit n) = (failed, total - n)
settle_once total l = (l, total)

-- The end of `snapshot.release`.
abbrev pub drop_once : ℕ → Load → Load × ℕ
drop_once total (freeing n) = (loaded 0, total)
drop_once total l = (l, total)

-- One of these, for one snapshot.
abbrev pub act_at : ℕ → (ℕ → Load → Load × ℕ) → ℕ → List Snapshot → List Snapshot × ℕ
act_at i act total [] = ([], total)
act_at zero act total (s ∷ ss) = let (l, t) = act total s.load in (record s { load = l } ∷ ss, t)
act_at (suc i) act total (s ∷ ss) = let (later, t) = act_at i act total ss in (s ∷ later, t)

unfoldable pub act_on : ℕ → (ℕ → Load → Load × ℕ) → Cache → Cache
act_on i act c =
    let (ss, t) = act_at i act c.total c.snapshots in record c { snapshots = ss; total = t }

-- `snapshot.release`, up to the count: the last handle frees the bytes.
abbrev pub freed : Load → Load
freed (loaded n) = freeing n
freed l = l

abbrev pub release_one : ℕ → Snapshot → Snapshot × ℕ
release_one total s = if ltb 0 (s.refs - 1) then (record s { refs = s.refs - 1 }, total) else (
  record s { refs = s.refs - 1; in_cache = false; load = freed s.load },
  total - held s.load,
)

abbrev pub release_at : ℕ → ℕ → List Snapshot → List Snapshot × ℕ
release_at i total [] = ([], total)
release_at zero total (s ∷ ss) = let (s', t) = release_one total s in (s' ∷ ss, t)
release_at (suc i) total (s ∷ ss) = let (later, t) = release_at i total ss in (s ∷ later, t)

-- `snapshotFile.Close`: the first close of a handle lets its snapshot go.
abbrev pub close_at : ℕ → List SnapshotFile → List SnapshotFile × Option ℕ
close_at i [] = ([], none)
close_at zero (f ∷ fs) =
    (record f { closed = true } ∷ fs, if f.closed then none else some f.snapshot)
close_at (suc i) (f ∷ fs) = let (later, s) = close_at i fs in (f ∷ later, s)

abbrev pub released : Option ℕ → Cache → Cache
released none c = c
released (some i) c =
    let (ss, t) = release_at i c.total c.snapshots in record c { snapshots = ss; total = t }

unfoldable pub close_file : ℕ → Cache → Cache
close_file h c = let (fs, s) = close_at h c.files in released s (record c { files = fs })

pub data SnapshotStep : Type 0 where
  opens : Text → SnapshotStep
  reads : ℕ → Option ℕ → SnapshotStep
  adds settles drops closes : ℕ → SnapshotStep

unfoldable pub step : SnapshotStep → Cache → Cache
unfolding open_snapshot act_on close_file
step (opens path) c = open_snapshot path c
step (reads i read) c = act_on i (read_once read) c
step (adds i) c = act_on i add_once c
step (settles i) c = act_on i settle_once c
step (drops i) c = act_on i drop_once c
step (closes h) c = close_file h c

unfoldable pub steps : List SnapshotStep → Cache → Cache
unfolding step
steps [] c = c
steps (e ∷ es) c = steps es (step e c)
