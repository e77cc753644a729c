-- ===== src/Union/Snapshots/Bounds.antt =====
-- What the counter of the snapshots bounds.
use fileshare.Prelude.{
  ℕ, zero, suc, ◌+◌, ◌-◌, ◌≤◌, ◌≡◌, refl, ◌⊎◌, inl, inr, Option, none, some, List, [], ◌∷◌, arith,
  ltb, Bool-cases, ℕ_eq, List_eq,
}
use fileshare.Union.Snapshots.{
  max_snapshot_file, max_snapshot_total, Load, unread, failed, has_read, added, over_limit, loaded,
  freeing, Snapshot, Cache, held, open_snapshot, read_once, add_once, settle_once, drop_once,
  act_at, act_on, freed, release_one, release_at, close_at, released, close_file, SnapshotStep,
  opens, reads, adds, settles, drops, closes, step, steps,
}
use fileshare.Union.Snapshots.Loads.{
  let_in, beyond, size, sum_of, IsSmall, IsWithin, hold_at-held, Keeps, same-Keeps, read_once-Keeps,
  add_once-Keeps, settle_once-Keeps, drop_once-Keeps,
}

-- So for all snapshots.
abbrev KeepsAll : List Snapshot → ℕ → List Snapshot × ℕ → Type 0
KeepsAll ss total (ss', t) =
    (sum_of let_in ss' + sum_of beyond ss' + total ≡ sum_of let_in ss + sum_of beyond ss + t)
    × ((sum_of let_in ss' ≤ sum_of let_in ss) ⊎ (t ≤ max_snapshot_total))
    × IsSmall ss'

first-KeepsAll :
    (total : ℕ) (s s' : Snapshot) (t : ℕ) (ss : List Snapshot)
    → IsSmall ss
    → Keeps total s.load (s'.load, t)
    → KeepsAll (s ∷ ss) total (s' ∷ ss, t)
first-KeepsAll total s s' t ss h (moved, fits, small) =
    (omega (arith, moved), elim fits [ inl f ↦ inl (omega (arith, f)) | inr f ↦ inr f ], (small, h))

later-KeepsAll :
    (total : ℕ) (s : Snapshot) (ss : List Snapshot) (r : List Snapshot × ℕ)
    → size s.load ≤ max_snapshot_file
    → KeepsAll ss total r
    → KeepsAll (s ∷ ss) total (s ∷ r.0, r.1)
later-KeepsAll total s ss r h (moved, fits, small) =
    (omega (arith, moved), elim fits [ inl f ↦ inl (omega (arith, f)) | inr f ↦ inr f ], (h, small))

same-KeepsAll : (total : ℕ) (ss : List Snapshot) → IsSmall ss → KeepsAll ss total (ss, total)
same-KeepsAll total ss h = (refl, inl (omega arith), h)

module _ (act : ℕ → Load → Load × ℕ)
    (keeps : (total : ℕ) (l : Load)
      → size l ≤ max_snapshot_file
      → let_in l + beyond l ≤ total
      → Keeps total l (act total l)) where
  act_at-KeepsAll :
      (i total : ℕ) (ss : List Snapshot)
      → IsSmall ss
      → sum_of let_in ss + sum_of beyond ss ≤ total
      → KeepsAll ss total (act_at i act total ss)
  act_at-KeepsAll i total [] h t = same-KeepsAll total [] h
  act_at-KeepsAll zero total (s ∷ ss) h t =
      first-KeepsAll total s (record s { load = (act total s.load).0 }) (act total s.load).1 ss h.1
        (keeps total s.load h.0 (omega (arith, t)))
  act_at-KeepsAll (suc i) total (s ∷ ss) h t =
      later-KeepsAll total s ss (act_at i act total ss) h.0
        (act_at-KeepsAll i total ss h.1 (omega (arith, t)))

unmoved-Keeps : (total : ℕ) (l : Load) → size l ≤ max_snapshot_file → Keeps total l (l, total - 0)
unmoved-Keeps total l h = (omega arith, inl (omega arith), h)

freed-Keeps :
    (total : ℕ) (l : Load)
    → size l ≤ max_snapshot_file
    → let_in l + beyond l ≤ total
    → Keeps total l (freed l, total - held l)
freed-Keeps total (loaded n) h t = (omega (arith, t), inl (omega arith), h)
freed-Keeps total unread h t = unmoved-Keeps total unread h
freed-Keeps total failed h t = unmoved-Keeps total failed h
freed-Keeps total (has_read m) h t = unmoved-Keeps total (has_read m) h
freed-Keeps total (added m) h t = unmoved-Keeps total (added m) h
freed-Keeps total (over_limit m) h t = unmoved-Keeps total (over_limit m) h
freed-Keeps total (freeing m) h t = unmoved-Keeps total (freeing m) h

release_one-Keeps :
    (total : ℕ) (s : Snapshot)
    → size s.load ≤ max_snapshot_file
    → let_in s.load + beyond s.load ≤ total
    → Keeps total s.load ((release_one total s).0.load, (release_one total s).1)
release_one-Keeps total s h t = elim (Bool-cases (ltb 0 (s.refs - 1))) [
  | inl e ↦ rw e (same-Keeps total s.load h)
  | inr e ↦ rw e (freed-Keeps total s.load h t)
]

release_at-KeepsAll :
    (i total : ℕ) (ss : List Snapshot)
    → IsSmall ss
    → sum_of let_in ss + sum_of beyond ss ≤ total
    → KeepsAll ss total (release_at i total ss)
release_at-KeepsAll i total [] h t = same-KeepsAll total [] h
release_at-KeepsAll zero total (s ∷ ss) h t =
    first-KeepsAll total s (release_one total s).0 (release_one total s).1 ss h.1
      (release_one-Keeps total s h.0 (omega (arith, t)))
release_at-KeepsAll (suc i) total (s ∷ ss) h t =
    later-KeepsAll total s ss (release_at i total ss) h.0
      (release_at-KeepsAll i total ss h.1 (omega (arith, t)))

-- What moves with the count stays within the bounds.
kept-IsWithin :
    (ss : List Snapshot) (total : ℕ) (r : List Snapshot × ℕ)
    → IsWithin ss total
    → KeepsAll ss total r
    → IsWithin r.0 r.1
kept-IsWithin ss total r (same, fits, small) (moved, less, small') =
    let now : r.1 ≡ sum_of let_in r.0 + sum_of beyond r.0 = omega (arith, same, moved) in
    (now, elim less [ inl f ↦ omega (arith, f, fits) | inr f ↦ omega (arith, f, now) ], small')

released-IsWithin :
    (o : Option ℕ) (c : Cache)
    → IsWithin c.snapshots c.total
    → IsWithin (released o c).snapshots (released o c).total
released-IsWithin none c h = h
released-IsWithin (some i) c h =
    kept-IsWithin c.snapshots c.total (release_at i c.total c.snapshots) h
      (release_at-KeepsAll i c.total c.snapshots h.2 (omega (arith, h.0)))

act_on-IsWithin :
    (act : ℕ → Load → Load × ℕ)
    → ((total : ℕ) (l : Load)
        → size l ≤ max_snapshot_file
        → let_in l + beyond l ≤ total
        → Keeps total l (act total l))
    → (i : ℕ) (c : Cache) → IsWithin c.snapshots c.total
    → IsWithin (act_on i act c).snapshots (act_on i act c).total
unfolding act_on
act_on-IsWithin act keeps i c h =
    kept-IsWithin c.snapshots c.total (act_at i act c.total c.snapshots) h
      (act_at-KeepsAll act keeps i c.total c.snapshots h.2 (omega (arith, h.0)))

step-IsWithin :
    (e : SnapshotStep) (c : Cache)
    → IsWithin c.snapshots c.total
    → IsWithin (step e c).snapshots (step e c).total
unfolding step open_snapshot close_file
step-IsWithin (opens path) c (same, fits, small) =
    let (kept, over, small') = hold_at-held 0 path c.snapshots small in
    (omega (arith, same, kept, over), omega (arith, fits, kept), small')
step-IsWithin (reads i read) c h = act_on-IsWithin (read_once read) (read_once-Keeps read) i c h
step-IsWithin (adds i) c h = act_on-IsWithin add_once add_once-Keeps i c h
step-IsWithin (settles i) c h = act_on-IsWithin settle_once settle_once-Keeps i c h
step-IsWithin (drops i) c h = act_on-IsWithin drop_once drop_once-Keeps i c h
step-IsWithin (closes h) c within =
    let (fs, o) = close_at h c.files in released-IsWithin o (record c { files = fs }) within

abbrev pub empty_cache : Cache
empty_cache = record { snapshots = []; files = []; total = 0 }

-- Whatever goroutines open, load and close, in whatever order of their steps, and whatever the driver
-- reads: `snapshotBytes` is the number of bytes that the snapshots made so far were let in with and
-- have not given back, which is at most 512 MiB, and of those that were counted beyond the limit and
-- are yet to be taken off; and no snapshot has more than 64 MiB.
pub steps-IsWithin :
    (es : List SnapshotStep)
    → IsWithin (steps es empty_cache).snapshots (steps es empty_cache).total
unfolding steps
steps-IsWithin es = from es empty_cache (refl, omega arith, tt)
  where
    from :
        (es : List SnapshotStep) (c : Cache)
        → IsWithin c.snapshots c.total
        → IsWithin (steps es c).snapshots (steps es c).total
    from [] c h = h
    from (e ∷ es) c h = from es (step e c) (step-IsWithin e c h)
