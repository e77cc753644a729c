-- ===== src/Union/Snapshots/Loads.antt =====
-- What each step of loading and freeing a snapshot does to the count.
use fileshare.Prelude.{
  ℕ, suc, ◌+◌, ◌≤◌, ◌≡◌, refl, ◌⊎◌, inl, inr, ◌&&◌, Option, none, some, List, [], ◌∷◌, arith, ltb,
  Bool-cases, ◌==◌, ℕ_eq, List_eq, All, Text,
}
use fileshare.Union.Snapshots.{
  max_snapshot_file, max_snapshot_total, Load, unread, failed, has_read, added, over_limit, loaded,
  freeing, Snapshot, hold_at, read_once, add_once, settle_once, drop_once,
}

-- The bytes that were let in and not given back, and those that were counted beyond the limit and
-- are yet to be taken off the count.
abbrev pub let_in : Load → ℕ
let_in (added n) = n
let_in (loaded n) = n
let_in _ = 0

abbrev pub beyond : Load → ℕ
beyond (over_limit n) = n
beyond _ = 0

-- The bytes of a snapshot, let in or not.
abbrev pub size : Load → ℕ
size unread = 0
size failed = 0
size (has_read n) = n
size (added n) = n
size (over_limit n) = n
size (loaded n) = n
size (freeing n) = n

abbrev pub sum_of : (Load → ℕ) → List Snapshot → ℕ
sum_of g [] = 0
sum_of g (s ∷ ss) = g s.load + sum_of g ss

abbrev pub IsSmall : List Snapshot → Type 0
IsSmall ss = All (λ s. size s.load ≤ max_snapshot_file) ss

-- The counter is the bytes that were let in and those that are to be taken off again; those that were
-- let in are within the limit, and each snapshot is within its own.
abbrev pub IsWithin : List Snapshot → ℕ → Type 0
IsWithin ss total =
    (total ≡ sum_of let_in ss + sum_of beyond ss)
    × (sum_of let_in ss ≤ max_snapshot_total)
    × All (λ s. size s.load ≤ max_snapshot_file) ss

pub hold_at-held :
    (i : ℕ) (path : Text) (ss : List Snapshot)
    → IsSmall ss
    → (sum_of let_in (hold_at i path ss).0 ≡ sum_of let_in ss)
      × (sum_of beyond (hold_at i path ss).0 ≡ sum_of beyond ss)
      × IsSmall (hold_at i path ss).0
hold_at-held i path [] h = (refl, refl, (omega arith, tt))
hold_at-held i path (s ∷ ss) h = elim (Bool-cases (s.in_cache && s.path == path)) [
  | inl e ↦ (ground arith, ground arith, ground arith)
  | inr e ↦
      let (same, over, small) = hold_at-held (suc i) path ss h.1 in
      (ground arith, ground arith, ground arith)
]

-- What a step does to one load, beside the count: what is counted moves with the count, and more is
-- let in only within the limit.
abbrev pub Keeps : ℕ → Load → Load × ℕ → Type 0
Keeps total l (l', t) =
    (let_in l' + beyond l' + total ≡ let_in l + beyond l + t)
    × ((let_in l' ≤ let_in l) ⊎ (t ≤ max_snapshot_total))
    × (size l' ≤ max_snapshot_file)

pub same-Keeps : (total : ℕ) (l : Load) → size l ≤ max_snapshot_file → Keeps total l (l, total)
same-Keeps total l h = (refl, inl (omega arith), h)

pub read_once-Keeps :
    (read : Option ℕ) (total : ℕ) (l : Load)
    → size l ≤ max_snapshot_file
    → let_in l + beyond l ≤ total
    → Keeps total l (read_once read total l)
read_once-Keeps none total unread h t = (refl, inl (omega arith), h)
read_once-Keeps (some n) total unread h t = elim (Bool-cases (ltb max_snapshot_file n)) [
  | inl e ↦ rw e (refl, inl (omega arith), h)
  | inr e ↦ rw e (refl, inl (omega arith), ground arith)
]
read_once-Keeps none total failed h t = same-Keeps total failed h
read_once-Keeps none total (has_read m) h t = same-Keeps total (has_read m) h
read_once-Keeps none total (added m) h t = same-Keeps total (added m) h
read_once-Keeps none total (over_limit m) h t = same-Keeps total (over_limit m) h
read_once-Keeps none total (loaded m) h t = same-Keeps total (loaded m) h
read_once-Keeps none total (freeing m) h t = same-Keeps total (freeing m) h
read_once-Keeps (some n) total failed h t = same-Keeps total failed h
read_once-Keeps (some n) total (has_read m) h t = same-Keeps total (has_read m) h
read_once-Keeps (some n) total (added m) h t = same-Keeps total (added m) h
read_once-Keeps (some n) total (over_limit m) h t = same-Keeps total (over_limit m) h
read_once-Keeps (some n) total (loaded m) h t = same-Keeps total (loaded m) h
read_once-Keeps (some n) total (freeing m) h t = same-Keeps total (freeing m) h

pub add_once-Keeps :
    (total : ℕ) (l : Load)
    → size l ≤ max_snapshot_file
    → let_in l + beyond l ≤ total
    → Keeps total l (add_once total l)
add_once-Keeps total (has_read n) h t = elim (Bool-cases (ltb max_snapshot_total (total + n))) [
  | inl e ↦ rw e (omega arith, inl (omega arith), h)
  | inr e ↦ rw e (omega arith, inr (ground arith), h)
]
add_once-Keeps total unread h t = same-Keeps total unread h
add_once-Keeps total failed h t = same-Keeps total failed h
add_once-Keeps total (added m) h t = same-Keeps total (added m) h
add_once-Keeps total (over_limit m) h t = same-Keeps total (over_limit m) h
add_once-Keeps total (loaded m) h t = same-Keeps total (loaded m) h
add_once-Keeps total (freeing m) h t = same-Keeps total (freeing m) h

pub settle_once-Keeps :
    (total : ℕ) (l : Load)
    → size l ≤ max_snapshot_file
    → let_in l + beyond l ≤ total
    → Keeps total l (settle_once total l)
settle_once-Keeps total (added n) h t = (refl, inl (omega arith), h)
settle_once-Keeps total (over_limit n) h t = (omega (arith, t), inl (omega arith), omega arith)
settle_once-Keeps total unread h t = same-Keeps total unread h
settle_once-Keeps total failed h t = same-Keeps total failed h
settle_once-Keeps total (has_read m) h t = same-Keeps total (has_read m) h
settle_once-Keeps total (loaded m) h t = same-Keeps total (loaded m) h
settle_once-Keeps total (freeing m) h t = same-Keeps total (freeing m) h

pub drop_once-Keeps :
    (total : ℕ) (l : Load)
    → size l ≤ max_snapshot_file
    → let_in l + beyond l ≤ total
    → Keeps total l (drop_once total l)
drop_once-Keeps total (freeing n) h t = (refl, inl (omega arith), omega arith)
drop_once-Keeps total unread h t = same-Keeps total unread h
drop_once-Keeps total failed h t = same-Keeps total failed h
drop_once-Keeps total (has_read m) h t = same-Keeps total (has_read m) h
drop_once-Keeps total (added m) h t = same-Keeps total (added m) h
drop_once-Keeps total (over_limit m) h t = same-Keeps total (over_limit m) h
drop_once-Keeps total (loaded m) h t = same-Keeps total (loaded m) h
