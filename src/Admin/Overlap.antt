-- ===== src/Admin/Overlap.antt =====
-- config.go: checkNoShareHoldsShare, which keeps the source of one share out of another's.
pub mod Apart
use fileshare.Prelude.{
  ◌≡◌, refl, sym, ap, subst, ◌≢◌, ◌⊎◌, inl, inr, Bool, true, false, not, ◌&&◌, ◌||◌, Option, none,
  some, List, [], ◌∷◌, ◌++◌, Memᴰ, arith, if◌then◌else◌, Bool-cases, ◌==◌, ℕ_eq, list_eq_iff,
  List_eq, any, null, null-nil, All-mem, any-false, Text, bytes, to_lower, equal_fold,
}
use fileshare.Union.Paths.{rooted, parts_of}
use fileshare.Provision.Apart.{path_within, path_within-append}
use fileshare.Admin.{ℤ, pos, negsuc, ShareBlock}
use fileshare.Admin.Serving.{source_of, same_int}

-- What the system says of paths: a path made absolute, and one with its links followed.
pub record PathSystem : Type 0 where
  pub absolute : Text → Text
  pub eval_symlinks : Text → Option Text

-- `filepath.Dir` and `filepath.Base` of an absolute path, by its parts.
abbrev pub split_base : List Text → List Text × Text
split_base [] = ([], bytes "/")
split_base (w ∷ []) = ([], w)
split_base (w ∷ v ∷ ws) = let rest = split_base (v ∷ ws) in (w ∷ rest.0, rest.1)

unfoldable pub resolved_source : PathSystem → ShareBlock → Text
unfolding parts_of
resolved_source f b =
    let src = f.absolute (source_of b) in
    let sides = split_base (parts_of src) in
    elim (f.eval_symlinks src) [
      | some real ↦ real
      | none ↦ elim (f.eval_symlinks (rooted sides.0)) [
        | some dir ↦ rooted (parts_of (dir ++ (b'/' ∷ sides.1)))
        | none ↦ rooted (parts_of src)
      ]
    ]

-- The partition that a share opens, as it was written.
pub data Choice : Type 0 where
  whole_image : Choice
  by_index : ℤ → Choice
  by_label by_uuid : Text → Choice

unfoldable pub chosen_partition : ShareBlock → Choice
chosen_partition b = elim b.partition [
  | some p ↦ by_index p
  | none ↦
      if not (null b.partition_label)
      then by_label b.partition_label
      else if not (null b.partition_uuid)
      then by_uuid (to_lower b.partition_uuid)
      else whole_image
]

-- Both choose a partition, and not in the same words.
abbrev pub differ : Choice → Choice → Bool
differ whole_image o = false
differ (by_index p) whole_image = false
differ (by_index p) (by_index q) = not (same_int p q)
differ (by_index p) (by_label m) = true
differ (by_index p) (by_uuid v) = true
differ (by_label l) whole_image = false
differ (by_label l) (by_index q) = true
differ (by_label l) (by_label m) = not (l == m)
differ (by_label l) (by_uuid v) = true
differ (by_uuid u) whole_image = false
differ (by_uuid u) (by_index q) = true
differ (by_uuid u) (by_label m) = true
differ (by_uuid u) (by_uuid v) = not (u == v)

-- One round of the inner loop: the two shares overlap.
unfoldable pub overlaps : PathSystem → ShareBlock → ShareBlock → Bool
unfolding resolved_source chosen_partition
overlaps f b o =
    let bsrc = resolved_source f b in
    let osrc = resolved_source f o in
    if equal_fold o.name b.name
    then false
    else if bsrc == osrc
    then not (
        not (null b.image)
        && not (null o.image)
        && differ (chosen_partition b) (chosen_partition o))
    else (not (null o.directory) && path_within osrc bsrc)
      || (not (null b.directory) && path_within bsrc osrc)

-- `checkNoShareHoldsShare`, true where it passes.
unfoldable pub holds_no_share : PathSystem → List ShareBlock → List ShareBlock → Bool
unfolding overlaps
holds_no_share f every [] = true
holds_no_share f every (b ∷ changed) =
    not (any (overlaps f b) every) && holds_no_share f every changed
