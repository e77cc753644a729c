-- ===== src/Admin/Overlap/Apart.antt =====
-- Where checkNoShareHoldsShare of config.go passes: where sources lead, and which partitions are named.
use fileshare.Prelude.{
  ◌≡◌, refl, sym, ap, subst, ◌≢◌, ◌⊎◌, inl, inr, Bool, true, false, not, Option, none, some, List,
  [], ◌∷◌, ◌++◌, Memᴰ, arith, if◌then◌else◌, Bool-cases, ◌==◌, ℕ_eq, list_eq_iff, List_eq, any,
  null, null-nil, All-mem, any-false, Text, bytes, to_lower, equal_fold,
}
use fileshare.Union.Paths.{rooted, parts_of}
use fileshare.Provision.Apart.{path_within-append}
use fileshare.Admin.{ℤ, pos, negsuc, ShareBlock}
use fileshare.Admin.Serving.{source_of}
use fileshare.Admin.Overlap.{
  PathSystem, split_base, resolved_source, Choice, whole_image, by_index, by_label, by_uuid,
  chosen_partition, differ, overlaps, holds_no_share,
}

-- The directory of a path and its last part, by the path's parts.
abbrev pub IsSplit : List Text → List Text → Text → Type 0
IsSplit ps ws w = (ps ≡ ws ++ (w ∷ [])) ⊎ ((ps ≡ []) × (ws ≡ []) × (w ≡ bytes "/"))

-- Where a path leads: through its links, or, where there is nothing, through those of its directory,
-- or, where that is not there either, as it is spelled.
pub data LeadsTo (f : PathSystem) (src : Text) : Text → Type 0 where
  followed : {x : Text} → f.eval_symlinks src ≡ some x → LeadsTo f src x
  beside :
      {ws : List Text} {w dir : Text}
      → f.eval_symlinks src ≡ none
      → IsSplit (parts_of src) ws w
      → f.eval_symlinks (rooted ws) ≡ some dir
      → LeadsTo f src (rooted (parts_of (dir ++ (b'/' ∷ w))))
  spelled :
      {ws : List Text} {w : Text}
      → f.eval_symlinks src ≡ none
      → IsSplit (parts_of src) ws w
      → f.eval_symlinks (rooted ws) ≡ none
      → LeadsTo f src (rooted (parts_of src))

-- The partition that a block names, by the first of the three that it has.
pub data Chooses (b : ShareBlock) : Choice → Type 0 where
  an_index : {p : ℤ} → b.partition ≡ some p → Chooses b (by_index p)
  a_label : b.partition ≡ none → b.partition_label ≢ [] → Chooses b (by_label b.partition_label)
  a_uuid :
      b.partition ≡ none
      → b.partition_label ≡ []
      → b.partition_uuid ≢ []
      → Chooses b (by_uuid (to_lower b.partition_uuid))

-- No path goes on from the directory's parts.
abbrev pub IsOutside : Text → Text → Type 0
IsOutside dir x = (rest : List Text) → parts_of x ≢ parts_of dir ++ rest

-- Two shares of different names that are apart: their sources lead to different places, neither of
-- which is in the other share's directory, or to one image of which they name different partitions.
abbrev pub AreApart : PathSystem → ShareBlock → ShareBlock → Type 0
AreApart f b o =
    (x : Text) × (y : Text) × LeadsTo f (f.absolute (source_of b)) x
    × LeadsTo f (f.absolute (source_of o)) y
    × (((x ≡ y)
          × (b.image ≢ [])
          × (o.image ≢ [])
          × ((c : Choice) × (d : Choice) × Chooses b c × Chooses o d × (c ≢ d)))
        ⊎ ((x ≢ y) × ((o.directory ≡ []) ⊎ IsOutside y x) × ((b.directory ≡ []) ⊎ IsOutside x y)))

some_text : (t : Text) → null t ≡ false → t ≢ []
some_text t h e = absurd (ground arith)

split_base-IsSplit : (ps : List Text) → IsSplit ps (split_base ps).0 (split_base ps).1
split_base-IsSplit [] = inr (refl, refl, refl)
split_base-IsSplit (w ∷ []) = inl refl
split_base-IsSplit (w ∷ v ∷ ws) = elim (split_base-IsSplit (v ∷ ws)) [
  | inl e ↦ inl (ap (λ l. w ∷ l) e)
  | inr e ↦ absurd (ground arith)
]

resolved_source-LeadsTo :
    (f : PathSystem) (b : ShareBlock) → LeadsTo f (f.absolute (source_of b)) (resolved_source f b)
unfolding resolved_source
resolved_source-LeadsTo f b = at (f.eval_symlinks src) refl
  where
    src : Text
    src = f.absolute (source_of b)

    ws : List Text
    ws = (split_base (parts_of src)).0

    w : Text
    w = (split_base (parts_of src)).1

    above :
        f.eval_symlinks src ≡ none
        → (o : Option Text) → f.eval_symlinks (rooted ws) ≡ o
        → LeadsTo f src (elim o [
          | some dir ↦ rooted (parts_of (dir ++ (b'/' ∷ w)))
          | none ↦ rooted (parts_of src)
        ])
    above gone none e = spelled gone (split_base-IsSplit (parts_of src)) e
    above gone (some dir) e = beside gone (split_base-IsSplit (parts_of src)) e

    at :
        (o : Option Text)
        → f.eval_symlinks src ≡ o
        → LeadsTo f src (elim o [
          | some real ↦ real
          | none ↦ elim (f.eval_symlinks (rooted ws)) [
            | some dir ↦ rooted (parts_of (dir ++ (b'/' ∷ w)))
            | none ↦ rooted (parts_of src)
          ]
        ])
    at (some real) e = followed e
    at none e = above e (f.eval_symlinks (rooted ws)) refl

chosen-cases :
    (b : ShareBlock) → (chosen_partition b ≡ whole_image) ⊎ Chooses b (chosen_partition b)
unfolding chosen_partition
chosen-cases b = at b.partition refl
  where
    at :
        (o : Option ℤ)
        → b.partition ≡ o
        → ((elim o [
          | some p ↦ by_index p
          | none ↦
              if not (null b.partition_label)
              then by_label b.partition_label
              else if not (null b.partition_uuid)
              then by_uuid (to_lower b.partition_uuid)
              else whole_image
        ])
            ≡ whole_image)
          ⊎ Chooses b (elim o [
            | some p ↦ by_index p
            | none ↦
                if not (null b.partition_label)
                then by_label b.partition_label
                else if not (null b.partition_uuid)
                then by_uuid (to_lower b.partition_uuid)
                else whole_image
          ])
    at (some p) e = inr (an_index e)
    at none e = elim (Bool-cases (null b.partition_label)) [
      | inr l ↦ rw l (inr (a_label e (some_text b.partition_label l)))
      | inl l ↦ elim (Bool-cases (null b.partition_uuid)) [
        | inr u ↦
            rw (l, u) (inr (a_uuid e (null-nil b.partition_label l) (some_text b.partition_uuid u)))
        | inl u ↦ rw (l, u) (inl refl)
      ]
    ]

differ_self : (c : Choice) → differ c c ≡ false
differ_self whole_image = refl
differ_self (by_index (pos n)) = ground arith
differ_self (by_index (negsuc n)) = ground arith
differ_self (by_label l) = ground (arith, list_eq_iff l l)
differ_self (by_uuid u) = ground (arith, list_eq_iff u u)

differ-whole : (c : Choice) → differ c whole_image ≡ false
differ-whole whole_image = refl
differ-whole (by_index p) = refl
differ-whole (by_label l) = refl
differ-whole (by_uuid u) = refl

-- Choices that differ are both made, and are not one.
differ-apart : (c d : Choice) → differ c d ≡ true → (c ≢ whole_image) × (d ≢ whole_image) × (c ≢ d)
differ-apart c d h = (
  (λ e. absurd (Bool-apart (subst (λ z. differ z d ≡ true) e h) refl)),
  (λ e. absurd (Bool-apart (subst (λ z. differ c z ≡ true) e h) (differ-whole c))),
  (λ e. absurd (Bool-apart (subst (λ z. differ c z ≡ true) (sym e) h) (differ_self c))),
)
  where
    Bool-apart : {t : Bool} → t ≡ true → t ≡ false → ⊥
    Bool-apart a n = ground arith

chosen-Chooses :
    (b : ShareBlock) → chosen_partition b ≢ whole_image → Chooses b (chosen_partition b)
chosen-Chooses b h = elim (chosen-cases b) [ inl w ↦ absurd (h w) | inr c ↦ c ]

differ-Chooses :
    (b o : ShareBlock)
    → differ (chosen_partition b) (chosen_partition o) ≡ true
    → (c : Choice) × (d : Choice) × Chooses b c × Chooses o d × (c ≢ d)
differ-Chooses b o h =
    let (x, y, z) = differ-apart (chosen_partition b) (chosen_partition o) h in
    (chosen_partition b, chosen_partition o, chosen-Chooses b x, chosen-Chooses o y, z)

none-mem :
    {A : Type 0} (p : A → Bool) (xs : List A) {x : A} → any p xs ≡ false → Memᴰ x xs → p x ≡ false
none-mem p xs h m = All-mem (λ y. p y ≡ false) xs (any-false p xs h) m

passed :
    (f : PathSystem) (every changed : List ShareBlock) {b o : ShareBlock}
    → holds_no_share f every changed ≡ true
    → Memᴰ b changed
    → Memᴰ o every
    → overlaps f b o ≡ false
unfolding holds_no_share
passed f every [] h m n = elim m [ ]
passed f every (c ∷ changed) {b} {o} h (Memᴰ.head e) n =
    none-mem (overlaps f b) every
      (subst (λ x. any (overlaps f x) every ≡ false) (sym e) (ground arith)) n
passed f every (c ∷ changed) h (Memᴰ.tail m) n = passed f every changed (ground arith) m n

-- Where the check passes, every changed share is apart from every share of another name: their
-- sources, followed through their links as far as they are there, lead to different places, neither
-- of which lies in the other share's directory, or both are images at one place and name partitions
-- which are not written alike.
pub holds_no_share-AreApart :
    (f : PathSystem) (every changed : List ShareBlock) (b o : ShareBlock)
    → holds_no_share f every changed ≡ true
    → Memᴰ b changed
    → Memᴰ o every
    → equal_fold o.name b.name ≡ false
    → AreApart f b o
unfolding overlaps
holds_no_share-AreApart f every changed b o h m n other =
    let free : overlaps f b o ≡ false = passed f every changed h m n in
    let x : Text = resolved_source f b in
    let y : Text = resolved_source f o in
    (
      x,
      y,
      resolved_source-LeadsTo f b,
      resolved_source-LeadsTo f o,
      elim (Bool-cases (x == y)) [
        | inl e ↦ inl (
          (list_eq_iff x y).0 e,
          some_text b.image (ground arith),
          some_text o.image (ground arith),
          differ-Chooses b o (ground arith),
        )
        | inr e ↦ inr (
          (λ q. ground (arith, (list_eq_iff x y).1 q)),
          elim (Bool-cases (null o.directory)) [
            | inl d ↦ inl (null-nil o.directory d)
            | inr d ↦ inr (λ rest. path_within-append y x rest (ground arith))
          ],
          elim (Bool-cases (null b.directory)) [
            | inl d ↦ inl (null-nil b.directory d)
            | inr d ↦ inr (λ rest. path_within-append x y rest (ground arith))
          ],
        )
      ],
    )
