-- ===== src/Volumes/Exempt.antt =====
-- When this process is held to quotas (quotaExemptFrom of volume.go).
use fileshare.Prelude.{
  ℕ, ◌≡◌, refl, sym, ap, ◌∙◌, subst, ◌≢◌, ◌⊎◌, inl, inr, true, false, not, ◌&&◌, Option, none, some,
  List, [], ◌∷◌, Memᴰ, arith, ℕ_eq, Text, cut_prefix, trim_space,
}
use fileshare.Volumes.{
  Masks, lines, SetName, cap_prm, cap_eff, set_prefix, set_mask, read_line, then_read, read_lines,
  has_resource, lacks_resource, quota_exempt_from,
}

abbrev pub mask_of : SetName → Masks → Option ℕ
mask_of cap_prm m = m.permitted
mask_of cap_eff m = m.effective

-- A line of the status that gives a set this mask.
abbrev pub Gives : (Text → Option ℕ) → SetName → ℕ → Text → Type 0
Gives scan name caps line =
    (hex : Text) × (cut_prefix line (set_prefix name) ≡ some hex)
    × (scan (trim_space hex) ≡ some caps)

-- A mask is one that some line gives, or the one there was.
abbrev Comes : (Text → Option ℕ) → SetName → List Text → Masks → Option ℕ → Type 0
Comes scan name ls m o =
    (o ≡ mask_of name m)
    ⊎ ((caps : ℕ) × (line : Text) × (o ≡ some caps) × Memᴰ line ls × Gives scan name caps line)

set_mask-mask :
    (name asked : SetName) (caps : ℕ) (m : Masks)
    → (mask_of asked (set_mask name caps m) ≡ mask_of asked m)
      ⊎ ((name ≡ asked) × (mask_of asked (set_mask name caps m) ≡ some caps))
set_mask-mask cap_prm cap_prm caps m = inr (refl, refl)
set_mask-mask cap_prm cap_eff caps m = inl refl
set_mask-mask cap_eff cap_prm caps m = inl refl
set_mask-mask cap_eff cap_eff caps m = inr (refl, refl)

some_inj : {a b : Masks} → some a ≡ some b → a ≡ b
some_inj h = cc

-- What a line does to a mask: nothing, or it gives it.
abbrev Sets : (Text → Option ℕ) → SetName → Text → Masks → Masks → Type 0
Sets scan asked line m m' =
    (mask_of asked m' ≡ mask_of asked m)
    ⊎ ((caps : ℕ) × (mask_of asked m' ≡ some caps) × Gives scan asked caps line)

read_line-mask :
    (scan : Text → Option ℕ) (name asked : SetName) (line : Text) (m m' : Masks)
    → read_line scan name line m ≡ some m'
    → Sets scan asked line m m'
unfolding read_line
read_line-mask scan name asked line m m' h = cut (cut_prefix line (set_prefix name)) refl h
  where
    set_by :
        (hex : Text)
        → cut_prefix line (set_prefix name) ≡ some hex
        → (caps : ℕ) → scan (trim_space hex) ≡ some caps
        → Sets scan asked line m (set_mask name caps m)
    set_by hex p caps q = elim (set_mask-mask name asked caps m) [
      | inl same ↦ inl same
      | inr (n, e) ↦
          inr (caps, e, (hex, subst (λ x. cut_prefix line (set_prefix x) ≡ some hex) n p, q))
    ]

    scanned :
        (hex : Text)
        → cut_prefix line (set_prefix name) ≡ some hex
        → (o : Option ℕ) → scan (trim_space hex) ≡ o
        → Path
            (Option Masks)
            (elim o [ none ↦ none | some caps ↦ some (set_mask name caps m) ])
            (some m')
        → Sets scan asked line m m'
    scanned hex p none q h = absurd (cc)
    scanned hex p (some caps) q h =
        subst (Sets scan asked line m) (some_inj h) (set_by hex p caps q)

    cut :
        (o : Option Text)
        → cut_prefix line (set_prefix name) ≡ o
        → Path
            (Option Masks)
            (elim o [
              | none ↦ some m
              | some hex ↦ elim (scan (trim_space hex)) [
                | none ↦ none
                | some caps ↦ some (set_mask name caps m)
              ]
            ])
            (some m')
        → Sets scan asked line m m'
    cut none p h = inl (ap (mask_of asked) (some_inj (sym h)))
    cut (some hex) p h = scanned hex p (scan (trim_space hex)) refl h

-- One mask after another.
Sets-Comes :
    (scan : Text → Option ℕ) (asked : SetName) (line : Text) (ls : List Text) (m m' : Masks)
    (o : Option ℕ)
    → Sets scan asked line m m'
    → Comes scan asked ls m' o
    → Comes scan asked (line ∷ ls) m o
Sets-Comes scan asked line ls m m' o (inl same) (inl kept) = inl (kept ∙ same)
Sets-Comes scan asked line ls m m' o (inr (caps, e, g)) (inl kept) =
    inr (caps, line, kept ∙ e, Memᴰ.head refl, g)
Sets-Comes scan asked line ls m m' o s (inr (caps, l, e, at, g)) = inr (caps, l, e, Memᴰ.tail at, g)

then_read-some :
    (f : Masks → Option Masks) (o : Option Masks) {m : Masks}
    → then_read f o ≡ some m
    → (a : Masks) × (o ≡ some a) × (f a ≡ some m)
then_read-some f none h = absurd (cc)
then_read-some f (some a) h = (a, refl, h)

Sets-both :
    (scan : Text → Option ℕ) (asked : SetName) (line : Text) (m a b : Masks)
    → Sets scan asked line m a
    → Sets scan asked line a b
    → Sets scan asked line m b
Sets-both scan asked line m a b (inl p) (inl q) = inl (q ∙ p)
Sets-both scan asked line m a b (inr (caps, e, g)) (inl q) = inr (caps, q ∙ e, g)
Sets-both scan asked line m a b s (inr g) = inr g

read_lines-Comes :
    (scan : Text → Option ℕ) (asked : SetName) (ls : List Text) (m m' : Masks)
    → read_lines scan ls m ≡ some m'
    → Comes scan asked ls m (mask_of asked m')
unfolding read_lines
read_lines-Comes scan asked [] m m' h = inl (ap (mask_of asked) (some_inj (sym h)))
read_lines-Comes scan asked (l ∷ ls) m m' h =
    let (a, p, rest) =
      then_read-some (λ a. then_read (λ b. read_lines scan ls b) (read_line scan cap_eff l a))
        (read_line scan cap_prm l m) h in
    let (b, q, last) =
      then_read-some (λ b. read_lines scan ls b) (read_line scan cap_eff l a) rest in
    Sets-Comes scan asked l ls m b (mask_of asked m')
      (Sets-both scan asked l m a b (read_line-mask scan cap_prm asked l m a p)
        (read_line-mask scan cap_eff asked l a b q))
      (read_lines-Comes scan asked ls b m' last)

-- A mask that a line of the status gives a set, and that lacks the capability.
abbrev pub Lacks : (Text → Option ℕ) → SetName → Text → Type 0
Lacks scan name status =
    (caps : ℕ) × (line : Text) × Memᴰ line (lines status)
    × Gives scan name caps line
    × (has_resource caps ≡ false)

Comes-Lacks :
    (scan : Text → Option ℕ) (name : SetName) (status : Text) (o : Option ℕ) (m : Masks)
    → mask_of name m ≡ none
    → Comes scan name (lines status) m o
    → lacks_resource o ≡ true
    → Lacks scan name status
Comes-Lacks scan name status o m e (inl kept) l =
    let gone : o ≡ none = kept ∙ e in absurd (cc (subst (λ x. lacks_resource x ≡ true) gone l))
Comes-Lacks scan name status o m e (inr (caps, line, q, at, g)) l =
    let x : lacks_resource (some caps) ≡ true = subst (λ y. lacks_resource y ≡ true) q l in
    (caps, line, at, g, ground arith)

-- This process counts as held to quotas only where it does not run as root, its status could be read,
-- and for both sets, the permitted and the effective one, a line of the status gives a mask without
-- CAP_SYS_RESOURCE.
pub quota_exempt_from-Lacks :
    (scan : Text → Option ℕ) (euid : ℕ) (status : Option Text)
    → quota_exempt_from scan euid status ≡ false
    → (text : Text) × (status ≡ some text)
      × (euid ≢ 0)
      × Lacks scan cap_eff text
      × Lacks scan cap_prm text
unfolding quota_exempt_from
quota_exempt_from-Lacks scan euid none h = absurd (cc)
quota_exempt_from-Lacks scan euid (some text) h =
    read (read_lines scan (lines text) blank) refl (ground arith)
  where
    blank : Masks
    blank = record { permitted = none; effective = none }

    read :
        (o : Option Masks)
        → read_lines scan (lines text) blank ≡ o
        → (elim o [
          | none ↦ true
          | some m ↦ not (lacks_resource m.effective && lacks_resource m.permitted)
        ])
          ≡ false
        → (t : Text) × (some text ≡ some t)
          × (euid ≢ 0)
          × Lacks scan cap_eff t
          × Lacks scan cap_prm t
    read none p e = absurd (cc)
    read (some m) p e = (
      text,
      refl,
      λ z. ground arith,
      Comes-Lacks scan cap_eff text m.effective blank refl
          (read_lines-Comes scan cap_eff (lines text) blank m p) (ground arith),
      Comes-Lacks scan cap_prm text m.permitted blank refl
          (read_lines-Comes scan cap_prm (lines text) blank m p) (ground arith),
    )
