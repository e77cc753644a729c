-- ===== src/Admin/Serving/Granted.antt =====
-- openImage, openDirectory and adopt: what they leave of a share's lists.
use fileshare.Prelude.{
  ℕ, ◌≡◌, refl, ◌∙◌, ◌⊎◌, inl, inr, Bool, true, false, not, ◌||◌, Option, none, some, List, [],
  arith, if◌then◌else◌, null,
}
use fileshare.Access.Share.{Share, adopt}
use fileshare.Admin.Serving.Loop.{StepIs}
use fileshare.Admin.{ShareBlock}
use fileshare.Admin.Serving.{
  Image, Machine, image_key, Served, Lists, expand_lists, new_share, same_image, made_read_only,
  with_image, with_tree, open_fresh, Step, refused_block, reused, fresh, served_as, stays_read_only,
  open_as, open_block,
}

-- A share that allows what another does, or less.
pub record Tightens (sh t : Share) : Type 0 where
  pub allow : t.allow ≡ sh.allow
  pub allow_claims : t.allow_claims ≡ sh.allow_claims
  pub writer_claims : t.writer_claims ≡ sh.writer_claims
  pub allow_named : t.allow_named ≡ sh.allow_named
  pub writers_named : t.writers_named ≡ sh.writers_named
  pub read_only : sh.read_only ≡ true → t.read_only ≡ true
  pub writers : (t.writers ≡ sh.writers) ⊎ ((t.writers ≡ []) × (t.read_only ≡ true))

-- As one that differs elsewhere, and may have become read-only.
as-Tightens :
    (sh t : Share)
    → t.allow ≡ sh.allow
    → t.allow_claims ≡ sh.allow_claims
    → t.writer_claims ≡ sh.writer_claims
    → t.allow_named ≡ sh.allow_named
    → t.writers_named ≡ sh.writers_named
    → (sh.read_only ≡ true → t.read_only ≡ true)
    → (t.writers ≡ sh.writers) ⊎ ((t.writers ≡ []) × (t.read_only ≡ true))
    → Tightens sh t
as-Tightens sh t a ac wc an wn ro w = record {
  allow = a;
  allow_claims = ac;
  writer_claims = wc;
  allow_named = an;
  writers_named = wn;
  read_only = ro;
  writers = w;
}

self-Tightens : (sh : Share) → Tightens sh sh
self-Tightens sh = as-Tightens sh sh refl refl refl refl refl (λ e. e) (inl refl)

then-Tightens : (sh t u : Share) → Tightens sh t → Tightens t u → Tightens sh u
then-Tightens sh t u h k =
    as-Tightens sh u (k.allow ∙ h.allow) (k.allow_claims ∙ h.allow_claims)
      (k.writer_claims ∙ h.writer_claims) (k.allow_named ∙ h.allow_named)
      (k.writers_named ∙ h.writers_named) (λ e. k.read_only (h.read_only e))
      (elim k.writers [
        | inr e ↦ inr e
        | inl e ↦ elim h.writers [ inr f ↦ inr (e ∙ f.0, k.read_only f.1) | inl f ↦ inl (e ∙ f) ]
      ])

either-Tightens :
    (sh : Share) (b : Bool) (t u : Share)
    → Tightens sh t
    → Tightens sh u
    → Tightens sh (if b then t else u)
either-Tightens sh true t u h k = h
either-Tightens sh false t u h k = k

adopt-Tightens : (sh prev : Share) → Tightens sh (adopt sh prev)
unfolding adopt
adopt-Tightens sh prev =
    either-Tightens sh (prev.opened_read_only || prev.forced_read_only) _ _
      (as-Tightens sh _ refl refl refl refl refl (λ e. refl) (inr (refl, refl)))
      (as-Tightens sh _ refl refl refl refl refl (λ e. e) (inl refl))

made_read_only-Tightens : (b : Bool) (sh : Share) → Tightens sh (made_read_only b sh)
made_read_only-Tightens false sh = self-Tightens sh
made_read_only-Tightens true sh =
    either-Tightens sh sh.read_only _ _ (self-Tightens sh)
      (as-Tightens sh _ refl refl refl refl refl (λ e. refl) (inr (refl, refl)))

with_image-Tightens : (b : ShareBlock) (sh : Share) (i : Image) → Tightens sh (with_image b sh i)
unfolding with_image
with_image-Tightens b sh i =
    then-Tightens sh partitioned (with_image b sh i)
      (then-Tightens sh read partitioned
        (then-Tightens sh device read
          (as-Tightens sh device refl refl refl refl refl (λ e. ground arith) (inl refl))
          (made_read_only-Tightens i.opened_read_only device))
        (made_read_only-Tightens i.is_partition read))
      (as-Tightens partitioned (with_image b sh i) refl refl refl refl refl (λ e. e) (inl refl))
  where
    device : Share
    device = record sh {
      read_only = sh.read_only || i.is_device;
      opened_read_only = i.opened_read_only;
      asked_write = not b.read_only;
    }

    read : Share
    read = made_read_only i.opened_read_only device

    partitioned : Share
    partitioned = made_read_only i.is_partition read

-- A share that serves a block: it was made of the block's lists as some reading of them gave them, and
-- allows no more than that.
pub record IsOpenedFor (b : ShareBlock) (s : Served) : Type 0 where
  pub block : s.block ≡ b
  pub machine : Machine
  pub lists : Lists
  pub read : expand_lists machine b ≡ some lists
  pub tight : Tightens (new_share b lists) s.share

abbrev IsStep : ShareBlock → Machine → Lists → Option Share → Type 0
IsStep b m l none = Unit
IsStep b m l (some t) = Tightens (new_share b l) t

open_fresh-Tightens :
    (m : Machine) (b : ShareBlock) (l : Lists) → IsStep b m l (open_fresh m b (new_share b l))
unfolding open_fresh
open_fresh-Tightens m b l = choose (new_share b l).system (not (null b.directory))
  where
    tree :
        (o : Option ℕ)
        → IsStep b m l (elim o [ none ↦ none | some f ↦ some (with_tree b (new_share b l) f) ])
    tree none = tt
    tree (some f) = as-Tightens (new_share b l) _ refl refl refl refl refl (λ e. e) (inl refl)

    from_image :
        (o : Option Image)
        → IsStep b m l (elim o [ none ↦ none | some i ↦ some (with_image b (new_share b l) i) ])
    from_image none = tt
    from_image (some i) = with_image-Tightens b (new_share b l) i

    choose :
        (system in_tree : Bool)
        → IsStep b m l (
            if system
            then some (new_share b l)
            else if in_tree
            then elim (m.open_tree b) [
              | none ↦ none
              | some f ↦ some (with_tree b (new_share b l) f)
            ]
            else elim (m.open_image b) [
              | none ↦ none
              | some i ↦ some (with_image b (new_share b l) i)
            ])
    choose true in_tree = self-Tightens (new_share b l)
    choose false true = tree (m.open_tree b)
    choose false false = from_image (m.open_image b)

-- So with the lists as one system reads them.
abbrev pub OpenedWith : Machine → ShareBlock → Served → Type 0
OpenedWith m b s = (o : IsOpenedFor b s) × (o.machine ≡ m)

pub open_block-OpenedWith :
    (m : Machine) (around : List Served) (b : ShareBlock)
    → StepIs (OpenedWith m) b (open_block m around b)
unfolding open_block
open_block-OpenedWith m around b = listed_as (expand_lists m b) refl
  where
    as_served :
        (l : Lists) (sh : Share)
        → expand_lists m b ≡ some l
        → Tightens (new_share b l) sh
        → OpenedWith m b (served_as m b sh)
    as_served l sh e h =
        (record { block = refl; machine = m; lists = l; read = e; tight = h }, refl)

    is_fresh :
        (l : Lists) (o : Option Share)
        → expand_lists m b ≡ some l
        → IsStep b m l o
        → StepIs
            (OpenedWith m)
            b
            (elim o [ none ↦ refused_block | some sh ↦ fresh (served_as m b sh) ])
    is_fresh l none e h = tt
    is_fresh l (some sh) e h = as_served l sh e h

    is_reused :
        (t : Bool) (l : Lists) (prev : Share)
        → expand_lists m b ≡ some l
        → StepIs
            (OpenedWith m)
            b
            (if t then refused_block else reused (served_as m b (adopt (new_share b l) prev)))
    is_reused true l prev e = tt
    is_reused false l prev e =
        as_served l (adopt (new_share b l) prev) e (adopt-Tightens (new_share b l) prev)

    opens :
        (l : Lists) (prev : Option Served)
        → expand_lists m b ≡ some l
        → StepIs (OpenedWith m) b (open_as m b (new_share b l) prev)
    opens l none e = is_fresh l (open_fresh m b (new_share b l)) e (open_fresh-Tightens m b l)
    opens l (some prev) e = is_reused (stays_read_only prev.share b) l prev.share e

    listed_as :
        (o : Option Lists)
        → expand_lists m b ≡ o
        → StepIs (OpenedWith m) b (elim o [
          | none ↦ refused_block
          | some l ↦
              open_as m b
                (new_share b l)
                (if (new_share b l).system then none else same_image around (image_key m b))
        ])
    listed_as none e = tt
    listed_as (some l) e = opens l _ e

pub open_block-IsOpenedFor :
    (m : Machine) (around : List Served) (b : ShareBlock)
    → StepIs IsOpenedFor b (open_block m around b)
open_block-IsOpenedFor m around b = at (open_block m around b) (open_block-OpenedWith m around b)
  where
    at : (r : Step) → StepIs (OpenedWith m) b r → StepIs IsOpenedFor b r
    at refused_block h = tt
    at (reused s) h = h.0
    at (fresh s) h = h.0
