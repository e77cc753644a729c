-- ===== src/Admin/Subjects/Views.antt =====
-- subjectOf and grantView of admin_grpc.go.
use fileshare.Prelude.{
  ◌≡◌, refl, ap, subst, inl, inr, Bool, true, false, ◌||◌, none, some, [], ◌∷◌, ◌++◌, arith,
  if◌then◌else◌, Option-cases, Text, bytes, cut_prefix, has_prefix,
}
use fileshare.Admin.{invalid, refused, done, failed}
use fileshare.Admin.Subjects.{
  Subject, user, group, oidc_group, oidc_user, access_read, access_write, group_mark, groups_prefix,
  user_prefix, is_rule, unreadable, is_bad, subject_of, subject_view, grant_view,
}

-- A text without a prefix has none that goes on from it.
cut_prefix-longer : (s p q : Text) → cut_prefix s p ≡ none → cut_prefix s (p ++ q) ≡ none
cut_prefix-longer s [] q h = absurd (ground arith)
cut_prefix-longer [] (c ∷ p) q h = refl
cut_prefix-longer (b ∷ s) (c ∷ p) q h = ground (arith, cut_prefix-longer s p q)

without : (s p : Text) → has_prefix s p ≡ false → cut_prefix s p ≡ none
without s p h = elim (Option-cases (cut_prefix s p)) [
  | inl e ↦ e
  | inr (t, e) ↦ absurd (ground arith)
]

view_of_user :
    (v : Text) → has_prefix v group_mark ≡ false → is_rule v ≡ false → subject_view v ≡ user v
view_of_user v g r =
    let n : cut_prefix v (bytes "oidc:") ≡ none = without v (bytes "oidc:") r in
    ground (
      arith,
      without v group_mark g,
      cut_prefix-longer v (bytes "oidc:") (bytes "groups:") n,
      cut_prefix-longer v (bytes "oidc:") (bytes "user:") n,
    )

accepted :
    (b : Bool) (x t : Text)
    → (if b then failed (refused invalid) else done x) ≡ done t
    → (b ≡ false) × (x ≡ t)
accepted true x t h = absurd (ground arith)
accepted false x t h = (refl, ground arith)

shown :
    (t : Text) (w : Bool) (k : Subject)
    → subject_view t ≡ k
    → grant_view (record { subject = t; write = w })
      ≡ record { subject = some k; access = if w then access_write else access_read }
unfolding grant_view
shown t w k e =
    ap (λ s. record { subject = some s; access = if w then access_write else access_read }) e

-- A subject that is accepted is shown again as it was asked for, and so is the access granted.
pub grant_view-subject_of :
    (printable : Text → Bool) (k : Subject) (t : Text) (w : Bool)
    → subject_of printable (some k) ≡ done t
    → grant_view (record { subject = t; write = w })
      ≡ record { subject = some k; access = if w then access_write else access_read }
unfolding subject_of grant_view
grant_view-subject_of printable (user v) t w h =
    let (b, e) = accepted (is_bad printable v || has_prefix v group_mark || is_rule v) v t h in
    shown t w (user v)
      (subst (λ x. subject_view x ≡ user v) e (view_of_user v (ground arith) (ground arith)))
grant_view-subject_of printable (group v) t w h =
    let (b, e) = accepted (is_bad printable v || has_prefix v group_mark) (group_mark ++ v) t h in
    shown t w (group v) (subst (λ x. subject_view x ≡ group v) e refl)
grant_view-subject_of printable (oidc_group v) t w h =
    let (b, e) = accepted (unreadable printable v) (groups_prefix ++ v) t h in
    shown t w (oidc_group v) (subst (λ x. subject_view x ≡ oidc_group v) e refl)
grant_view-subject_of printable (oidc_user v) t w h =
    let (b, e) = accepted (unreadable printable v) (user_prefix ++ v) t h in
    shown t w (oidc_user v) (subst (λ x. subject_view x ≡ oidc_user v) e refl)
