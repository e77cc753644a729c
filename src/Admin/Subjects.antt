-- ===== src/Admin/Subjects.antt =====
-- admin_grpc.go: the subjects and the grants of a request (subjectOf, grantsOf), and what is shown
-- of them (grantView, grantsOfBlock).
pub mod Views
use fileshare.Prelude.{
  ℕ, Bool, true, false, not, ◌&&◌, ◌||◌, Option, none, some, List, [], ◌∷◌, ◌++◌, map, ltb,
  if◌then◌else◌, ◌==◌, ℕ_eq, List_eq, length, any, null, contains, Text, bytes, cut_prefix,
  has_prefix,
}
use fileshare.Admin.{Grant, ShareBlock, invalid, refused, Result, done, failed, ◌>>=◌, refuse_if}

pub data Subject : Type 0 where
  user group oidc_group oidc_user : Text → Subject

pub data Access : Type 0 where
  unspecified access_read access_write : Access

-- A grant of a request; its subject is `none` where no kind is set.
pub record Asked : Type 0 where
  pub subject : Option Subject
  pub access : Access

abbrev pub max_grants : ℕ
max_grants = 1000

abbrev pub group_mark : Text
group_mark = bytes "@"

abbrev pub groups_prefix : Text
groups_prefix = bytes "oidc:groups:"

abbrev pub user_prefix : Text
user_prefix = bytes "oidc:user:"

-- `isRule`
abbrev pub is_rule : Text → Bool
is_rule who = has_prefix who (bytes "oidc:")

abbrev pub granted_to : Text → Grant → Bool
granted_to subject g = g.subject == subject

abbrev pub write_of : Access → Result Bool
write_of unspecified = failed (refused invalid)
write_of access_read = done false
write_of access_write = done true

-- `printable` is asked whether a text is valid UTF-8 of characters that unicode.IsPrint accepts.
module _ (printable : Text → Bool) where
  abbrev pub unreadable : Text → Bool
  unreadable v = null v || ltb 256 (length v) || not (printable v)

  abbrev pub is_bad : Text → Bool
  is_bad v = unreadable v || contains v b' '

  unfoldable pub subject_of : Option Subject → Result Text
  subject_of none = failed (refused invalid)
  subject_of (some (user v)) =
      if is_bad v || has_prefix v group_mark || is_rule v then failed (refused invalid) else done v
  subject_of (some (group v)) =
      if is_bad v || has_prefix v group_mark
      then failed (refused invalid)
      else done (group_mark ++ v)
  subject_of (some (oidc_group v)) =
      if unreadable v then failed (refused invalid) else done (groups_prefix ++ v)
  subject_of (some (oidc_user v)) =
      if unreadable v then failed (refused invalid) else done (user_prefix ++ v)

  -- The loop of `grantsOf`, after the grants already read.
  unfoldable pub read_grants : List Grant → List Asked → Result (List Grant)
  unfolding subject_of
  read_grants out [] = done out
  read_grants out (g ∷ gs) = do
    subject ← subject_of g.subject
    write ← write_of g.access
    _ ← refuse_if (any (granted_to subject) out) invalid
    read_grants (out ++ (record { subject = subject; write = write } ∷ [])) gs

  unfoldable pub grants_of : List Asked → Result (List Grant)
  unfolding read_grants
  grants_of asked = do _ ← refuse_if (ltb max_grants (length asked)) invalid; read_grants [] asked

-- `grantView`
abbrev pub subject_view : Text → Subject
subject_view s = elim (cut_prefix s group_mark) [
  | some v ↦ group v
  | none ↦ elim (cut_prefix s groups_prefix) [
    | some v ↦ oidc_group v
    | none ↦ elim (cut_prefix s user_prefix) [ some v ↦ oidc_user v | none ↦ user s ]
  ]
]

unfoldable pub grant_view : Grant → Asked
grant_view g = record {
  subject = some (subject_view g.subject);
  access = if g.write then access_write else access_read;
}

abbrev lone_writer : ShareBlock → Bool
lone_writer b = null b.allow && not b.read_only

-- `grantsOfBlock`: the grants that the two lists of a block come to.
unfoldable pub grants_of_block : ShareBlock → List Grant
grants_of_block b =
    map
      (λ who. record {
        subject = who;
        write = not b.read_only && (null b.writers || contains b.writers who);
      })
      b.allow
    ++ (if lone_writer b then map (λ who. record { subject = who; write = true }) b.writers else [])
