-- ===== src/Admin/Changes.antt =====
-- admin_grpc.go: the changes of a share that stands (UpdateShare, Grant, Revoke), of its place in
-- the state (DeleteShare, EnableShare, DisableShare), and all calls as one type.
pub mod Grants
pub mod Reading
pub mod Rights
pub mod Sound
mod Calls
mod Creation
pub mod Refines
pub mod Toggle
use fileshare.Prelude.{
  Bool, true, false, not, ◌&&◌, ◌||◌, Option, none, some, List, [], ◌∷◌, ◌++◌, leb, nat_eq,
  if◌then◌else◌, length, any, null, index_of, nth, remove_at, set_at, Text,
}
use fileshare.Admin.{
  VolumeRef, Resolution, Grant, ManagedShare, StateFile, is_disabled, unavailable, invalid,
  not_found, precondition, refused, out_of_range, Result, done, failed, ◌>>=◌, pure, refuse_if,
  share_index, Site, is_defined,
}
use fileshare.Admin.Subjects.{Subject, Asked, max_grants, granted_to, subject_of, grants_of}
use fileshare.Admin.Edits.{
  Outside, resolve_for, drop_name, managed, change_at, edit, writes, directory, volume,
  CreateRequest, create_share,
}

-- UpdateShare
pub record UpdateRequest : Type 0 where
  pub name : Text
  pub read_only : Option Bool
  pub protocols : Option (List Text)

abbrev pub set_read_only : Option Bool → ManagedShare → Result ManagedShare
set_read_only none m = pure m
set_read_only (some ro) m = do
  _ ← refuse_if (ro && any writes m.grants) precondition
  pure (record m { read_only = ro })

abbrev pub set_protocols : Option (List Text) → ManagedShare → ManagedShare
set_protocols none m = m
set_protocols (some names) m = record m { protocols = names }

unfoldable pub updated : UpdateRequest → ManagedShare → Result ManagedShare
updated req m = do n ← set_read_only req.read_only m; pure (set_protocols req.protocols n)

abbrev pub says_nothing : UpdateRequest → Bool
says_nothing req = elim req.read_only [
  | some ro ↦ false
  | none ↦ elim req.protocols [ some names ↦ false | none ↦ true ]
]

unfoldable pub update_share : Site → UpdateRequest → StateFile → Result StateFile
unfolding updated edit
update_share site req st = do
  _ ← refuse_if (says_nothing req) invalid
  edit site req.name (updated req) st

unfoldable pub delete_share : Site → Text → StateFile → Result StateFile
unfolding managed
delete_share site name st = do
  i ← managed site st name
  pure (record { shares = remove_at i st.shares; disabled = drop_name name st.disabled })

-- The volume of a share that is to be looked up again as it is brought back.
unfoldable pub volume_to_look_up : StateFile → Text → Option VolumeRef
unfolding is_disabled unavailable share_index
volume_to_look_up st name = elim (share_index st name) [
  | none ↦ none
  | some i ↦ elim (nth st.shares i) [
    | none ↦ none
    | some s ↦ elim s.volume [
      | none ↦ none
      | some v ↦ if is_disabled st name || not (null (unavailable s)) then some v else none
    ]
  ]
]

abbrev pub looked_up_again : Resolution → ManagedShare → Result ManagedShare
looked_up_again res m = pure (record m { directory = res.path; resolved = some res })

unfoldable pub look_up_again : Outside → Text → VolumeRef → StateFile → Result StateFile
unfolding resolve_for change_at share_index
look_up_again o name v st = do
  res ← resolve_for o v
  elim (share_index st name) [
    | none ↦ failed out_of_range
    | some i ↦ do
      shares ← change_at (looked_up_again res) i st.shares
      pure (record { shares = shares; disabled = drop_name name st.disabled })
  ]

unfoldable pub disable_share : Site → Text → StateFile → Result StateFile
unfolding is_defined is_disabled
disable_share site name st = do
  _ ← refuse_if (not (is_defined site st name)) not_found
  _ ← refuse_if (is_disabled st name) precondition
  pure (record st { disabled = st.disabled ++ (name ∷ []) })

unfoldable pub enable_share : Outside → Site → Text → StateFile → Result StateFile
unfolding is_defined is_disabled volume_to_look_up look_up_again
enable_share o site name st = do
  _ ← refuse_if (not (is_defined site st name)) not_found
  elim (volume_to_look_up st name) [
    | some v ↦ look_up_again o name v st
    | none ↦ do
      _ ← refuse_if (not (is_disabled st name)) precondition
      pure (record st { disabled = drop_name name st.disabled })
  ]

-- The grants of a share after a grant: in the place of the subject's grant, or as the last one.
unfoldable pub put_grant : Grant → List Grant → Result (List Grant)
put_grant g grants = elim (index_of (granted_to g.subject) grants) [
  | some i ↦ pure (set_at i g grants)
  | none ↦ do _ ← refuse_if (leb max_grants (length grants)) precondition; pure (grants ++ (g ∷ []))
]

unfoldable pub granted : Grant → ManagedShare → Result ManagedShare
unfolding put_grant
granted g m = do
  _ ← refuse_if (g.write && m.read_only) precondition
  grants ← put_grant g m.grants
  pure (record m { grants = grants })

-- `gs[0]` of the one grant that was read.
abbrev pub first_grant : List Grant → Result Grant
first_grant [] = failed out_of_range
first_grant (g ∷ gs) = done g

unfoldable pub grant_share : Outside → Site → Text → Asked → StateFile → Result StateFile
unfolding grants_of granted edit
grant_share o site name asked st = do
  gs ← grants_of o.printable (asked ∷ [])
  g ← first_grant gs
  edit site name (granted g) st

unfoldable pub take_grant : Text → List Grant → Result (List Grant)
take_grant subject grants = elim (index_of (granted_to subject) grants) [
  | none ↦ failed (refused not_found)
  | some i ↦ do _ ← refuse_if (nat_eq (length grants) 1) precondition; pure (remove_at i grants)
]

unfoldable pub revoked : Text → ManagedShare → Result ManagedShare
unfolding take_grant
revoked subject m = do grants ← take_grant subject m.grants; pure (record m { grants = grants })

unfoldable pub revoke_share : Outside → Site → Text → Option Subject → StateFile → Result StateFile
unfolding subject_of revoked edit
revoke_share o site name asked st = do
  subject ← subject_of o.printable asked
  edit site name (revoked subject) st

pub data Call : Type 0 where
  create : CreateRequest → Call
  update : UpdateRequest → Call
  delete disable enable : Text → Call
  grant_to : Text → Asked → Call
  revoke_from : Text → Option Subject → Call

-- The edit of a call, its refusals before the change included.
unfoldable pub edited : Outside → Site → Call → StateFile → Result StateFile
unfolding create_share update_share delete_share disable_share enable_share grant_share revoke_share
edited o site (create req) st = create_share o site req st
edited o site (update req) st = update_share site req st
edited o site (delete name) st = delete_share site name st
edited o site (disable name) st = disable_share site name st
edited o site (enable name) st = enable_share o site name st
edited o site (grant_to name asked) st = grant_share o site name asked st
edited o site (revoke_from name subject) st = revoke_share o site name subject st
