-- ===== src/Admin/Changes/Refines.antt =====
-- The edits of admin_grpc.go against the map of rights: the share that a call names, and what its
-- request says of a right on it.
use fileshare.Prelude.{
  ◌≡◌, Bool, Option, none, some, if◌then◌else◌, ℕ_eq, List_eq, Text, equal_fold,
}
use fileshare.Admin.{StateFile, done, Site}
use fileshare.Admin.Gives.{Gives-done}
use fileshare.Admin.Subjects.{}
use fileshare.Admin.Edits.{Outside}
use fileshare.Admin.Changes.{
  Call, create, update, delete, disable, enable, grant_to, revoke_from, edited,
}
use fileshare.Admin.Changes.Grants.{}
use fileshare.Admin.Changes.Reading.{is_write, spelled, asked_right}
use fileshare.Admin.Changes.Rights.{right_at, IsSound, Moves}
use fileshare.Admin.Changes.Sound.{Turns}
use fileshare.Admin.Changes.Creation.{create_lem}
use fileshare.Admin.Changes.Calls.{
  update_lem, delete_lem, disable_lem, enable_lem, revoke_lem, grant_lem,
}

-- The share that a call names.
abbrev pub target : Call → Text
target (create req) = req.name
target (update req) = req.name
target (delete name) = name
target (disable name) = name
target (enable name) = name
target (grant_to name g) = name
target (revoke_from name s) = name

-- What a call makes of a right on its share.
abbrev pub effect : (Text → Bool) → Call → Text → Option Bool → Option Bool
effect printable (create req) t r = asked_right printable req.grants t
effect printable (update req) t r = r
effect printable (delete name) t r = none
effect printable (disable name) t r = r
effect printable (enable name) t r = r
effect printable (grant_to name g) t r =
    if spelled printable g.subject t then some (is_write g.access) else r
effect printable (revoke_from name s) t r = if spelled printable s t then none else r

pub edited-Turns :
    (o : Outside) (site : Site) (c : Call) (st : StateFile)
    → IsSound site st.shares
    → Turns site (target c) (effect o.printable c) st (edited o site c st)
unfolding edited
edited-Turns o site (create req) st s = create_lem o site req st s
edited-Turns o site (update req) st s = update_lem site req st s
edited-Turns o site (delete name) st s = delete_lem site name st s
edited-Turns o site (disable name) st s = disable_lem site name st s
edited-Turns o site (enable name) st s = enable_lem o site name st s
edited-Turns o site (grant_to name asked) st s = grant_lem o site name asked st s
edited-Turns o site (revoke_from name subject) st s = revoke_lem o site name subject st s

-- Seen as a map from shares and subjects to rights, a sound state after an edit that was not
-- refused is the one before it with the rights of the share that the call names changed as its
-- request says: those of CreateShare are the grants asked for, DeleteShare leaves none, Grant sets
-- its subject's, Revoke takes its subject's away, and the other calls change none.
pub edited-effect :
    (o : Outside) (site : Site) (c : Call) (st next : StateFile) (n t : Text)
    → IsSound site st.shares
    → edited o site c st ≡ done next
    → right_at next.shares n t ≡ (
        if equal_fold (target c) n
        then effect o.printable c t (right_at st.shares n t)
        else right_at st.shares n t)
edited-effect o site c st next n t s e =
    (Gives-done
        (λ x. IsSound site x.shares × Moves (target c) (effect o.printable c) st.shares x.shares)
        (edited o site c st) next (edited-Turns o site c st s) e).1
      n t
