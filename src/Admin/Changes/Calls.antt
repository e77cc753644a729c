-- ===== src/Admin/Changes/Calls.antt =====
-- Each call of the API on its own: what its edit gives.
use fileshare.Prelude.{
  ℕ, ◌≡◌, refl, Bool, true, false, not, Option, none, some, List, [], ◌∷◌, ◌++◌, if◌then◌else◌,
  ◌==◌, ℕ_eq, List_eq, index_of, remove_at, Text,
}
use fileshare.Admin.{
  VolumeRef, Resolution, Grant, ManagedShare, StateFile, is_disabled, invalid, not_found,
  precondition, out_of_range, Result, done, failed, ◌>>=◌, pure, refuse_if, named, share_index,
  Site, is_defined,
}
use fileshare.Admin.Gives.{Gives, Gives-bind, Gives-guard}
use fileshare.Admin.Subjects.{
  Subject, Access, unspecified, access_read, access_write, Asked, write_of, subject_of,
}
use fileshare.Admin.Edits.{Outside, resolve_for, drop_name, managed, change_at, edit}
use fileshare.Admin.Changes.{
  UpdateRequest, updated, says_nothing, update_share, delete_share, volume_to_look_up,
  looked_up_again, look_up_again, disable_share, enable_share, granted, first_grant, grant_share,
  revoked, revoke_share,
}
use fileshare.Admin.Changes.Reading.{is_write, is_text, spelled}
use fileshare.Admin.Changes.Rights.{
  IsSoundShare, IsSound, Moves, IsChange, change_at_lem, remove_at_lem, stay_lem,
}
use fileshare.Admin.Changes.Sound.{
  Turns, managed-Gives, edit_lem, updated-IsChange, granted-IsChange, revoked-IsChange,
}

pub update_lem :
    (site : Site) (req : UpdateRequest) (st : StateFile)
    → IsSound site st.shares
    → Turns site req.name (λ t r. r) st (update_share site req st)
unfolding update_share
update_lem site req st s =
    Gives-guard (λ next. IsSound site next.shares × Moves req.name (λ t r. r) st.shares next.shares)
      (says_nothing req) invalid (λ u. edit site req.name (updated req) st)
      (λ n. edit_lem site req.name (updated req) (λ t r. r) st (updated-IsChange req) s)

pub delete_lem :
    (site : Site) (name : Text) (st : StateFile)
    → IsSound site st.shares
    → Turns site name (λ t r. none) st (delete_share site name st)
unfolding delete_share
delete_lem site name st s =
    Gives-bind (λ i. index_of (named name) st.shares ≡ some i)
      (λ next. IsSound site next.shares × Moves name (λ t r. none) st.shares next.shares)
      (λ i. pure (record { shares = remove_at i st.shares; disabled = drop_name name st.disabled }))
      (managed site st name) (managed-Gives site st name)
      (λ i e. remove_at_lem site name st.shares i e s)

-- An edit of the disabled names alone.
same_shares :
    (site : Site) (name : Text) (st : StateFile) (disabled : List Text)
    → IsSound site st.shares
    → Turns site name (λ t r. r) st (done (record st { disabled = disabled }))
same_shares site name st disabled s = (s, stay_lem site name st.shares)

pub disable_lem :
    (site : Site) (name : Text) (st : StateFile)
    → IsSound site st.shares
    → Turns site name (λ t r. r) st (disable_share site name st)
unfolding disable_share
disable_lem site name st s =
    let Q : StateFile → Type 0 =
      λ next. IsSound site next.shares × Moves name (λ t r. r) st.shares next.shares in
    let last : Unit {0} → Result StateFile =
      λ u. pure (record st { disabled = st.disabled ++ (name ∷ []) }) in
    Gives-guard Q (not (is_defined site st name)) not_found
      (λ u. refuse_if (is_disabled st name) precondition >>= last)
      (λ h.
        Gives-guard Q (is_disabled st name) precondition last
          (λ k. same_shares site name st (st.disabled ++ (name ∷ [])) s))

looked_up_again-IsChange :
    (res : Resolution) (s : ManagedShare)
    → IsSoundShare s
    → Gives (IsChange (λ t r. r) s) (looked_up_again res s)
looked_up_again-IsChange res s h = (h, refl, λ t. refl)

look_up_lem :
    (o : Outside) (site : Site) (name : Text) (v : VolumeRef) (st : StateFile)
    → IsSound site st.shares
    → Turns site name (λ t r. r) st (look_up_again o name v st)
unfolding look_up_again share_index
look_up_lem o site name v st s = after (resolve_for o v)
  where
    at :
        (res : Resolution) (r : Option ℕ)
        → index_of (named name) st.shares ≡ r
        → Turns site name
            (λ t r. r)
            st
            (elim r [
              | none ↦ failed out_of_range
              | some i ↦ change_at (looked_up_again res) i st.shares >>= (λ shares.
                  pure (record { shares = shares; disabled = drop_name name st.disabled }))
            ])
    at res none e = tt
    at res (some i) e =
        Gives-bind (λ next. IsSound site next × Moves name (λ t r. r) st.shares next)
          (λ next. IsSound site next.shares × Moves name (λ t r. r) st.shares next.shares)
          (λ shares. pure (record { shares = shares; disabled = drop_name name st.disabled }))
          (change_at (looked_up_again res) i st.shares)
          (change_at_lem site name (looked_up_again res) (λ t r. r) st.shares i
            (looked_up_again-IsChange res) e s)
          (λ next h. h)

    after :
        (r : Result Resolution)
        → Turns site name
            (λ t r. r)
            st
            (r >>= (λ res. elim (index_of (named name) st.shares) [
              | none ↦ failed out_of_range
              | some i ↦ change_at (looked_up_again res) i st.shares >>= (λ shares.
                  pure (record { shares = shares; disabled = drop_name name st.disabled }))
            ]))
    after (failed e) = tt
    after (done res) = at res (index_of (named name) st.shares) refl

pub enable_lem :
    (o : Outside) (site : Site) (name : Text) (st : StateFile)
    → IsSound site st.shares
    → Turns site name (λ t r. r) st (enable_share o site name st)
unfolding enable_share
enable_lem o site name st s =
    Gives-guard Q (not (is_defined site st name)) not_found (λ u. back (volume_to_look_up st name))
      (λ h. back-Gives (volume_to_look_up st name))
  where
    Q : StateFile → Type 0
    Q next = IsSound site next.shares × Moves name (λ t r. r) st.shares next.shares

    last : Unit {0} → Result StateFile
    last u = pure (record st { disabled = drop_name name st.disabled })

    back : Option VolumeRef → Result StateFile
    back (some v) = look_up_again o name v st
    back none = refuse_if (not (is_disabled st name)) precondition >>= last

    back-Gives : (v : Option VolumeRef) → Gives Q (back v)
    back-Gives (some v) = look_up_lem o site name v st s
    back-Gives none =
        Gives-guard Q (not (is_disabled st name)) precondition last
          (λ k. same_shares site name st (drop_name name st.disabled) s)

pub revoke_lem :
    (o : Outside) (site : Site) (name : Text) (asked : Option Subject) (st : StateFile)
    → IsSound site st.shares
    → Turns site name
        (λ t r. if spelled o.printable asked t then none else r)
        st
        (revoke_share o site name asked st)
unfolding revoke_share
revoke_lem o site name asked st s = after (subject_of o.printable asked)
  where
    after :
        (r : Result Text)
        → Turns site name
            (λ t old. if is_text t r then none else old)
            st
            (r >>= (λ v. edit site name (revoked v) st))
    after (failed e) = tt
    after (done v) =
        edit_lem site name (revoked v) (λ t r. if v == t then none else r) st (revoked-IsChange v) s

pub grant_lem :
    (o : Outside) (site : Site) (name : Text) (asked : Asked) (st : StateFile)
    → IsSound site st.shares
    → Turns site name
        (λ t r. if spelled o.printable asked.subject t then some (is_write asked.access) else r)
        st
        (grant_share o site name asked st)
unfolding grant_share
grant_lem o site name asked st s = after (subject_of o.printable asked.subject) asked.access
  where
    next : List Grant → Result StateFile
    next gs = first_grant gs >>= (λ g. edit site name (granted g) st)

    one :
        (v : Text) (w : Bool)
        → Turns site name
            (λ t r. if v == t then some w else r)
            st
            (next (record { subject = v; write = w } ∷ []))
    one v w =
        edit_lem site name (granted (record { subject = v; write = w }))
          (λ t r. if v == t then some w else r) st (granted-IsChange v w) s

    after :
        (r : Result Text) (a : Access)
        → Turns site name
            (λ t old. if is_text t r then some (is_write a) else old)
            st
            ((r >>= (λ v. write_of a >>= (λ w. pure (record { subject = v; write = w } ∷ []))))
              >>= next)
    after (failed e) a = tt
    after (done v) unspecified = tt
    after (done v) access_read = one v false
    after (done v) access_write = one v true
