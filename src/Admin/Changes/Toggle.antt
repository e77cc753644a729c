-- ===== src/Admin/Changes/Toggle.antt =====
-- setDisabled of admin_grpc.go, one way and back.
use fileshare.Prelude.{
  ◌≡◌, refl, sym, ap, ◌∙◌, subst, inl, inr, true, false, none, List, [], ◌∷◌, ◌++◌, arith,
  Bool-cases, ℕ_eq, list_eq_iff, List_eq, any, Text, to_lower, equal_fold,
}
use fileshare.Admin.{StateFile, is_disabled, precondition, refused, done, failed, Site, is_defined}
use fileshare.Admin.Edits.{Outside, drop_name}
use fileshare.Admin.Changes.{volume_to_look_up, disable_share, enable_share}

disabled_once :
    (site : Site) (name : Text) (st next : StateFile)
    → disable_share site name st ≡ done next
    → (is_defined site st name ≡ true)
      × (is_disabled st name ≡ false)
      × (next ≡ record st { disabled = st.disabled ++ (name ∷ []) })
unfolding disable_share
disabled_once site name st next h = elim (Bool-cases (is_defined site st name)) [
  | inr e ↦ absurd (ground arith)
  | inl e ↦ elim (Bool-cases (is_disabled st name)) [
    | inl f ↦ absurd (ground arith)
    | inr f ↦ (e, f, ground arith)
  ]
]

equal_fold_self : (name : Text) → equal_fold name name ≡ true
equal_fold_self name = (list_eq_iff (to_lower name) (to_lower name)).1 refl

drop_name-append :
    (name : Text) (disabled : List Text)
    → any (λ d. equal_fold d name) disabled ≡ false
    → drop_name name (disabled ++ (name ∷ [])) ≡ disabled
drop_name-append name [] h = ground (arith, equal_fold_self name)
drop_name-append name (d ∷ disabled) h = ground (arith, drop_name-append name disabled)

off_now :
    (name : Text) (disabled : List Text)
    → any (λ d. equal_fold d name) (disabled ++ (name ∷ [])) ≡ true
off_now name [] = ground (arith, equal_fold_self name)
off_now name (d ∷ disabled) = ground (arith, off_now name disabled)

enabled_as :
    (o : Outside) (site : Site) (name : Text) (x : StateFile)
    → is_defined site x name ≡ true
    → is_disabled x name ≡ true
    → volume_to_look_up x name ≡ none
    → enable_share o site name x ≡ done (record x { disabled = drop_name name x.disabled })
unfolding enable_share
enabled_as o site name x d off v = rw (d, v, off) refl

refused_again :
    (site : Site) (name : Text) (x : StateFile)
    → is_defined site x name ≡ true
    → is_disabled x name ≡ true
    → disable_share site name x ≡ failed (refused precondition)
unfolding disable_share
refused_again site name x d off = rw (d, off) refl

-- A share without a volume to look up that is taken offline and brought back leaves the state as it
-- was; in between it is disabled, and the same share cannot be taken offline again.
pub enable_share-disable_share :
    (o : Outside) (site : Site) (name : Text) (st next : StateFile)
    → disable_share site name st ≡ done next
    → volume_to_look_up next name ≡ none
    → (enable_share o site name next ≡ done st)
      × (is_disabled next name ≡ true)
      × (disable_share site name next ≡ failed (refused precondition))
unfolding is_defined is_disabled
enable_share-disable_share o site name st next h v =
    let (d, n, e) = disabled_once site name st next h in
    subst Undone (sym e) (back d n (subst (λ x. volume_to_look_up x name ≡ none) e v))
  where
    off : StateFile
    off = record st { disabled = st.disabled ++ (name ∷ []) }

    Undone : StateFile → Type 0
    Undone x =
        (enable_share o site name x ≡ done st)
        × (is_disabled x name ≡ true)
        × (disable_share site name x ≡ failed (refused precondition))

    back :
        is_defined site st name ≡ true
        → is_disabled st name ≡ false
        → volume_to_look_up off name ≡ none
        → Undone off
    back d n w =
        let gone : is_disabled off name ≡ true = off_now name st.disabled in
        (
          enabled_as o site name off d gone w
              ∙ ap (λ ds. done (record st { disabled = ds })) (drop_name-append name st.disabled n),
          gone,
          refused_again site name off d gone,
        )
