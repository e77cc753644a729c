-- ===== src/Admin/Changes/Creation.antt =====
-- What CreateShare adds to a state.
use fileshare.Prelude.{
  ℕ, ◌≡◌, refl, Bool, true, false, ◌&&◌, Option, none, some, List, [], ◌∷◌, ◌++◌, arith,
  if◌then◌else◌, any, null, index_of, index_of-none, Text,
}
use fileshare.Admin.{
  VolumeRef, Resolution, Grant, ManagedShare, StateFile, invalid, exists, Result, done, failed,
  ◌>>=◌, pure, refuse_if, named, share_index, Site, from_files,
}
use fileshare.Admin.Gives.{Gives, Gives-bind, Gives-guard, Gives-map}
use fileshare.Admin.Subjects.{grants_of}
use fileshare.Admin.Edits.{
  Outside, resolve_for, drop_name, writes, CreateRequest, Place, place_of, share_of, share_asked,
  with_volume, add_share, create_share,
}
use fileshare.Admin.Changes.Grants.{right_of}
use fileshare.Admin.Changes.Reading.{asked_right, AreAsked, grants_of_lem}
use fileshare.Admin.Changes.Rights.{IsSoundShare, IsSound, Moves, append_lem}
use fileshare.Admin.Changes.Sound.{Turns}

-- What CreateShare adds is sound, is named as asked, and has the grants that are asked for.
share_asked-Gives :
    (o : Outside) (site : Site) (req : CreateRequest)
    → Gives
        (λ m.
          IsSoundShare m
          × (m.name ≡ req.name)
          × ((t : Text) → right_of t m.grants ≡ asked_right o.printable req.grants t))
        (share_asked o site req)
unfolding share_asked
share_asked-Gives o site req =
    Gives-guard Q (null req.name) invalid (λ u. place_of o site req.source >>= with_place)
      (λ h.
        Gives-bind (λ p. Unit) Q with_place (place_of o site req.source) (anything _)
          (λ p u.
            Gives-bind (AreAsked o.printable req.grants) Q (with_grants p)
              (grants_of o.printable req.grants) (grants_of_lem o.printable req.grants)
              (λ gs (d, right, n).
                Gives-guard Q (null gs) invalid
                  (λ u. refuse_if (req.read_only && any writes gs) invalid >>= last p gs)
                  (λ filled.
                    Gives-guard Q (req.read_only && any writes gs) invalid (last p gs)
                      (λ ro. (((d, filled, n), λ e. ground arith), refl, right))))))
  where
    Q : ManagedShare → Type 0
    Q m =
        IsSoundShare m
        × (m.name ≡ req.name)
        × ((t : Text) → right_of t m.grants ≡ asked_right o.printable req.grants t)

    last : Place → List Grant → Unit {0} → Result ManagedShare
    last p gs u = pure (share_of req p gs)

    with_grants : Place → List Grant → Result ManagedShare
    with_grants p gs =
        refuse_if (null gs) invalid
        >>= (λ u. refuse_if (req.read_only && any writes gs) invalid >>= last p gs)

    with_place : Place → Result ManagedShare
    with_place p = grants_of o.printable req.grants >>= with_grants p

    anything : (r : Result Place) → Gives (λ p. Unit {0}) r
    anything (done p) = tt
    anything (failed e) = tt

add_share_lem :
    (o : Outside) (site : Site) (m : ManagedShare) (disabled : Bool) (st : StateFile)
    → IsSoundShare m
    → IsSound site st.shares
    → Turns site m.name (λ t r. right_of t m.grants) st (add_share o site m disabled st)
unfolding add_share share_index with_volume
add_share_lem o site m disabled st h s =
    Gives-guard Q (from_files site m.name) exists (λ u. next (index_of (named m.name) st.shares))
      (λ outside. after outside (index_of (named m.name) st.shares) refl)
  where
    Q : StateFile → Type 0
    Q next =
        IsSound site next.shares × Moves m.name (λ t r. right_of t m.grants) st.shares next.shares

    added : ManagedShare → Result StateFile
    added u = pure (record {
      shares = st.shares ++ (u ∷ []);
      disabled = drop_name m.name st.disabled ++ (if disabled then m.name ∷ [] else []);
    })

    next : Option ℕ → Result StateFile
    next r =
        refuse_if (elim r [ none ↦ false | some i ↦ true ]) exists
        >>= (λ u. with_volume o m >>= added)

    volume_found :
        from_files site m.name ≡ false
        → any (named m.name) st.shares ≡ false
        → (r : Result Resolution)
        → Gives Q (
            (r >>= (λ res. pure (record m { directory = res.path; resolved = some res })))
            >>= added)
    volume_found outside new (failed e) = tt
    volume_found outside new (done res) =
        append_lem site m.name (record m { directory = res.path; resolved = some res }) st.shares
          refl new outside h s

    volume_asked :
        from_files site m.name ≡ false
        → any (named m.name) st.shares ≡ false
        → (v : Option VolumeRef)
        → Gives Q (
            elim v [
              | none ↦ pure m
              | some v ↦
                  resolve_for o v
                  >>= (λ res. pure (record m { directory = res.path; resolved = some res }))
            ]
            >>= added)
    volume_asked outside new none = append_lem site m.name m st.shares refl new outside h s
    volume_asked outside new (some v) = volume_found outside new (resolve_for o v)

    after :
        from_files site m.name ≡ false
        → (r : Option ℕ) → index_of (named m.name) st.shares ≡ r
        → Gives Q (next r)
    after outside (some i) e = tt
    after outside none e = volume_asked outside (index_of-none (named m.name) st.shares e) m.volume

pub create_lem :
    (o : Outside) (site : Site) (req : CreateRequest) (st : StateFile)
    → IsSound site st.shares
    → Turns site req.name
        (λ t r. asked_right o.printable req.grants t)
        st
        (create_share o site req st)
unfolding create_share
create_lem o site req st s =
    Gives-bind
      (λ m.
        IsSoundShare m
        × (m.name ≡ req.name)
        × ((t : Text) → right_of t m.grants ≡ asked_right o.printable req.grants t))
      (Q req.name (asked_right o.printable req.grants)) (λ m. add_share o site m req.disabled st)
      (share_asked o site req) (share_asked-Gives o site req)
      (λ m (sound, same, right).
        Gives-map (Q m.name (λ t. right_of t m.grants))
          (Q req.name (asked_right o.printable req.grants)) (add_share o site m req.disabled st)
          (add_share_lem o site m req.disabled st sound s)
          (λ next (kept, moved). (kept, as_asked m next same right moved)))
  where
    Q : Text → (Text → Option Bool) → StateFile → Type 0
    Q name g next = IsSound site next.shares × Moves name (λ t r. g t) st.shares next.shares

    as_asked :
        (m : ManagedShare) (next : StateFile)
        → m.name ≡ req.name
        → ((t : Text) → right_of t m.grants ≡ asked_right o.printable req.grants t)
        → Moves m.name (λ t r. right_of t m.grants) st.shares next.shares
        → Moves req.name (λ t r. asked_right o.printable req.grants t) st.shares next.shares
    as_asked m next same right moved n t = ground (arith, moved n t, right t, same)
