-- ===== src/Access/Share/Exports.antt =====
-- protocol.go: which shares a protocol carries.
use fileshare.Prelude.{
  ◌≡◌, refl, ◌≢◌, ◌⊎◌, inl, inr, true, false, Option, List, [], ◌∷◌, Memᴰ, arith, Bool-cases, ℕ_eq,
  List_eq, All, contains,
}
use fileshare.Access.Principal.{Principal}
use fileshare.Access.Principal.Matching.{contains_iff}
use fileshare.Access.Share.{
  Share, restricted, may_use, read_only_for, Protocol, Deployment, can_authenticate,
  identity_protocol, Verdict, served, refused, skipped, verdict, add_to, exports,
}

-- What `exports` keeps: over a protocol that cannot tell people apart, only shares that anybody may
-- use, with the one view the share itself has; of the shares served as their people, only those that
-- go over a protocol for it; and no share that names its protocols without this one.
abbrev pub IsCarried : Protocol → Option Deployment → Share → Type 0
IsCarried p c s =
    ((can_authenticate p c ≡ true)
      ⊎ ((q : Principal) → (may_use s q ≡ true) × (read_only_for s q ≡ s.read_only)))
    × ((s.system ≡ false) ⊎ (identity_protocol p.name ≡ true))
    × ((s.protocols ≡ []) ⊎ Memᴰ p.name s.protocols)

verdict_served :
    (p : Protocol) (c : Option Deployment) (s : Share) → verdict p c s ≡ served → IsCarried p c s
unfolding verdict may_use read_only_for
verdict_served p c s h = (who, ground arith, named)
  where
    who :
        (can_authenticate p c ≡ true)
        ⊎ ((q : Principal) → (may_use s q ≡ true) × (read_only_for s q ≡ s.read_only))
    who = elim (Bool-cases (can_authenticate p c)) [
      | inl e ↦ inl e
      | inr e ↦ inr (λ q. (ground arith, ground arith))
    ]

    named : (s.protocols ≡ []) ⊎ Memᴰ p.name s.protocols
    named = elim (Bool-cases (contains s.protocols p.name)) [
      | inl e ↦ inr ((contains_iff s.protocols p.name).0 e)
      | inr e ↦ inl (ground arith)
    ]

add_to-served :
    (p : Protocol) (c : Option Deployment) (s : Share) (lists : List Share × List Share)
    (v : Verdict)
    → verdict p c s ≡ v
    → All (IsCarried p c) lists.0
    → All (IsCarried p c) (add_to v s lists).0
add_to-served p c s lists served e h = (verdict_served p c s e, h)
add_to-served p c s lists refused e h = h
add_to-served p c s lists skipped e h = h

-- Every share that a protocol serves is one it may carry: either the protocol can tell people apart,
-- or every principal may use the share and sees it as read-only exactly when the share is; it is
-- served as its people over a protocol for that only; and it does not name other protocols only.
pub exports_served :
    (p : Protocol) (c : Option Deployment) (shares : List Share)
    → All (IsCarried p c) (exports p c shares).0
unfolding exports
exports_served p c [] = tt
exports_served p c (s ∷ shares) =
    add_to-served p c s (exports p c shares) (verdict p c s) refl (exports_served p c shares)

-- Why a share is refused: it names somebody and the protocol cannot tell people apart, or it is
-- served as its people and the protocol cannot do that.
abbrev pub IsRefusable : Protocol → Option Deployment → Share → Type 0
IsRefusable p c s =
    ((can_authenticate p c ≡ false) × (restricted s ≡ true))
    ⊎ ((s.system ≡ true) × (identity_protocol p.name ≡ false))

abbrev pub IsPlaced : Protocol → Option Deployment → List Share × List Share → Share → Type 0
IsPlaced p c lists s =
    Memᴰ s lists.0
    ⊎ (Memᴰ s lists.1 × IsRefusable p c s)
    ⊎ ((s.protocols ≢ []) × (contains s.protocols p.name ≡ false))

add_to-here :
    (p : Protocol) (c : Option Deployment) (s : Share) (lists : List Share × List Share)
    (v : Verdict)
    → verdict p c s ≡ v
    → IsPlaced p c (add_to v s lists) s
unfolding verdict
add_to-here p c s lists served e = inl (Memᴰ.head refl)
add_to-here p c s lists refused e = inr (inl (Memᴰ.head refl, ground arith))
add_to-here p c s lists skipped e = inr (inr (ground arith))

add_to-later :
    (p : Protocol) (c : Option Deployment) (s t : Share) (lists : List Share × List Share)
    (v : Verdict)
    → IsPlaced p c lists s
    → IsPlaced p c (add_to v t lists) s
add_to-later p c s t lists served (inl m) = inl (Memᴰ.tail m)
add_to-later p c s t lists refused (inl m) = inl m
add_to-later p c s t lists skipped (inl m) = inl m
add_to-later p c s t lists served (inr (inl h)) = inr (inl h)
add_to-later p c s t lists refused (inr (inl h)) = inr (inl (Memᴰ.tail h.0, h.1))
add_to-later p c s t lists skipped (inr (inl h)) = inr (inl h)
add_to-later p c s t lists served (inr (inr h)) = inr (inr h)
add_to-later p c s t lists refused (inr (inr h)) = inr (inr h)
add_to-later p c s t lists skipped (inr (inr h)) = inr (inr h)

-- No share is lost: each is served, or is refused for one of the two reasons, or names its protocols
-- without this one.
pub exports_complete :
    (p : Protocol) (c : Option Deployment) (shares : List Share) (s : Share)
    → Memᴰ s shares
    → IsPlaced p c (exports p c shares) s
unfolding exports
exports_complete p c [] s m = elim m [ ]
exports_complete p c (t ∷ shares) s (Memᴰ.head e) =
    rw e (add_to-here p c t (exports p c shares) (verdict p c t) refl)
exports_complete p c (t ∷ shares) s (Memᴰ.tail m) =
    add_to-later p c s t (exports p c shares) (verdict p c t) (exports_complete p c shares s m)
