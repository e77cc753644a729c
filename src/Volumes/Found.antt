-- ===== src/Volumes/Found.antt =====
-- What a start finds of the volumes of its shares (volume_grpc.go).
use fileshare.Prelude.{
  sym, subst, Memᴰ, All-imply, ◌≡◌, refl, ◌⊎◌, inl, inr, true, false, Option, none, some, List, [],
  ◌∷◌, Bool-cases, ℕ_eq, List_eq, null, All, Text, to_lower,
}
use fileshare.Admin.{VolumeRef, Resolution, ManagedShare}
use fileshare.Volumes.{Kernel, Checked, fit, unfit, check_volume}
use fileshare.Volumes.Fit.{IsFit, check_volume-IsFit}
use fileshare.Volumes.Resolve.{
  client_at, in_hand, resolve_from, Volume, Answer, gives, fails, VolumeService, found_of,
  Provisioner, not_named, no_dial, dialled, Words, checked_at_start, answer_at_start,
  resolve_at_start,
}

-- A resolution with a path comes from a volume that the provisioner was asked for and described, and
-- that is fit to be served at that path.
abbrev pub Served : Kernel → List Text → Provisioner → VolumeRef → Resolution → Type 0
Served s roots p ref r =
    (c : VolumeService) × (v : Volume) × (p ≡ dialled c)
    × (c.get ref ≡ gives v)
    × IsFit s roots (found_of ref v) r.path

resolve_at_start-Served :
    (s : Kernel) (w : Words) (roots : List Text) (p : Provisioner) (ref : VolumeRef)
    → null (resolve_at_start s w roots p ref).path ≡ false
    → Served s roots p ref (resolve_at_start s w roots p ref)
unfolding resolve_at_start
resolve_at_start-Served s w roots not_named ref h = absurd (cc)
resolve_at_start-Served s w roots (no_dial why) ref h = absurd (cc)
resolve_at_start-Served s w roots (dialled c) ref h = answered (c.get ref) refl h
  where
    checked :
        (v : Volume)
        → c.get ref ≡ gives v
        → (o : Checked) → check_volume s roots (found_of ref v) ≡ o
        → null (checked_at_start w ref v o).path ≡ false
        → Served s roots (dialled c) ref (checked_at_start w ref v o)
    checked v g (unfit e) q h = absurd (cc)
    checked v g (fit path) q h = (c, v, refl, g, check_volume-IsFit s roots (found_of ref v) path q)

    answered :
        (a : Answer Volume)
        → c.get ref ≡ a
        → null (answer_at_start s w roots ref a).path ≡ false
        → Served s roots (dialled c) ref (answer_at_start s w roots ref a)
    answered (fails e) g h = absurd (cc)
    answered (gives v) g h = checked v g (check_volume s roots (found_of ref v)) refl h

-- What is found for one of these shares: no path to serve, or one of its own volume, of a provisioner
-- that dialling came to in this start.
abbrev pub IsFound :
    Kernel
    → List Text
    → (ManagedShare → Provisioner)
    → List ManagedShare
    → Text × Resolution
    → Type 0
IsFound s roots dials ms (name, r) =
    (null r.path ≡ true)
    ⊎ ((m : ManagedShare) × (ref : VolumeRef) × Memᴰ m ms
        × (name ≡ to_lower m.name)
        × (m.volume ≡ some ref)
        × ((n : ManagedShare) × Served s roots (dials n) ref r))

later-IsFound :
    {s : Kernel} {roots : List Text} {dials : ManagedShare → Provisioner} (m : ManagedShare)
    (ms : List ManagedShare) (e : Text × Resolution)
    → IsFound s roots dials ms e
    → IsFound s roots dials (m ∷ ms) e
later-IsFound m ms e (inl none_there) = inl none_there
later-IsFound m ms e (inr (k, ref, at, named, has, found)) =
    inr (k, ref, Memᴰ.tail at, named, has, found)

-- The client in hand came of dialling for some share.
unfoldable pub IsDialled : (ManagedShare → Provisioner) → Option VolumeService → Type 0
IsDialled dials none = Unit
IsDialled dials (some c) = (n : ManagedShare) × (dials n ≡ dialled c)

client_at-dials :
    (dials : ManagedShare → Provisioner) (c : Option VolumeService) (m : ManagedShare)
    → IsDialled dials c
    → (n : ManagedShare) × (dials n ≡ client_at dials c m)
unfolding IsDialled
client_at-dials dials none m h = (m, refl)
client_at-dials dials (some c) m h = h

in_hand-IsDialled :
    (dials : ManagedShare → Provisioner) (p : Provisioner)
    → (n : ManagedShare) × (dials n ≡ p)
    → IsDialled dials (in_hand p)
unfolding IsDialled
in_hand-IsDialled dials not_named h = tt
in_hand-IsDialled dials (no_dial why) h = tt
in_hand-IsDialled dials (dialled c) h = h

pub resolve_from-IsFound :
    (s : Kernel) (w : Words) (roots : List Text) (dials : ManagedShare → Provisioner)
    (c : Option VolumeService) (ms : List ManagedShare)
    → IsDialled dials c
    → All (IsFound s roots dials ms) (resolve_from s w roots dials c ms)
unfolding resolve_from
resolve_from-IsFound s w roots dials c [] h = tt
resolve_from-IsFound s w roots dials c (m ∷ ms) h =
    made (λ d k. resolve_from-IsFound s w roots dials d ms k) m.volume refl
  where
    p : Provisioner
    p = client_at dials c m

    weakened :
        (found : List (Text × Resolution))
        → All (IsFound s roots dials ms) found
        → All (IsFound s roots dials (m ∷ ms)) found
    weakened found =
        All-imply (IsFound s roots dials ms) (IsFound s roots dials (m ∷ ms)) found
          (later-IsFound m ms)

    entry :
        (ref : VolumeRef)
        → m.volume ≡ some ref
        → IsFound s roots dials (m ∷ ms) (to_lower m.name, resolve_at_start s w roots p ref)
    entry ref v = elim (Bool-cases (null (resolve_at_start s w roots p ref).path)) [
      | inl e ↦ inl e
      | inr e ↦
          let (n, came) = client_at-dials dials c m h in
          inr (
            m,
            ref,
            Memᴰ.head refl,
            refl,
            v,
            (
              n,
              subst (λ q. Served s roots q ref (resolve_at_start s w roots p ref)) (sym came)
                  (resolve_at_start-Served s w roots p ref e),
            ),
          )
    ]

    made :
        ((d : Option VolumeService)
          → IsDialled dials d
          → All (IsFound s roots dials ms) (resolve_from s w roots dials d ms))
        → (o : Option VolumeRef) → m.volume ≡ o
        → All (IsFound s roots dials (m ∷ ms)) (elim o [
          | none ↦ resolve_from s w roots dials c ms
          | some ref ↦
              (to_lower m.name, resolve_at_start s w roots p ref)
              ∷ resolve_from s w roots dials (in_hand p) ms
        ])
    made rest none v = weakened (resolve_from s w roots dials c ms) (rest c h)
    made rest (some ref) v = (
      entry ref v,
      weakened (resolve_from s w roots dials (in_hand p) ms)
          (rest (in_hand p) (in_hand-IsDialled dials p (client_at-dials dials c m h))),
    )
