-- ===== src/Access/Share/Drivers.antt =====
-- Which closers run when a list of shares is let go of.
use mathlib.Core.List.Memᴰ
use fileshare.Prelude.{
  ℕ, ◌≡◌, refl, ◌≢◌, ◌↔◌, inl, inr, false, List, [], ◌∷◌, Memᴰ, arith, Bool-cases, ◌==◌, ℕ_eq,
  List_eq, any, All,
}
use fileshare.Access.Share.{Share, release}

-- No share of the list serves this driver.
abbrev pub IsFree : List Share → ℕ → Type 0
IsFree keep fsys = All (λ k. k.fsys ≢ fsys) keep

IsFree-of_any : (keep : List Share) (f : ℕ) → any (λ k. k.fsys == f) keep ≡ false → IsFree keep f
IsFree-of_any [] f h = tt
IsFree-of_any (k ∷ keep) f h = ground (arith, IsFree-of_any keep f)

any_of_IsFree : (keep : List Share) (f : ℕ) → IsFree keep f → any (λ k. k.fsys == f) keep ≡ false
any_of_IsFree [] f h = refl
any_of_IsFree (k ∷ keep) f h = ground (arith, any_of_IsFree keep f h.1)

-- Letting go of a list against another runs exactly the closers that some share of the list owns
-- whose driver no share of the other list still serves.
pub release_iff :
    (shares keep : List Share) (c : ℕ)
    → Memᴰ c (release shares keep)
      ↔ ((s : Share) × Memᴰ s shares × Memᴰ c s.closers × IsFree keep s.fsys)
unfolding release
release_iff shares keep c = (to shares, λ h. from shares h.0 h.1 h.2 h.3)
  where
    to :
        (shares : List Share)
        → Memᴰ c (release shares keep)
        → (s : Share) × Memᴰ s shares × Memᴰ c s.closers × IsFree keep s.fsys
    to [] m = elim m [ ]
    to (sh ∷ shares) m = elim (Bool-cases (any (λ k. k.fsys == sh.fsys) keep)) [
      | inl e ↦
          let (s, ms, mc, free) = to shares (rw (e, release) at m) in (s, Memᴰ.tail ms, mc, free)
      | inr e ↦ elim (Memᴰ.append_cases sh.closers (rw (e, release) at m)) [
        | inl here ↦ (sh, Memᴰ.head refl, here, IsFree-of_any keep sh.fsys e)
        | inr later ↦ let (s, ms, mc, free) = to shares later in (s, Memᴰ.tail ms, mc, free)
      ]
    ]

    from :
        (shares : List Share) (s : Share)
        → Memᴰ s shares
        → Memᴰ c s.closers
        → IsFree keep s.fsys
        → Memᴰ c (release shares keep)
    from [] s m mc free = elim m [ ]
    from (sh ∷ shares) s (Memᴰ.head e) mc free =
        let here : Memᴰ c sh.closers = rw e at mc in
        let freed : IsFree keep sh.fsys = rw e at free in
        rw (any_of_IsFree keep sh.fsys freed, release) (Memᴰ.append_left (release shares keep) here)
    from (sh ∷ shares) s (Memᴰ.tail m) mc free =
        let later = from shares s m mc free in
        elim (Bool-cases (any (λ k. k.fsys == sh.fsys) keep)) [
          | inl e ↦ rw (e, release) later
          | inr e ↦ rw (e, release) (Memᴰ.append_right sh.closers later)
        ]
