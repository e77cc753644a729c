-- ===== src/Provision/Allocate.antt =====
-- service.go: which project id `allocate` gives out.
use native.Mathlib.Decide.{dec_lt}
use fileshare.Prelude.{
  ℕ, zero, suc, ◌+◌, ◌-◌, ◌≤◌, ◌<◌, ◌≡◌, ◌⊎◌, inl, inr, true, false, none, some, List, arith,
  Bool-cases, Option-cases, ℕ_eq, List_eq, contains,
}
use fileshare.Provision.{Parent, Config, resource_exhausted, refuse, Result, ok, err, Env, Store}
use fileshare.Provision.Service.{first_free, held_ids, allocate}

-- Every id of a range is held.
abbrev pub AllHeld : List ℕ → ℕ → ℕ → Type 0
AllHeld held lo hi = (x : ℕ) → lo ≤ x → x < hi → contains held x ≡ true

first_free-some :
    (n id : ℕ) (held : List ℕ) (x : ℕ)
    → first_free n id held ≡ some x
    → (id ≤ x) × (x < id + n) × (contains held x ≡ false) × AllHeld held id x
unfolding first_free
first_free-some zero id held x h = absurd (cc)
first_free-some (suc n) id held x h = elim (Bool-cases (contains held id)) [
  | inr free ↦
      let e : id ≡ x = ground arith in
      (omega arith, omega arith, rw e at free, λ y a b. absurd (omega arith))
  | inl taken ↦
      let (low, high, free, below) = first_free-some n (id + 1) held x (ground arith) in
      (
        omega arith,
        omega arith,
        free,
        λ y a b. elim (dec_lt id y) [
          | yes after ↦ below y (omega arith) b
          | no at ↦ let e : id ≡ y = omega arith in rw e at taken
        ],
      )
]

first_free-none :
    (n id : ℕ) (held : List ℕ) → first_free n id held ≡ none → AllHeld held id (id + n)
unfolding first_free
first_free-none zero id held h y a b = absurd (omega arith)
first_free-none (suc n) id held h y a b = elim (dec_lt id y) [
  | yes after ↦ first_free-none n (id + 1) held (ground arith) y (omega arith) (omega arith)
  | no at ↦ let e : id ≡ y = omega arith in ground arith
]

-- What `allocate` answers: the lowest id of the parent's range that no record holds, or that every
-- id of the range is held; the store stays as it was.
abbrev pub Allocates : {W : Type 0} → Parent → Store W → Result ℕ × Store W → Type 0
Allocates p s r =
    ((id : ℕ) × (r ≡ (ok id, s))
      × (p.lo ≤ id)
      × (id ≤ p.hi)
      × (contains (held_ids s.vols) id ≡ false)
      × AllHeld (held_ids s.vols) p.lo id)
    ⊎ ((r ≡ (err (refuse resource_exhausted), s)) × AllHeld (held_ids s.vols) p.lo (p.hi + 1))

-- `allocate` gives out the lowest id of the parent's range that no record, pending or not, holds, and
-- refuses exactly when all of them are held; the store is left alone.
pub allocate-Allocates :
    {W : Type 0} (cfg : Config) (env : Env W) (p : Parent) (s : Store W)
    → Allocates p s (allocate cfg env p s)
unfolding allocate
allocate-Allocates cfg env p s =
    let held = held_ids s.vols in
    elim (Option-cases (first_free (p.hi + 1 - p.lo) p.lo held)) [
      | inl e ↦ inr (
        rw (e, allocate),
        λ y a b. first_free-none (p.hi + 1 - p.lo) p.lo held e y a (omega arith),
      )
      | inr (id, e) ↦
          let (low, high, free, below) = first_free-some (p.hi + 1 - p.lo) p.lo held id e in
          inl (id, rw (e, allocate), low, omega arith, free, below)
    ]
