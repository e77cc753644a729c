-- ===== src/Provision/Owners.antt =====
-- config.go and service.go: what a project id tells of its volume, where the parents were checked to
-- stand apart.
use fileshare.Prelude.{
  ℕ, ◌≤◌, ◌≡◌, sym, ◌∙◌, subst, ◌≢◌, inl, inr, Bool, true, false, some, List, [], ◌∷◌, Memᴰ, arith,
  Bool-cases, ◌==◌, ℕ_eq, list_eq_iff, List_eq, all, find_first, All, Text,
}
use fileshare.Provision.{Record, Parent, Config, Env}
use fileshare.Provision.Service.{find_parent}
use fileshare.Provision.Apart.{may_stand_by, check_apart}
use fileshare.Provision.Setup.{}
use fileshare.Provision.Keeps.{InRange}
use fileshare.Provision.Calls.{Event, run, run-IsSound}

-- A project id that may be given out by a parent.
abbrev InSpan : Parent → ℕ → Type 0
InSpan p x = (p.lo ≤ x) × (x ≤ p.hi)

ranges_meet-shared :
    (a b : Parent) (x : ℕ) → x ≢ 0 → InSpan a x → InSpan b x → may_stand_by a b ≡ false
unfolding may_stand_by
ranges_meet-shared a b x positive ia ib = ground arith

all-at :
    {A : Type 0} (t : A → Bool) (xs : List A) (x : A) → all t xs ≡ true → Memᴰ x xs → t x ≡ true
all-at t [] x h m = elim m [ ]
all-at t (y ∷ ys) x h (Memᴰ.head e) = ground arith
all-at t (y ∷ ys) x h (Memᴰ.tail m) = all-at t ys x (ground arith) m

-- Parents that passed the check and may both give out one project id are one parent.
check_apart-same :
    (files : List Text) (ps : List Parent) (p q : Parent) (x : ℕ)
    → check_apart files ps ≡ true
    → x ≢ 0
    → Memᴰ p ps
    → Memᴰ q ps
    → InSpan p x
    → InSpan q x
    → p ≡ q
unfolding check_apart
check_apart-same files [] p q x h z mp mq ip iq = elim mp [ ]
check_apart-same files (a ∷ ps) p q x h z (Memᴰ.head e) (Memᴰ.head f) ip iq = e ∙ sym f
check_apart-same files (a ∷ ps) p q x h z (Memᴰ.head e) (Memᴰ.tail m) ip iq =
    let apart = all-at (λ b. may_stand_by a b) ps q (ground arith) m in
    absurd (ground (arith, ranges_meet-shared a q x z (subst (λ r. InSpan r x) e ip) iq))
check_apart-same files (a ∷ ps) p q x h z (Memᴰ.tail m) (Memᴰ.head f) ip iq =
    let apart = all-at (λ b. may_stand_by a b) ps p (ground arith) m in
    absurd (ground (arith, ranges_meet-shared a p x z (subst (λ r. InSpan r x) f iq) ip))
check_apart-same files (a ∷ ps) p q x h z (Memᴰ.tail m) (Memᴰ.tail n) ip iq =
    check_apart-same files ps p q x (ground arith) z m n ip iq

find_first-Mem :
    (id : Text) (ps : List Parent) (p : Parent)
    → find_first (λ q. q.id == id) ps ≡ some p
    → Memᴰ p ps × (p.id ≡ id)
find_first-Mem id [] p h = absurd (cc)
find_first-Mem id (q ∷ qs) p h = elim (Bool-cases (q.id == id)) [
  | inl e ↦
      let same : q ≡ p = ground arith in
      (Memᴰ.head (sym same), rw same at ((list_eq_iff q.id id).0 e))
  | inr e ↦ let (m, named) = find_first-Mem id qs p (ground arith) in (Memᴰ.tail m, named)
]

All-at : (P : Record → Type 0) (xs : List Record) (r : Record) → All P xs → Memᴰ r xs → P r
All-at P [] r h m = elim m [ ]
All-at P (x ∷ xs) r h (Memᴰ.head e) = subst P (sym e) h.0
All-at P (x ∷ xs) r h (Memᴰ.tail m) = All-at P xs r h.1 m

-- In a configuration whose parents passed `checkApart`, after any sequence of calls from an empty
-- state, a record that has a project id lying in the range of a configured parent is a volume of that
-- parent: a project id tells whose it is.
pub run-owner :
    {W : Type 0} (cfg : Config) (env : Env W) (files : List Text) (es : List (Event W)) (w : W)
    (r : Record) (q : Parent)
    → check_apart files cfg.parents ≡ true
    → Memᴰ r (run cfg env es (record { vols = []; disk = []; world = w })).vols
    → Memᴰ q cfg.parents
    → r.project_id ≢ 0
    → q.lo ≤ r.project_id
    → r.project_id ≤ q.hi
    → q.id ≡ r.parent
unfolding find_parent
run-owner cfg env files es w r q apart m mq some_id low high =
    elim (All-at (InRange cfg) _ r (run-IsSound cfg env es w).1 m) [
      | inl z ↦ absurd (some_id z)
      | inr (p, found, lo, hi) ↦
          let (mp, named) = find_first-Mem r.parent cfg.parents p found in
          let same =
            check_apart-same files cfg.parents p q r.project_id apart some_id mp mq (lo, hi)
              (low, high) in
          subst (λ x. x.id ≡ r.parent) same named
    ]
