-- ===== src/Provision/Sound.antt =====
-- service.go: the records stay sound through any calls.
use fileshare.Prelude.{
  ℕ, ◌≤◌, ◌≡◌, refl, sym, subst, ◌⊎◌, inl, inr, Option, none, some, List, [], ◌∷◌, arith,
  Bool-cases, Option-cases, ◌==◌, ℕ_eq, list_eq_iff, List_eq, find_first, Text,
}
use fileshare.Provision.{
  Record, Parent, Config, Err, refuse, absent, not_ours, no_space, fault, Result, ok, err, Env,
  Store, M, ◌>>=◌, ◌>>◌, pure, look, change, find, put, remove,
}
use fileshare.Provision.Service.{
  find_parent, parent_of, backend_of, target, save, undo_with, or_undo, ownership, probe, finish,
  adopt_found, project_for, start_with, fresh, start_new, create_at, create,
}
use fileshare.Provision.Service.Names.{is_name}
use fileshare.Provision.Changes.{owned_record, checked, recorded}
use fileshare.Provision.Records.{
  Unheld, put-IsDistinct, put-All, put-Has, Unheld-zero, find-Has, contains-Unheld,
}
use fileshare.Provision.Keeps.{
  InRange, IsSound, Holds, Keeps, Takes, Takes-bind, Keeps-bind, Keeps-fail, Keeps-look, Keeps-ask,
  Keeps-change, Takes-if, Keeps-if-bind, Keeps-assoc, keeps, save-Keeps, ownership-Keeps,
  check_quota-Keeps, check_room-Keeps,
}
use fileshare.Provision.Allocate.{allocate-Allocates}
use fileshare.Provision.Invariant.{Holds-Drops, finish-Keeps}

found_parent :
    (id : Text) (ps : List Parent) (p : Parent)
    → find_first (λ q. q.id == id) ps ≡ some p
    → p.id ≡ id
found_parent id [] p h = absurd (cc)
found_parent id (q ∷ qs) p h = elim (Bool-cases (q.id == id)) [
  | inl e ↦ let same : q ≡ p = ground arith in rw same at ((list_eq_iff q.id id).0 (ground arith))
  | inr e ↦ found_parent id qs p (ground arith)
]

pub find_parent-id :
    (cfg : Config) (id : Text) (p : Parent)
    → find_parent cfg id ≡ some p
    → find_parent cfg p.id ≡ some p
unfolding find_parent
find_parent-id cfg id p h =
    let e = found_parent id cfg.parents p h in subst (λ i. find_parent cfg i ≡ some p) (sym e) h

module _ {W : Type 0} (cfg : Config) (env : Env W) where
  -- A request that names a parent of the configuration, or is refused.
  pub parent_of-Takes :
      {I : List Record → Type 0} {B : Type 0} (id : Text) (f : Parent → M W B)
      → ((p : Parent) → find_parent cfg p.id ≡ some p → Keeps I (f p))
      → Keeps I (parent_of cfg env id >>= f)
  unfolding parent_of
  parent_of-Takes id f k = elim (Option-cases (find_parent cfg id)) [
    | inl e ↦ rw (e, parent_of) (Keeps-fail _)
    | inr (p, e) ↦
        rw (e, parent_of) (record { at = λ s i. (k p (find_parent-id cfg id p e)).at s i })
  ]

  -- A record that is found is kept as the only one of its volume.
  pub find-Takes :
      {B : Type 0} (k n : Text) (f : Option Record → M W B)
      → Takes (λ xs. IsSound cfg xs × (find k n xs ≡ none)) (IsSound cfg) (f none)
      → ((r : Record) → Keeps (Holds cfg r.parent r.name r.project_id) (f (some r)))
      → Keeps (IsSound cfg) (look (λ s. find k n s.vols) >>= f)
  find-Takes k n f h c = record {
    at = λ s i. elim (Option-cases (find k n s.vols)) [
      | inl e ↦ rw e (h.from s (i, e))
      | inr (r, e) ↦
          let (pe, ne, has) = find-Has k n s.vols r e i.0 in
          rw e (((c r).at s (record { sound = i; has = has })).sound)
    ];
  }

  undone :
      {I : List Record → Type 0} (back : M W (Unit {0}))
      → Keeps I back
      → (r : Result (Unit {0}) × Store W) → I r.1.vols
      → I (undo_with cfg env back r).1.vols
  undone back b (ok u, s) i = i
  undone back b (err e, s) i = b.at s i

  -- A free project id of the parent's range, where the parent has one.
  project_for-Takes :
      {I J : List Record → Type 0} {B : Type 0} (p : Parent) (f : ℕ → M W B)
      → ((xs : List Record) → I xs → J xs)
      → ((id : ℕ)
          → (id ≡ 0) ⊎ ((p.lo ≤ id) × (id ≤ p.hi))
          → Takes (λ xs. I xs × Unheld id xs) J (f id))
      → Takes I J (project_for cfg env p >>= f)
  project_for-Takes p f weak k = elim (Bool-cases (p.hi == 0)) [
    | inl e ↦ rw e (record { from = λ s i. (k 0 (inl refl)).from s (i, Unheld-zero s.vols) })
    | inr e ↦ rw e (record {
      from = λ s i. elim (allocate-Allocates cfg env p s) [
        | inl (id, e', lo, hi, free, below) ↦
            rw e' ((k id (inr (lo, hi))).from s (i, contains-Unheld id s.vols free))
        | inr (e', full) ↦ rw e' (weak s.vols i)
      ];
    })
  ]

  or_undo-Keeps :
      {I : List Record → Type 0} (m back : M W (Unit {0}))
      → Keeps I m
      → Keeps I back
      → Keeps I (or_undo cfg env m back)
  or_undo-Keeps m back h b = record { at = λ s i. undone back b (m s) (h.at s i) }

  put-Keeps :
      (p : Parent) (name : Text) (quota created : ℕ)
      → Keeps {W = W}
          (IsSound cfg)
          (change (put (record (probe cfg env p name) { quota = quota; created = created })))
  put-Keeps p name quota created =
      let r : Record = record (probe cfg env p name) { quota = quota; created = created } in
      Keeps-change (put r) (λ xs i.
        (put-IsDistinct r xs i.0 (Unheld-zero xs), put-All (InRange cfg) r xs i.1 (inl refl)))

  settled-Keeps :
      (p : Parent) (r : Record)
      → Keeps
          (Holds cfg r.parent r.name r.project_id)
          (or_undo cfg env (save cfg env) (change (remove p.id r.name)) >> finish cfg env p r)
  settled-Keeps p r =
      Keeps-bind _ _
        (or_undo-Keeps (save cfg env) (change (remove p.id r.name)) (save-Keeps cfg env) (
          Keeps-change (remove p.id r.name)
            (Holds-Drops cfg env r.parent r.name r.project_id p.id r.name)))
        (λ u. finish-Keeps cfg env p r)

  -- A new record, with a name and a project id that no other has.
  start_with-Takes :
      (p : Parent) (r : Record)
      → InRange cfg r
      → Takes
          (λ xs. (IsSound cfg xs × (find r.parent r.name xs ≡ none)) × Unheld r.project_id xs)
          (IsSound cfg)
          (start_with cfg env p r)
  unfolding start_with
  start_with-Takes p r range = record {
    from = λ s i.
        ((settled-Keeps p r).at (record s { vols = put r s.vols })
          (record {
            sound =
                (put-IsDistinct r s.vols i.0.0.0 i.1, put-All (InRange cfg) r s.vols i.0.0.1 range);
            has = put-Has r s.vols i.0.1;
          })).sound;
  }

  start_new-Takes :
      (p : Parent) (name : Text) (quota : ℕ)
      → find_parent cfg p.id ≡ some p
      → Takes
          (λ xs. IsSound cfg xs × (find p.id name xs ≡ none))
          (IsSound cfg)
          (start_new cfg env p name quota)
  unfolding start_new
  start_new-Takes p name quota e =
      Takes-bind _ _ (λ xs i. i.0) (check_room-Keeps cfg env p quota)
        (λ u.
          Takes-bind _ _ (λ xs i. i.0) (Keeps-look (λ s. env.now s.world))
            (λ now.
              project_for-Takes p (λ id. start_with cfg env p (fresh cfg env p name quota now id))
                (λ xs i. i.0)
                (λ id h.
                  start_with-Takes p (fresh cfg env p name quota now id)
                    (elim h [ inl z ↦ inl z | inr (lo, hi) ↦ inr (p, e, lo, hi) ]))))

  adopt_found-Keeps :
      (p : Parent) (name : Text) (quota : ℕ)
      → Keeps (IsSound cfg) (adopt_found cfg env p name quota)
  unfolding adopt_found
  adopt_found-Keeps p name quota = search (keeps, put-Keeps, save-Keeps cfg env) depth 24

  create_at-none :
      (p : Parent) (name : Text) (quota : ℕ)
      → find_parent cfg p.id ≡ some p
      → Takes
          (λ xs. IsSound cfg xs × (find p.id name xs ≡ none))
          (IsSound cfg)
          (create_at cfg env p name quota none)
  unfolding create_at
  create_at-none p name quota e =
      Takes-bind _ _ (λ xs i. i.0)
        (Keeps-ask (λ w. (backend_of cfg env p).present w (probe cfg env p name)))
        (λ there.
          Takes-if there (adopt_found cfg env p name quota) (start_new cfg env p name quota)
            (record { from = λ s i. (adopt_found-Keeps p name quota).at s i.0 })
            (start_new-Takes p name quota e))

  create_at-some :
      (p : Parent) (name : Text) (quota : ℕ) (r : Record)
      → Keeps (Holds cfg r.parent r.name r.project_id) (create_at cfg env p name quota (some r))
  unfolding create_at
  create_at-some p name quota r =
      search (keeps, finish-Keeps cfg env p, ownership-Keeps cfg env) depth 24

  pub target-Takes :
      {B : Type 0} (parent name : Text) (f : Parent → M W B)
      → ((p : Parent) → find_parent cfg p.id ≡ some p → Keeps (IsSound cfg) (f p))
      → Keeps (IsSound cfg) (target cfg env parent name >>= f)
  unfolding target
  target-Takes parent name f k = elim (Bool-cases (is_name name)) [
    | inr e ↦ rw (e, target) (Keeps-fail _)
    | inl e ↦ rw (e, target) (record { at = λ s i. (parent_of-Takes parent f k).at s i })
  ]

  pub create-Keeps :
      (parent name : Text) (quota : ℕ) → Keeps (IsSound cfg) (create cfg env parent name quota)
  unfolding create
  create-Keeps parent name quota = target-Takes parent name _ (λ p e.
      Keeps-bind _ _ (check_quota-Keeps cfg env quota) (λ u.
        find-Takes p.id name (create_at cfg env p name quota) (create_at-none p name quota e)
          (create_at-some p name quota)))

  ownership-Takes :
      {I : List Record → Type 0} {A B : Type 0} (a : A) (o : Option Err) (f : A → M W B)
      → Keeps I (f a)
      → Keeps I ((ownership cfg env o >> pure a) >>= f)
  unfolding ownership
  ownership-Takes a none f k = record { at = λ s i. k.at s i }
  ownership-Takes a (some absent) f k = Keeps-fail _
  ownership-Takes a (some not_ours) f k = Keeps-fail _
  ownership-Takes a (some (refuse c)) f k = Keeps-fail _
  ownership-Takes a (some no_space) f k = Keeps-fail _
  ownership-Takes a (some fault) f k = Keeps-fail _

  checked-Takes :
      {I : List Record → Type 0} {B : Type 0} (p : Parent) (r : Record)
      (f : Parent × Record → M W B)
      → Keeps I (f (p, r))
      → Keeps I (checked cfg env p (some r) >>= f)
  unfolding checked
  checked-Takes p r f k =
      Keeps-if-bind r.pending _ (owned_record cfg env p r) f (Keeps-fail _) (record {
        at = λ s i. (ownership-Takes (p, r) ((backend_of cfg env p).owned s.world r) f k).at s i;
      })

  pub recorded-Takes :
      {B : Type 0} (parent name : Text) (f : Parent × Record → M W B)
      → ((p : Parent) (r : Record) → Keeps (Holds cfg r.parent r.name r.project_id) (f (p, r)))
      → Keeps (IsSound cfg) (recorded cfg env parent name >>= f)
  unfolding recorded checked
  recorded-Takes parent name f k = Keeps-assoc (target cfg env parent name) _ f (
      target-Takes parent name _ (λ p e. record {
        at =
            (find-Takes p.id name (λ o. checked cfg env p o >>= f) (record { from = λ s i. i.0 })
              (λ r. checked-Takes p r f (k p r))).at;
      }))
