-- ===== src/Provision/Deletion.antt =====
-- service.go: when `DeleteVolume` touches the storage.
use fileshare.Prelude.{
  ◌≡◌, refl, ◌⊎◌, inl, inr, Bool, true, false, ◌||◌, Option, none, some, List, [], ◌∷◌, arith,
  Bool-cases, Option-cases, null, Text,
}
use fileshare.Provision.{
  Record, Parent, Config, failed_precondition, Err, refuse, absent, not_ours, no_space, fault,
  Result, ok, err, Env, Store, find,
}
use fileshare.Provision.Service.{find_parent, parent_of, target, probe}
use fileshare.Provision.Service.Names.{is_name}
use fileshare.Provision.Changes.{
  check_empty, delete_ours, delete_checked, delete_record, delete_unrecorded, delete_at, delete,
}

module _ {W : Type 0} (cfg : Config) (env : Env W) where
  -- What is there is this provisioner's own; and unless its data may go, it holds nothing.
  abbrev IsDisposable : Parent → Record → Bool → W → Type 0
  IsDisposable p r destroy_data w =
      ((env.backends p.id).owned w r ≡ some absent)
      ⊎ (((env.backends p.id).owned w r ≡ none)
          × (snaps : List Text) × ((env.backends p.id).snapshots w r ≡ ok snaps)
          × ((destroy_data ≡ true) ⊎ ((snaps ≡ []) × ((env.backends p.id).empty w r ≡ ok true))))

  -- Either nothing changed, or the parent is configured and its volume, the one on record or else
  -- whatever has its name, was disposable.
  abbrev pub Careful : Text → Text → Bool → Store W → Store W → Type 0
  Careful parent name b s s' =
      (s' ≡ s)
      ⊎ ((p : Parent) × (r : Record) × (find_parent cfg parent ≡ some p)
          × ((find p.id name s.vols ≡ some r) ⊎ (r ≡ probe cfg env p name))
          × IsDisposable p r b s.world)

  emptied :
      (p : Parent) (r : Record) (s : Store W) (a : Result Bool)
      → (env.backends p.id).empty s.world r ≡ a
      → ((check_empty cfg env p r false s ≡ (ok tt, s))
          × ((env.backends p.id).empty s.world r ≡ ok true))
        ⊎ ((e : Err) × (check_empty cfg env p r false s ≡ (err e, s)))
  unfolding check_empty
  emptied p r s (ok true) h = inl (ground arith, h)
  emptied p r s (ok false) h = inr (refuse failed_precondition, ground arith)
  emptied p r s (err e) h = inr (e, ground arith)

  check_empty-cases :
      (p : Parent) (r : Record) (destroy_data : Bool) (s : Store W)
      → ((check_empty cfg env p r destroy_data s ≡ (ok tt, s))
          × ((destroy_data ≡ true) ⊎ ((env.backends p.id).empty s.world r ≡ ok true)))
        ⊎ ((e : Err) × (check_empty cfg env p r destroy_data s ≡ (err e, s)))
  unfolding check_empty
  check_empty-cases p r true s = inl (refl, inl refl)
  check_empty-cases p r false s = elim (emptied p r s ((env.backends p.id).empty s.world r) refl) [
    | inl h ↦ inl (h.0, inr h.1)
    | inr h ↦ inr h
  ]

  delete_ours-careful :
      (p : Parent) (r : Record) (b : Bool) (s : Store W) (a : Result (List Text))
      → (env.backends p.id).owned s.world r ≡ none
      → (env.backends p.id).snapshots s.world r ≡ a
      → ((delete_ours cfg env p r b s).1 ≡ s) ⊎ IsDisposable p r b s.world
  unfolding delete_ours
  delete_ours-careful p r b s (err e) o h = inl (ground arith)
  delete_ours-careful p r b s (ok snaps) o h = elim (Bool-cases (null snaps || b)) [
    | inr g ↦ inl (ground arith)
    | inl g ↦ elim (check_empty-cases p r b s) [
      | inr (e, c) ↦ inl (ground arith)
      | inl (c, d) ↦ inr (inr (o, snaps, h, disposed snaps b g d))
    ]
  ]
    where
      disposed :
          {Q : Type 0} (xs : List Text) (d : Bool)
          → (null xs || d) ≡ true
          → (d ≡ true) ⊎ Q
          → (d ≡ true) ⊎ ((xs ≡ []) × Q)
      disposed [] d g (inl t) = inl t
      disposed [] d g (inr q) = inr (refl, q)
      disposed (x ∷ xs) d g q = inl (ground arith)

  delete_record-careful :
      (p : Parent) (r : Record) (b : Bool) (s : Store W) (o : Option Err)
      → (env.backends p.id).owned s.world r ≡ o
      → ((delete_record cfg env p r b s).1 ≡ s) ⊎ IsDisposable p r b s.world
  unfolding delete_record delete_checked
  delete_record-careful p r b s none h =
      elim (delete_ours-careful p r b s ((env.backends p.id).snapshots s.world r) h refl) [
        | inl e ↦ inl (ground arith)
        | inr d ↦ inr d
      ]
  delete_record-careful p r b s (some absent) h = inr (inl h)
  delete_record-careful p r b s (some not_ours) h = inl (ground arith)
  delete_record-careful p r b s (some (refuse c)) h = inl (ground arith)
  delete_record-careful p r b s (some no_space) h = inl (ground arith)
  delete_record-careful p r b s (some fault) h = inl (ground arith)

  delete_unrecorded-careful :
      (p : Parent) (name : Text) (b : Bool) (s : Store W) (o : Option Err)
      → (env.backends p.id).owned s.world (probe cfg env p name) ≡ o
      → ((delete_unrecorded cfg env p name b s).1 ≡ s)
        ⊎ IsDisposable p (probe cfg env p name) b s.world
  unfolding delete_unrecorded
  delete_unrecorded-careful p name b s (some e) h = inl (ground arith)
  delete_unrecorded-careful p name b s none h =
      elim (delete_record-careful p (probe cfg env p name) b s none h) [
        | inl e ↦ inl (ground arith)
        | inr d ↦ inr d
      ]

  delete_at-none :
      (p : Parent) (name : Text) (b : Bool) (s : Store W) (a : Result Bool)
      → (env.backends p.id).present s.world (probe cfg env p name) ≡ a
      → ((delete_at cfg env p name b none s).1 ≡ s)
        ⊎ IsDisposable p (probe cfg env p name) b s.world
  unfolding delete_at
  delete_at-none p name b s (err e) h = inl (ground arith)
  delete_at-none p name b s (ok false) h = inl (ground arith)
  delete_at-none p name b s (ok true) h =
      elim (delete_unrecorded-careful p name b s
        ((env.backends p.id).owned s.world (probe cfg env p name)) refl) [
          | inl e ↦ inl (ground arith)
          | inr d ↦ inr d
        ]

  delete_at-careful :
      (p : Parent) (name : Text) (b : Bool) (s : Store W) (o : Option Record)
      → find p.id name s.vols ≡ o
      → ((delete_at cfg env p name b o s).1 ≡ s)
        ⊎ ((r : Record) × ((find p.id name s.vols ≡ some r) ⊎ (r ≡ probe cfg env p name))
            × IsDisposable p r b s.world)
  unfolding delete_at
  delete_at-careful p name b s none h =
      elim (delete_at-none p name b s ((env.backends p.id).present s.world (probe cfg env p name))
        refl) [ inl e ↦ inl e | inr d ↦ inr (probe cfg env p name, inr refl, d) ]
  delete_at-careful p name b s (some r) h =
      elim (delete_record-careful p r b s ((env.backends p.id).owned s.world r) refl) [
        | inl e ↦ inl e
        | inr d ↦ inr (r, inl h, d)
      ]

  -- `DeleteVolume` leaves the records, the state file and the storage as they are, unless the parent is
  -- configured and its volume is already gone or this provisioner's own, and, where the caller did not
  -- ask for its data to be destroyed, holds no file and no snapshot.
  pub delete-Careful :
      (parent name : Text) (destroy_data : Bool) (s : Store W)
      → Careful parent name destroy_data s (delete cfg env parent name destroy_data s).1
  unfolding delete target parent_of
  delete-Careful parent name b s = elim (Bool-cases (is_name name)) [
    | inr e ↦ inl (ground arith)
    | inl e ↦ elim (Option-cases (find_parent cfg parent)) [
      | inl f ↦ inl (ground arith)
      | inr (p, f) ↦ elim (delete_at-careful p name b s (find p.id name s.vols) refl) [
        | inl c ↦ inl (ground arith)
        | inr (r, d, g) ↦ inr (p, r, f, d, g)
      ]
    ]
  ]
