-- ===== src/Provision/Service.antt =====
-- service.go: the calls of the ProvisionService, each under the service's one lock.
pub mod Names
use fileshare.Prelude.{
  ℕ, zero, suc, ◌+◌, ◌-◌, Bool, true, false, not, Option, none, some, List, [], ◌∷◌, ◌++◌, map, leb,
  if◌then◌else◌, ◌==◌, ℕ_eq, List_eq, delete_if, find_first, contains, Text,
}
use fileshare.Provision.{
  Record, Parent, Config, invalid_argument, out_of_range, resource_exhausted, already_exists,
  failed_precondition, Err, refuse, absent, not_ours, no_space, fault, Result, ok, err, Backend,
  Env, Store, M, ◌>>=◌, ◌>>◌, pure, fail, guard, ask, look, change, put_world, find, put, remove,
  update,
}
use fileshare.Provision.Service.Names.{is_name}

-- What a caller is shown of a volume.
pub record Volume : Type 0 where
  pub parent : Text
  pub name : Text
  pub kind : Text
  pub path : Text
  pub quota : ℕ
  pub used : ℕ
  pub snapshots : List Text
  pub created : ℕ

-- What a caller is shown of a parent.
pub record Capability : Type 0 where
  pub parent : Parent
  pub can_snapshot : Bool
  pub free : ℕ
  pub total : ℕ

abbrev pub or_else : {A : Type 0} → Result A → A → A
or_else (ok a) d = a
or_else (err e) d = d

-- `allocate`: the lowest id from `id` on, in a range with `n` ids left, that no record holds.
unfoldable pub first_free : ℕ → ℕ → List ℕ → Option ℕ
first_free zero id held = none
first_free (suc n) id held =
    let later = first_free n (id + 1) held in if contains held id then later else some id

abbrev pub held_ids : List Record → List ℕ
held_ids vols = map (λ r. r.project_id) (delete_if (λ r. r.project_id == 0) vols)

-- `Config.parent`
unfoldable pub find_parent : Config → Text → Option Parent
find_parent cfg id = find_first (λ p. p.id == id) cfg.parents

module _ {W : Type 0} (cfg : Config) (env : Env W) where
  unfoldable pub parent_of : Text → M W Parent
  unfolding find_parent
  parent_of id = elim (find_parent cfg id) [
    | none ↦ fail (refuse invalid_argument)
    | some p ↦ pure p
  ]

  abbrev pub backend_of : Parent → Backend W
  backend_of p = env.backends p.id

  unfoldable pub target : Text → Text → M W Parent
  unfolding parent_of
  target parent name = do guard (is_name name) (refuse invalid_argument); parent_of parent

  unfoldable pub check_quota : ℕ → M W (Unit {0})
  check_quota q = do
    guard (not (q == 0)) (refuse invalid_argument)
    guard (leb q cfg.max_volume) (refuse out_of_range)

  -- A parent whose free space cannot be read is not refused for it.
  abbrev room : Result (ℕ × ℕ) → ℕ → Bool
  room (ok (free, total)) want = leb want free
  room (err e) want = true

  unfoldable pub check_room : Parent → ℕ → M W (Unit {0})
  check_room p want = do
    space ← look (λ s. (backend_of p).space s.world)
    guard (room space want) (refuse resource_exhausted)

  abbrev pub volume_in : Parent → Record → W → Volume
  volume_in p r w = record {
    parent = r.parent;
    name = r.name;
    kind = p.kind;
    path = p.root ++ (b'/' ∷ r.name);
    quota = r.quota;
    used = or_else ((backend_of p).used w r) 0;
    snapshots = or_else ((backend_of p).snapshots w r) [];
    created = r.created;
  }

  unfoldable pub volume : Parent → Record → M W Volume
  volume p r = look (λ s. volume_in p r s.world)

  abbrev shown : Parent → Result (ℕ × ℕ) → Capability
  shown p (err e) = record {
    parent = p;
    can_snapshot = (backend_of p).can_snapshot;
    free = 0;
    total = 0;
  }
  shown p (ok (free, total)) = record {
    parent = p;
    can_snapshot = (backend_of p).can_snapshot;
    free = free;
    total = total;
  }

  -- `GetCapabilities`: the parents as they are, with no space where it cannot be read.
  unfoldable pub get_capabilities : W → ℕ × List Capability
  get_capabilities w = (cfg.max_volume, map (λ p. shown p ((backend_of p).space w)) cfg.parents)

  abbrev or_exhausted : Option ℕ → M W ℕ
  or_exhausted none = fail (refuse resource_exhausted)
  or_exhausted (some id) = pure id

  unfoldable pub allocate : Parent → M W ℕ
  unfolding first_free
  allocate p = do
    held ← look (λ s. held_ids s.vols)
    or_exhausted (first_free (p.hi + 1 - p.lo) p.lo held)

  -- `state.save`: the state file holds the records in memory, or what it held before.
  abbrev pub saved : Store W → W × Option Err → Result (Unit {0}) × Store W
  saved s (w, none) = (ok tt, record s { disk = s.vols; world = w })
  saved s (w, some e) = (err e, record s { world = w })

  unfoldable pub save : M W (Unit {0})
  save s = saved s (env.save s.world)

  -- Runs a call that may fail, and one to undo what stands if it did.
  abbrev pub undo_with : M W (Unit {0}) → Result (Unit {0}) × Store W → Result (Unit {0}) × Store W
  undo_with back (ok u, s) = (ok u, s)
  undo_with back (err e, s) = (err e, (back s).1)

  abbrev pub or_undo : M W (Unit {0}) → M W (Unit {0}) → M W (Unit {0})
  or_undo m back s = undo_with back (m s)

  unfoldable pub ownership : Option Err → M W (Unit {0})
  ownership none = pure tt
  ownership (some absent) = fail (refuse failed_precondition)
  ownership (some not_ours) = fail (refuse failed_precondition)
  ownership (some (refuse c)) = fail (refuse c)
  ownership (some no_space) = fail no_space
  ownership (some fault) = fail fault

  abbrev pub probe : Parent → Text → Record
  probe p name = record {
    parent = p.id;
    name = name;
    kind = p.kind;
    quota = 0;
    created = 0;
    pending = false;
    project_id = 0;
    subvol_id = 0;
    subvol_uuid = [];
    snapshots = [];
  }

  -- After a failed creation: if nothing is there, the record goes, and its project id with it.
  abbrev is_nothing : Result Bool → Bool
  is_nothing (ok there) = not there
  is_nothing (err e) = false

  unfoldable pub forget : Text → Text → M W (Unit {0})
  unfolding save
  forget parent name = do change (remove parent name); save

  -- The error of `save` is only logged here.
  abbrev pub quietly : M W (Unit {0}) → M W (Unit {0})
  quietly m s = (ok tt, (m s).1)

  abbrev pub sweep : Parent → Record → Err → M W (Volume × Bool)
  sweep p r e = do
    there ← look (λ s. (backend_of p).present s.world r)
    if is_nothing there then quietly (forget p.id r.name) else pure tt
    fail e

  abbrev pub made : Parent → Record → Option Err → M W (Volume × Bool)
  made p r none = do
    change (update (record r { pending = false }))
    save
    v ← volume p (record r { pending = false })
    pure (v, true)
  made p r (some not_ours) = fail (refuse already_exists)
  made p r (some absent) = sweep p r absent
  made p r (some (refuse c)) = sweep p r (refuse c)
  made p r (some no_space) = sweep p r no_space
  made p r (some fault) = sweep p r fault

  -- The end of `create`, for a pending record.
  unfoldable pub finish : Parent → Record → M W (Volume × Bool)
  unfolding forget save volume
  finish p r = do
    (w, id, uuid, e) ← look (λ s. (backend_of p).create s.world r)
    put_world w
    change (update (record r { subvol_id = id; subvol_uuid = uuid }))
    made p (record r { subvol_id = id; subvol_uuid = uuid }) e

  -- Something is where the volume would be, and no record says so.
  unfoldable pub adopt_found : Parent → Text → ℕ → M W (Volume × Bool)
  unfolding save volume
  adopt_found p name quota = do
    mine ← look (λ s. (backend_of p).owned s.world (probe p name))
    guard (elim mine [ none ↦ true | some e ↦ false ]) (refuse already_exists)
    q ← ask (λ w. (backend_of p).quota w (probe p name))
    now ← look (λ s. env.now s.world)
    change (put (record (probe p name) { quota = q; created = now }))
    save
    guard (q == quota) (refuse already_exists)
    v ← volume p (record (probe p name) { quota = q; created = now })
    pure (v, false)

  abbrev pub project_for : Parent → M W ℕ
  project_for p = if p.hi == 0 then pure 0 else allocate p

  unfoldable pub start_with : Parent → Record → M W (Volume × Bool)
  unfolding save finish
  start_with p r = do change (put r); or_undo save (change (remove p.id r.name)); finish p r

  abbrev pub fresh : Parent → Text → ℕ → ℕ → ℕ → Record
  fresh p name quota now id = record (probe p name) {
    quota = quota;
    created = now;
    pending = true;
    project_id = id;
  }

  unfoldable pub start_new : Parent → Text → ℕ → M W (Volume × Bool)
  unfolding check_room allocate start_with
  start_new p name quota = do
    check_room p quota
    now ← look (λ s. env.now s.world)
    id ← project_for p
    start_with p (fresh p name quota now id)

  unfoldable pub create_at : Parent → Text → ℕ → Option Record → M W (Volume × Bool)
  unfolding ownership volume finish adopt_found start_new
  create_at p name quota none = do
    there ← ask (λ w. (backend_of p).present w (probe p name))
    if there then adopt_found p name quota else start_new p name quota
  create_at p name quota (some r) =
      if not (r.quota == quota)
      then fail (refuse already_exists)
      else if r.pending
      then finish p r
      else do
        mine ← look (λ s. (backend_of p).owned s.world r)
        ownership mine
        v ← volume p r
        pure (v, false)

  unfoldable pub create : Text → Text → ℕ → M W (Volume × Bool)
  unfolding target check_quota create_at
  create parent name quota = do
    p ← target parent name
    check_quota quota
    r ← look (λ s. find p.id name s.vols)
    create_at p name quota r
