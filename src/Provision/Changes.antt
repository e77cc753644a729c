-- ===== src/Provision/Changes.antt =====
-- service.go: the calls on a volume that is there, and its deletion.
use fileshare.Prelude.{
  ℕ, ◌-◌, Bool, true, false, not, ◌&&◌, ◌||◌, Option, none, some, List, [], ◌∷◌, ltb, leb,
  if◌then◌else◌, ◌==◌, ℕ_eq, List_eq, null, contains, Text,
}
use fileshare.Provision.{
  Record, Parent, Config, invalid_argument, failed_precondition, not_found, unimplemented, Err,
  refuse, absent, not_ours, no_space, fault, Backend, Env, M, ◌>>=◌, ◌>>◌, pure, fail, guard, ask,
  look, settle, change, put_world, find, update,
}
use fileshare.Provision.Service.{
  Volume, find_parent, parent_of, backend_of, target, check_quota, check_room, volume_in, volume,
  save, ownership, probe, forget,
}
use fileshare.Provision.Service.Names.{is_name}

module _ {W : Type 0} (cfg : Config) (env : Env W) where
  abbrev at_parent : Parent → Backend W
  at_parent p = backend_of cfg env p

  abbrev pub owned_record : Parent → Record → M W (Parent × Record)
  owned_record p r = do
    mine ← look (λ s. (at_parent p).owned s.world r)
    ownership cfg env mine
    pure (p, r)

  unfoldable pub checked : Parent → Option Record → M W (Parent × Record)
  unfolding ownership
  checked p none = fail (refuse not_found)
  checked p (some r) = if r.pending then fail (refuse failed_precondition) else owned_record p r

  -- `recorded`: a finished volume of the request, checked to be ours.
  unfoldable pub recorded : Text → Text → M W (Parent × Record)
  unfolding target checked
  recorded parent name = do
    p ← target cfg env parent name
    found ← look (λ s. find p.id name s.vols)
    checked p found

  abbrev room_for : Parent → ℕ → ℕ → M W (Unit {0})
  room_for p quota old = if ltb old quota then check_room cfg env p (quota - old) else pure tt

  unfoldable pub resize_to : Parent → Record → ℕ → M W Record
  unfolding check_room save
  resize_to p r quota = do
    used ← ask (λ w. (at_parent p).used w r)
    guard (leb used quota) (refuse failed_precondition)
    room_for p quota r.quota
    (w, e) ← look (λ s. (at_parent p).resize s.world r quota)
    put_world w
    settle e
    change (update (record r { quota = quota }))
    save cfg env
    pure (record r { quota = quota })

  unfoldable pub resize_volume : Text → Text → ℕ → M W Volume
  unfolding check_quota recorded resize_to volume
  resize_volume parent name quota = do
    check_quota cfg env quota
    (p, r) ← recorded parent name
    r' ← (if quota == r.quota then pure r else resize_to p r quota)
    volume cfg env p r'

  unfoldable pub snapshot_now : Parent → Record → Text → M W (Volume × Bool)
  unfolding save volume
  snapshot_now p r snap = do
    (w, snaps, e) ← look (λ s. (at_parent p).snapshot s.world r snap)
    put_world w
    change (update (record r { snapshots = snaps }))
    settle e
    save cfg env
    v ← volume cfg env p (record r { snapshots = snaps })
    pure (v, true)

  unfoldable pub snapshot_known : Parent → Record → Text → List Text → M W (Volume × Bool)
  unfolding volume snapshot_now
  snapshot_known p r snap snaps =
      if contains snaps snap
      then (do v ← volume cfg env p r; pure (v, false))
      else snapshot_now p r snap

  unfoldable pub snapshot_volume : Text → Text → Text → M W (Volume × Bool)
  unfolding recorded snapshot_known
  snapshot_volume parent name snap = do
    guard (is_name snap) (refuse invalid_argument)
    (p, r) ← recorded parent name
    guard (at_parent p).can_snapshot (refuse unimplemented)
    snaps ← ask (λ w. (at_parent p).snapshots w r)
    snapshot_known p r snap snaps

  -- The volume is destroyed with these snapshots, and its record forgotten.
  unfoldable pub destroy_with : Parent → Record → List Text → Bool → M W Bool
  unfolding forget
  destroy_with p r snaps deleted = do
    (w, e) ← look (λ s. (at_parent p).destroy s.world r snaps)
    put_world w
    settle e
    forget cfg env r.parent r.name
    pure deleted

  -- Without `destroy_data`, only an empty volume is deleted.
  unfoldable pub check_empty : Parent → Record → Bool → M W (Unit {0})
  check_empty p r true = pure tt
  check_empty p r false = do
    empty ← ask (λ w. (at_parent p).empty w r)
    guard empty (refuse failed_precondition)

  unfoldable pub delete_ours : Parent → Record → Bool → M W Bool
  unfolding check_empty destroy_with
  delete_ours p r destroy_data = do
    snaps ← ask (λ w. (at_parent p).snapshots w r)
    guard (null snaps || destroy_data) (refuse failed_precondition)
    check_empty p r destroy_data
    destroy_with p r snaps true

  unfoldable pub delete_checked : Parent → Record → Bool → Option Err → M W Bool
  unfolding destroy_with delete_ours
  delete_checked p r destroy_data none = delete_ours p r destroy_data
  delete_checked p r destroy_data (some absent) = destroy_with p r [] false
  delete_checked p r destroy_data (some not_ours) = fail (refuse failed_precondition)
  delete_checked p r destroy_data (some (refuse c)) = fail (refuse c)
  delete_checked p r destroy_data (some no_space) = fail no_space
  delete_checked p r destroy_data (some fault) = fail fault

  unfoldable pub delete_record : Parent → Record → Bool → M W Bool
  unfolding delete_checked
  delete_record p r destroy_data = do
    mine ← look (λ s. (at_parent p).owned s.world r)
    delete_checked p r destroy_data mine

  -- Something without a record is deleted only if it carries this provisioner's own mark.
  unfoldable pub delete_unrecorded : Parent → Text → Bool → M W Bool
  unfolding delete_record
  delete_unrecorded p name destroy_data = do
    mine ← look (λ s. (at_parent p).owned s.world (probe cfg env p name))
    guard (elim mine [ none ↦ true | some e ↦ false ]) (refuse failed_precondition)
    delete_record p (probe cfg env p name) destroy_data

  unfoldable pub delete_at : Parent → Text → Bool → Option Record → M W Bool
  unfolding delete_record delete_unrecorded
  delete_at p name destroy_data (some r) = delete_record p r destroy_data
  delete_at p name destroy_data none = do
    there ← ask (λ w. (at_parent p).present w (probe cfg env p name))
    if not there then pure false else delete_unrecorded p name destroy_data

  unfoldable pub delete : Text → Text → Bool → M W Bool
  unfolding target delete_at
  delete parent name destroy_data = do
    p ← target cfg env parent name
    found ← look (λ s. find p.id name s.vols)
    delete_at p name destroy_data found

  unfoldable pub get_volume : Text → Text → M W Volume
  unfolding recorded volume
  get_volume parent name = do (p, r) ← recorded parent name; volume cfg env p r

  -- The loop of `ListVolumes`; an empty parent asks for all. A record's parent is one of the
  -- configuration's, which the start checks.
  unfoldable pub list_from : Text → List Record → W → List Volume
  list_from parent [] w = []
  list_from parent (r ∷ rs) w =
      let later = list_from parent rs w in
      if r.pending || (not (null parent) && not (r.parent == parent))
      then later
      else elim (find_parent cfg r.parent) [
        | none ↦ later
        | some p ↦ volume_in cfg env p r w ∷ later
      ]

  unfoldable pub list_volumes : Text → M W (List Volume)
  unfolding parent_of list_from
  list_volumes parent = do
    if null parent then pure tt else (do p ← parent_of cfg env parent; pure tt)
    look (λ s. list_from parent s.vols s.world)
