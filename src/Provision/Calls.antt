-- ===== src/Provision/Calls.antt =====
-- service.go: the calls as events on one store, and what any sequence of them keeps.
use fileshare.Prelude.{ℕ, Bool, true, false, Option, none, some, List, [], ◌∷◌, null, Text}
use fileshare.Provision.{
  Record, Parent, Config, Err, refuse, absent, not_ours, no_space, fault, Env, Store,
}
use fileshare.Provision.Service.{create}
use fileshare.Provision.Service.Names.{is_name}
use fileshare.Provision.Changes.{
  resize_volume, snapshot_volume, check_empty, delete_ours, delete_checked, delete_record,
  delete_unrecorded, delete_at, delete, get_volume, list_volumes,
}
use fileshare.Provision.Records.{}
use fileshare.Provision.Keeps.{
  IsSound, Keeps, Keeps-bind, Keeps-pure, Keeps-fail, Keeps-look, Keeps-guard, Keeps-if, keeps,
  check_quota-Keeps, volume-Keeps,
}
use fileshare.Provision.Invariant.{
  Drops, IsSound-Drops, resize_to-Keeps, snapshot_known-Keeps, destroy_with-Keeps,
}
use fileshare.Provision.Sound.{parent_of-Takes, target-Takes, create-Keeps, recorded-Takes}

-- The requests of the ProvisionService; and what others do to the storage in between.
pub data Event (W : Type 0) : Type 0 where
  create_volume : Text → Text → ℕ → Event W
  get_one : Text → Text → Event W
  list_all : Text → Event W
  resize_one : Text → Text → ℕ → Event W
  snapshot_one : Text → Text → Text → Event W
  delete_volume : Text → Text → Bool → Event W
  others : W → Event W

module _ {W : Type 0} (cfg : Config) (env : Env W) where
  unfoldable pub step : Event W → Store W → Store W
  step (create_volume parent name quota) s = (create cfg env parent name quota s).1
  step (get_one parent name) s = (get_volume cfg env parent name s).1
  step (list_all parent) s = (list_volumes cfg env parent s).1
  step (resize_one parent name quota) s = (resize_volume cfg env parent name quota s).1
  step (snapshot_one parent name snap) s = (snapshot_volume cfg env parent name snap s).1
  step (delete_volume parent name destroy_data) s = (delete cfg env parent name destroy_data s).1
  step (others w) s = record s { world = w }

  unfoldable pub run : List (Event W) → Store W → Store W
  run [] s = s
  run (e ∷ es) s = run es (step e s)

  check_empty-Keeps :
      {I : List Record → Type 0} (p : Parent) (r : Record) (destroy_data : Bool)
      → Keeps I (check_empty cfg env p r destroy_data)
  unfolding check_empty
  check_empty-Keeps p r true = Keeps-pure tt
  check_empty-Keeps p r false = search keeps depth 12

  delete_checked-Keeps :
      {I : List Record → Type 0} (p : Parent) (r : Record) (destroy_data : Bool) (o : Option Err)
      → Drops I
      → Keeps I (delete_checked cfg env p r destroy_data o)
  unfolding delete_checked delete_ours
  delete_checked-Keeps p r b none d =
      search (keeps, check_empty-Keeps p r b, destroy_with-Keeps cfg env) depth 24
  delete_checked-Keeps p r b (some absent) d = destroy_with-Keeps cfg env p r [] false d
  delete_checked-Keeps p r b (some not_ours) d = Keeps-fail _
  delete_checked-Keeps p r b (some (refuse c)) d = Keeps-fail _
  delete_checked-Keeps p r b (some no_space) d = Keeps-fail _
  delete_checked-Keeps p r b (some fault) d = Keeps-fail _

  delete_record-Keeps :
      {I : List Record → Type 0} (p : Parent) (r : Record) (destroy_data : Bool)
      → Drops I
      → Keeps I (delete_record cfg env p r destroy_data)
  unfolding delete_record
  delete_record-Keeps p r b d = search (keeps, delete_checked-Keeps) depth 12

  delete_unrecorded-Keeps :
      {I : List Record → Type 0} (p : Parent) (name : Text) (destroy_data : Bool)
      → Drops I
      → Keeps I (delete_unrecorded cfg env p name destroy_data)
  unfolding delete_unrecorded
  delete_unrecorded-Keeps p name b d = search (keeps, delete_record-Keeps) depth 12

  delete_at-Keeps :
      {I : List Record → Type 0} (p : Parent) (name : Text) (destroy_data : Bool)
      (o : Option Record)
      → Drops I
      → Keeps I (delete_at cfg env p name destroy_data o)
  unfolding delete_at
  delete_at-Keeps p name b (some r) d = delete_record-Keeps p r b d
  delete_at-Keeps p name b none d = search (keeps, delete_unrecorded-Keeps) depth 24

  delete-Keeps :
      (parent name : Text) (destroy_data : Bool)
      → Keeps (IsSound cfg) (delete cfg env parent name destroy_data)
  unfolding delete
  delete-Keeps parent name b = target-Takes cfg env parent name _ (λ p e.
      Keeps-bind _ _ (Keeps-look _) (λ o. delete_at-Keeps p name b o (IsSound-Drops cfg env)))

  resize-Keeps :
      (parent name : Text) (quota : ℕ)
      → Keeps (IsSound cfg) (resize_volume cfg env parent name quota)
  unfolding resize_volume
  resize-Keeps parent name quota = Keeps-bind _ _ (check_quota-Keeps cfg env quota) (λ u.
      recorded-Takes cfg env parent name _
        (λ p r. search (keeps, resize_to-Keeps cfg env, volume-Keeps cfg env) depth 24))

  snapshot-Keeps :
      (parent name snap : Text) → Keeps (IsSound cfg) (snapshot_volume cfg env parent name snap)
  unfolding snapshot_volume
  snapshot-Keeps parent name snap = Keeps-bind _ _ (Keeps-guard (is_name snap) _) (λ u.
      recorded-Takes cfg env parent name _
        (λ p r. search (keeps, snapshot_known-Keeps cfg env) depth 24))

  get-Keeps : (parent name : Text) → Keeps (IsSound cfg) (get_volume cfg env parent name)
  unfolding get_volume
  get-Keeps parent name = recorded-Takes cfg env parent name _ (λ p r. volume-Keeps cfg env p r)

  list-Keeps : (parent : Text) → Keeps (IsSound cfg) (list_volumes cfg env parent)
  unfolding list_volumes
  list-Keeps parent =
      Keeps-bind _ _
        (Keeps-if (null parent) _ _ (Keeps-pure tt)
          (parent_of-Takes cfg env parent _ (λ p e. Keeps-pure tt)))
        (λ u. Keeps-look _)

  step-IsSound : (e : Event W) (s : Store W) → IsSound cfg s.vols → IsSound cfg (step e s).vols
  unfolding step
  step-IsSound (create_volume parent name quota) s = (create-Keeps cfg env parent name quota).at s
  step-IsSound (get_one parent name) s = (get-Keeps parent name).at s
  step-IsSound (list_all parent) s = (list-Keeps parent).at s
  step-IsSound (resize_one parent name quota) s = (resize-Keeps parent name quota).at s
  step-IsSound (snapshot_one parent name snap) s = (snapshot-Keeps parent name snap).at s
  step-IsSound (delete_volume parent name b) s = (delete-Keeps parent name b).at s
  step-IsSound (others w) s = λ i. i

  run-from : (es : List (Event W)) (s : Store W) → IsSound cfg s.vols → IsSound cfg (run es s).vols
  unfolding run
  run-from [] s i = i
  run-from (e ∷ es) s i = run-from es (step e s) (step-IsSound e s i)

  -- Started without records, whatever calls are made, in whatever order, with whatever the storage
  -- and the state file answer and others do to the storage in between: no two records name one
  -- volume, no two hold one project id, and each project id lies in the range of its parent.
  pub run-IsSound :
      (es : List (Event W)) (w : W)
      → IsSound cfg (run es (record { vols = []; disk = []; world = w })).vols
  run-IsSound es w = run-from es (record { vols = []; disk = []; world = w }) (tt, tt)
