-- ===== src/Provision/Invariant.antt =====
-- service.go: what every call of the provisioner keeps true of its records.
use fileshare.Prelude.{ℕ, ◌≡◌, inl, inr, Bool, Option, none, some, List, arith, Text}
use fileshare.Provision.{
  Record, Parent, Config, Err, refuse, absent, not_ours, no_space, fault, Env, change, remove,
  update,
}
use fileshare.Provision.Service.{forget, sweep, made, finish}
use fileshare.Provision.Changes.{resize_to, snapshot_now, snapshot_known, destroy_with}
use fileshare.Provision.Records.{
  Has, remove-All, remove-IsDistinct, update-All, update-Has, update-IsDistinct,
}
use fileshare.Provision.Keeps.{
  InRange, IsSound, Holds, Keeps, Keeps-bind, Keeps-fail, Keeps-change, keeps, save-Keeps,
  Keeps-quietly, check_room-Keeps, volume-Keeps,
}

move-InRange :
    (cfg : Config) (r x : Record)
    → x.parent ≡ r.parent
    → x.name ≡ r.name
    → x.project_id ≡ r.project_id
    → InRange cfg x
    → InRange cfg r
move-InRange cfg r x pe ne id (inl z) = inl (ground arith)
move-InRange cfg r x pe ne id (inr (p, f, lo, hi)) = inr (p, rw pe at f, rw id at lo, rw id at hi)

-- A property that a record less does not break.
abbrev pub Drops : (List Record → Type 0) → Type 0
Drops I = (a b : Text) (xs : List Record) → I xs → I (remove a b xs)

module _ {W : Type 0} (cfg : Config) (env : Env W) where
  update-Keeps :
      (r : Record) → Keeps {W = W} (Holds cfg r.parent r.name r.project_id) (change (update r))
  update-Keeps r = Keeps-change (update r) (λ xs h. record {
    sound = (
      update-IsDistinct r xs h.has h.sound.0,
      update-All r (InRange cfg) (move-InRange cfg r) xs h.has h.sound.1,
    );
    has = update-Has r r.parent r.name r.project_id xs h.has h.has;
  })

  -- The calls write a record back with other fields, but for its names, its kind and its project id.
  rewrite-Keeps :
      (r : Record) (quota : ℕ) (pending : Bool) (id : ℕ) (uuid : Text) (snaps : List Text)
      → Keeps {W = W} (Holds cfg r.parent r.name r.project_id) (
          change (
            update (record r {
              quota = quota;
              pending = pending;
              subvol_id = id;
              subvol_uuid = uuid;
              snapshots = snaps;
            })))
  rewrite-Keeps r quota pending id uuid snaps = update-Keeps (record r {
    quota = quota;
    pending = pending;
    subvol_id = id;
    subvol_uuid = uuid;
    snapshots = snaps;
  })

  pub IsSound-Drops : Drops (IsSound cfg)
  IsSound-Drops a b xs i = (remove-IsDistinct a b xs i.0, remove-All (InRange cfg) a b xs i.1)

  pub Holds-Drops : (k n : Text) (pid : ℕ) → Drops (Holds cfg k n pid)
  Holds-Drops k n pid a b xs h = record {
    sound = IsSound-Drops a b xs h.sound;
    has = remove-All (Has k n pid) a b xs h.has;
  }

  pub forget-Keeps :
      {I : List Record → Type 0} (a b : Text) → Drops I → Keeps I (forget cfg env a b)
  unfolding forget
  forget-Keeps a b d = Keeps-bind _ _ (Keeps-change (remove a b) (d a b)) (λ u. save-Keeps cfg env)

  sweep-Keeps :
      (p : Parent) (r : Record) (e : Err)
      → Keeps (Holds cfg r.parent r.name r.project_id) (sweep cfg env p r e)
  sweep-Keeps p r e = search (keeps, Keeps-quietly cfg env, forget-Keeps, Holds-Drops) depth 12

  made-Keeps :
      (p : Parent) (r : Record) (e : Option Err)
      → Keeps (Holds cfg r.parent r.name r.project_id) (made cfg env p r e)
  made-Keeps p r none =
      search (keeps, rewrite-Keeps r, save-Keeps cfg env, volume-Keeps cfg env) depth 24
  made-Keeps p r (some not_ours) = Keeps-fail _
  made-Keeps p r (some absent) = sweep-Keeps p r _
  made-Keeps p r (some (refuse c)) = sweep-Keeps p r _
  made-Keeps p r (some no_space) = sweep-Keeps p r _
  made-Keeps p r (some fault) = sweep-Keeps p r _

  remade-Keeps :
      (p : Parent) (r : Record) (id : ℕ) (uuid : Text) (e : Option Err)
      → Keeps
          (Holds cfg r.parent r.name r.project_id)
          (made cfg env p (record r { subvol_id = id; subvol_uuid = uuid }) e)
  remade-Keeps p r id uuid e = made-Keeps p (record r { subvol_id = id; subvol_uuid = uuid }) e

  pub finish-Keeps :
      (p : Parent) (r : Record)
      → Keeps (Holds cfg r.parent r.name r.project_id) (finish cfg env p r)
  unfolding finish
  finish-Keeps p r = search (keeps, rewrite-Keeps r, remade-Keeps p r) depth 24

  pub resize_to-Keeps :
      (p : Parent) (r : Record) (q : ℕ)
      → Keeps (Holds cfg r.parent r.name r.project_id) (resize_to cfg env p r q)
  unfolding resize_to
  resize_to-Keeps p r q =
      search (keeps, rewrite-Keeps r, save-Keeps cfg env, check_room-Keeps cfg env) depth 24

  snapshot_now-Keeps :
      (p : Parent) (r : Record) (snap : Text)
      → Keeps (Holds cfg r.parent r.name r.project_id) (snapshot_now cfg env p r snap)
  unfolding snapshot_now
  snapshot_now-Keeps p r snap = search (keeps, rewrite-Keeps r, save-Keeps cfg env) depth 24

  pub snapshot_known-Keeps :
      (p : Parent) (r : Record) (snap : Text) (snaps : List Text)
      → Keeps (Holds cfg r.parent r.name r.project_id) (snapshot_known cfg env p r snap snaps)
  unfolding snapshot_known
  snapshot_known-Keeps p r snap snaps = search (keeps, snapshot_now-Keeps) depth 24

  pub destroy_with-Keeps :
      {I : List Record → Type 0} (p : Parent) (r : Record) (snaps : List Text) (b : Bool)
      → Drops I
      → Keeps I (destroy_with cfg env p r snaps b)
  unfolding destroy_with
  destroy_with-Keeps p r snaps b d = search (keeps, forget-Keeps) depth 24
