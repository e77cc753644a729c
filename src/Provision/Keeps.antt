-- ===== src/Provision/Keeps.antt =====
-- What the calls of the provisioner keep, and the rules that carry it through a `do` block.
use fileshare.Prelude.{
  ℕ, ◌≤◌, ◌≡◌, ◌⊎◌, Bool, true, false, Option, none, some, List, if◌then◌else◌, All, Text,
}
use fileshare.Provision.Service.{
  find_parent, check_quota, check_room, volume, saved, save, ownership, quietly,
}
use fileshare.Provision.Records.{IsDistinct, Has}
use fileshare.Provision.{
  Record, Parent, Config, Err, refuse, absent, not_ours, no_space, fault, Result, ok, err, Env,
  Store, M, bind_at, ◌>>=◌, guard, ask, look, settle, change, put_world,
}

-- A project id lies in the range of its record's parent; 0 is none.
abbrev pub InRange : Config → Record → Type 0
InRange cfg r =
    (r.project_id ≡ 0)
    ⊎ ((p : Parent) × (find_parent cfg r.parent ≡ some p)
        × (p.lo ≤ r.project_id)
        × (r.project_id ≤ p.hi))

-- No two records name one volume or hold one project id, and every id lies in its parent's range.
abbrev pub IsSound : Config → List Record → Type 0
IsSound cfg xs = IsDistinct xs × All (InRange cfg) xs

-- So while one volume, if recorded, holds this project id.
pub record Holds (cfg : Config) (k n : Text) (pid : ℕ) (xs : List Record) : Type 0 where
  pub sound : IsSound cfg xs
  pub has : All (Has k n pid) xs

-- A call keeps a property of the records, whether it succeeds or fails.
pub record Keeps {W A : Type 0} (I : List Record → Type 0) (m : M W A) : Type 0 where
  pub at : (s : Store W) → I s.vols → I (m s).1.vols

-- A call that starts where `I` holds of the records ends where `J` does.
pub record Takes {W A : Type 0} (I J : List Record → Type 0) (m : M W A) : Type 0 where
  pub from : (s : Store W) → I s.vols → J (m s).1.vols

assoc-keeps :
    {W A B C : Type 0} (I : List Record → Type 0) (f : A → M W B) (g : B → M W C)
    (r : Result A × Store W)
    → I (bind_at (λ a. f a >>= g) r).1.vols
    → I (bind_at g (bind_at f r)).1.vols
assoc-keeps I f g (ok a, s) i = i
assoc-keeps I f g (err e, s) i = i

module _ {W : Type 0} {I : List Record → Type 0} where
  bind_at-takes :
      {J : List Record → Type 0} {A B : Type 0} (f : A → M W B)
      → ((xs : List Record) → I xs → J xs)
      → ((a : A) → Takes I J (f a))
      → (r : Result A × Store W) → I r.1.vols
      → J (bind_at f r).1.vols
  bind_at-takes f w k (ok a, s) h = (k a).from s h
  bind_at-takes f w k (err e, s) h = w s.vols h

  bind_at-keeps :
      {A B : Type 0} (f : A → M W B)
      → ((a : A) → Keeps I (f a))
      → (r : Result A × Store W) → I r.1.vols
      → I (bind_at f r).1.vols
  bind_at-keeps f k (ok a, s) h = (k a).at s h
  bind_at-keeps f k (err e, s) h = h

  -- The first call keeps `I`, which the second may give up for something weaker.
  pub Takes-bind :
      {J : List Record → Type 0} {A B : Type 0} (m : M W A) (f : A → M W B)
      → ((xs : List Record) → I xs → J xs)
      → Keeps I m
      → ((a : A) → Takes I J (f a))
      → Takes I J (m >>= f)
  Takes-bind m f w h k = record { from = λ s i. bind_at-takes f w k (m s) (h.at s i) }

  pub Keeps-bind :
      {A B : Type 0} (m : M W A) (f : A → M W B)
      → Keeps I m
      → ((a : A) → Keeps I (f a))
      → Keeps I (m >>= f)
  Keeps-bind m f h k = record { at = λ s i. bind_at-keeps f k (m s) (h.at s i) }

  pub Takes-change :
      {J : List Record → Type 0} {B : Type 0} (c : List Record → List Record) (f : Unit {0} → M W B)
      → ((xs : List Record) → I xs → J (c xs))
      → Keeps J (f tt)
      → Takes I J (change c >>= f)
  Takes-change c f h k = record { from = λ s i. k.at (record s { vols = c s.vols }) (h s.vols i) }

  pub Keeps-pure : {A : Type 0} (a : A) → Keeps {W = W} I (λ s. (ok a, s))
  Keeps-pure a = record { at = λ s i. i }

  pub Keeps-fail : {A : Type 0} (e : Err) → Keeps {W = W} {A = A} I (λ s. (err e, s))
  Keeps-fail e = record { at = λ s i. i }

  pub Keeps-look : {A : Type 0} (q : Store W → A) → Keeps I (look q)
  Keeps-look q = record { at = λ s i. i }

  pub Keeps-ask : {A : Type 0} (q : W → Result A) → Keeps I (ask q)
  Keeps-ask q = record { at = λ s i. i }

  pub Keeps-guard : (b : Bool) (e : Err) → Keeps {W = W} I (guard b e)
  Keeps-guard true e = Keeps-pure tt
  Keeps-guard false e = Keeps-fail e

  pub Keeps-settle : (o : Option Err) → Keeps {W = W} I (settle o)
  Keeps-settle none = Keeps-pure tt
  Keeps-settle (some e) = Keeps-fail e

  pub Keeps-put_world : (w : W) → Keeps I (put_world w)
  Keeps-put_world w = record { at = λ s i. i }

  pub Keeps-change :
      (f : List Record → List Record)
      → ((xs : List Record) → I xs → I (f xs))
      → Keeps {W = W} I (change f)
  Keeps-change f h = record { at = λ s i. h s.vols i }

  pub Takes-if :
      {J : List Record → Type 0} {A : Type 0} (b : Bool) (m k : M W A)
      → Takes I J m
      → Takes I J k
      → Takes I J (if b then m else k)
  Takes-if true m k h i = h
  Takes-if false m k h i = i

  pub Keeps-if :
      {A : Type 0} (b : Bool) (m k : M W A) → Keeps I m → Keeps I k → Keeps I (if b then m else k)
  Keeps-if true m k h i = h
  Keeps-if false m k h i = i

  pub Keeps-if-bind :
      {A B : Type 0} (b : Bool) (m k : M W A) (f : A → M W B)
      → Keeps I (m >>= f)
      → Keeps I (k >>= f)
      → Keeps I ((if b then m else k) >>= f)
  Keeps-if-bind true m k f h i = h
  Keeps-if-bind false m k f h i = i

  pub Keeps-assoc :
      {A B C : Type 0} (m : M W A) (f : A → M W B) (g : B → M W C)
      → Keeps I (m >>= λ a. f a >>= g)
      → Keeps I ((m >>= f) >>= g)
  Keeps-assoc m f g h = record { at = λ s i. assoc-keeps I f g (m s) (h.at s i) }

pub ruleset keeps = (
  Keeps-bind, Keeps-pure, Keeps-fail, Keeps-look, Keeps-ask, Keeps-guard, Keeps-settle,
  Keeps-put_world, Keeps-if,
)

module _ {W : Type 0} (cfg : Config) (env : Env W) where
  saved-keeps :
      (I : List Record → Type 0) (s : Store W) (r : W × Option Err)
      → I s.vols
      → I (saved cfg env s r).1.vols
  saved-keeps I s (w, none) h = h
  saved-keeps I s (w, some e) h = h

module _ {W : Type 0} (cfg : Config) (env : Env W) {I : List Record → Type 0} where
  pub save-Keeps : Keeps I (save cfg env)
  unfolding save
  save-Keeps = record { at = λ s h. saved-keeps cfg env I s (env.save s.world) h }

  pub Keeps-quietly : (m : M W (Unit {0})) → Keeps I m → Keeps I (quietly cfg env m)
  Keeps-quietly m h = record { at = λ s i. h.at s i }

  pub ownership-Keeps : (o : Option Err) → Keeps I (ownership cfg env o)
  unfolding ownership
  ownership-Keeps none = Keeps-pure tt
  ownership-Keeps (some absent) = Keeps-fail _
  ownership-Keeps (some not_ours) = Keeps-fail _
  ownership-Keeps (some (refuse c)) = Keeps-fail _
  ownership-Keeps (some no_space) = Keeps-fail _
  ownership-Keeps (some fault) = Keeps-fail _

  pub check_quota-Keeps : (q : ℕ) → Keeps I (check_quota cfg env q)
  unfolding check_quota
  check_quota-Keeps q = search keeps

  pub check_room-Keeps : (p : Parent) (want : ℕ) → Keeps I (check_room cfg env p want)
  unfolding check_room
  check_room-Keeps p want = search keeps

  pub volume-Keeps : (p : Parent) (r : Record) → Keeps I (volume cfg env p r)
  unfolding volume
  volume-Keeps p r = search keeps
