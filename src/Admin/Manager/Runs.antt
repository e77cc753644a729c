-- ===== src/Admin/Manager/Runs.antt =====
-- Sequences of changes of state.go: the order that a store is in, the shares it serves, and what they
-- let people do.
use fileshare.Prelude.{
  ◌≡◌, refl, sym, subst, ◌⊎◌, inl, inr, Bool, true, false, some, List, [], ◌∷◌, map, Memᴰ,
  if◌then◌else◌, Bool-cases, delete_if, null, All-mem,
}
use fileshare.Access.Principal.{Principal}
use fileshare.Access.Share.{may_use, read_only_for}
use fileshare.Admin.{
  Grant, ManagedShare, ShareBlock, StateFile, is_disabled, to_side, split, writing, block, Result,
  done, failed, named, Site,
}
use fileshare.Admin.Gives.{Gives}
use fileshare.Admin.Changes.{Call, edited}
use fileshare.Admin.Changes.Rights.{IsSoundShare, IsSound, Moves}
use fileshare.Admin.Changes.Refines.{target, effect, edited-Turns}
use fileshare.Admin.Serving.{Machine, Served, expand_lists, open_block}
use fileshare.Admin.Serving.Loop.{StepIs, Each}
use fileshare.Admin.Serving.Expansion.{NamesPerson, allow-NamesPerson, writers-NamesPerson}
use fileshare.Admin.Serving.Granted.{
  IsOpenedFor, OpenedWith, open_block-OpenedWith, open_block-IsOpenedFor,
}
use fileshare.Admin.Serving.Rights.{used_by-Listed, written_by-Listed}
use fileshare.Admin.Manager.{
  managed_block, is_waiting, all_blocks, blocks_to_serve, Meeting, Store, recount, apply, conclude,
  apply_edit, change, run,
}
use fileshare.Admin.Manager.Atomic.{Applies, apply-Applies}

-- The state is sound, and the blocks that it asks to serve are served, each in this way.
abbrev IsOrdered : (ShareBlock → Served → Type 0) → Site → Store → Type 0
IsOrdered P site s = IsSound site s.state.shares × Each P (blocks_to_serve site s.state) s.serving

-- Each as it was opened.
abbrev pub IsInOrder : Site → Store → Type 0
IsInOrder site s =
    IsSound site s.state.shares × Each IsOpenedFor (blocks_to_serve site s.state) s.serving

-- Each as it was opened on this system, with its directory of people.
abbrev pub IsServedWith : Machine → Site → Store → Type 0
IsServedWith m site s =
    IsSound site s.state.shares × Each (OpenedWith m) (blocks_to_serve site s.state) s.serving

-- What is served after a change: what it opened, where it was made.
abbrev OpenedAs :
    (ShareBlock → Served → Type 0)
    → (ShareBlock → Served → Type 0)
    → Result Unit
    → ShareBlock
    → Served
    → Type 0
OpenedAs P Q (failed e) = P
OpenedAs P Q (done u) = Q

change-IsOrdered :
    (P Q : ShareBlock → Served → Type 0) (w : Meeting)
    → ((around : List Served) (b : ShareBlock) → StepIs Q b (open_block w.machine around b))
    → (site : Site) (c : Call) (s : Store) → IsOrdered P site s
    → IsOrdered (OpenedAs P Q (change w site c s).0) site (change w site c s).1
unfolding change recount
change-IsOrdered P Q w opens site c s h =
    after (edited w.outside site c s.state) (edited-Turns w.outside site c s.state h.0)
  where
    Ends : Result Unit × Store → Type 0
    Ends r = IsOrdered (OpenedAs P Q r.0) site r.1

    R : StateFile → Type 0
    R next =
        IsSound site next.shares
        × Moves (target c) (effect w.outside.printable c) s.state.shares next.shares

    concluded :
        (next : StateFile) (r : Result Unit × Store)
        → IsSound site next.shares
        → Applies Q w site next s r
        → Ends (conclude site next r)
    concluded next (failed e, t) sound k = (
      subst (λ st. IsSound site st.shares) (sym k.0) h.0,
      subst (λ st. Each P (blocks_to_serve site st) t.serving) (sym k.0)
          (subst (Each P (blocks_to_serve site s.state)) (sym k.1) h.1),
    )
    concluded next (done u, t) sound k = (sound, k.2)

    after : (r : Result StateFile) → Gives R r → Ends (apply_edit w site s r)
    after (failed e) k = h
    after (done next) k =
        concluded next (apply w site next s) k.0 (apply-Applies Q w opens site next s)

pub run-IsInOrder :
    (site : Site) (calls : List (Meeting × Call)) (s : Store)
    → IsInOrder site s
    → IsInOrder site (run site calls s)
unfolding run
run-IsInOrder site [] s h = h
run-IsInOrder site ((w, c) ∷ calls) s h = run-IsInOrder site calls (change w site c s).1 (
    either (change w site c s)
      (change-IsOrdered IsOpenedFor IsOpenedFor w (open_block-IsOpenedFor w.machine) site c s h))
  where
    either :
        (r : Result Unit × Store)
        → IsOrdered (OpenedAs IsOpenedFor IsOpenedFor r.0) site r.1
        → IsInOrder site r.1
    either (failed e, t) k = k
    either (done u, t) k = k

-- The system of the last of these calls that succeeded, or the one before them.
abbrev system_after : Machine → Machine → Result Unit → Machine
system_after m n (failed e) = m
system_after m n (done u) = n

pub last_system : Site → Machine → List (Meeting × Call) → Store → Machine
last_system site m [] s = m
last_system site m ((w, c) ∷ calls) s =
    last_system site (system_after m w.machine (change w site c s).0) calls (change w site c s).1

run-IsServedWith :
    (site : Site) (m : Machine) (calls : List (Meeting × Call)) (s : Store)
    → IsServedWith m site s
    → IsServedWith (last_system site m calls s) site (run site calls s)
unfolding run last_system
run-IsServedWith site m [] s h = h
run-IsServedWith site m ((w, c) ∷ calls) s h =
    run-IsServedWith site (system_after m w.machine (change w site c s).0) calls
      (change w site c s).1
      (either (change w site c s) (
        change-IsOrdered (OpenedWith m) (OpenedWith w.machine) w (open_block-OpenedWith w.machine)
          site c s h))
  where
    either :
        (r : Result Unit × Store)
        → IsOrdered (OpenedAs (OpenedWith m) (OpenedWith w.machine) r.0) site r.1
        → IsServedWith (system_after m w.machine r.0) site r.1
    either (failed e, t) k = k
    either (done u, t) k = k

-- A member of shares that were opened serves its block, which is one of the blocks.
Each-mem :
    (P : ShareBlock → Served → Type 0)
    → ((b : ShareBlock) (s : Served) → P b s → s.block ≡ b)
    → (bs : List ShareBlock) (ss : List Served) {x : Served} → Each P bs ss
    → Memᴰ x ss
    → P x.block x × Memᴰ x.block bs
Each-mem P same [] [] h m = elim m [ ]
Each-mem P same [] (s ∷ ss) h m = absurd h
Each-mem P same (b ∷ bs) [] h m = absurd h
Each-mem P same (b ∷ bs) (s ∷ ss) {x} h (Memᴰ.head e) =
    subst (λ y. P y.block y × Memᴰ y.block (b ∷ bs)) (sym e)
      (subst (λ c. P c s) (sym (same b s h.0)) h.0, Memᴰ.head (same b s h.0))
Each-mem P same (b ∷ bs) (s ∷ ss) h (Memᴰ.tail m) =
    let (o, n) = Each-mem P same bs ss h.1 m in (o, Memᴰ.tail n)

delete_if-mem :
    {A : Type 0} (p : A → Bool) (xs : List A) {x : A}
    → Memᴰ x (delete_if p xs)
    → Memᴰ x xs × (p x ≡ false)
delete_if-mem p [] m = elim m [ ]
delete_if-mem {A} p (y ∷ ys) {x} m = at (λ n. later (delete_if-mem p ys n)) (p y) refl m
  where
    later : Memᴰ x ys × (p x ≡ false) → Memᴰ x (y ∷ ys) × (p x ≡ false)
    later (n, e) = (Memᴰ.tail n, e)

    at :
        (Memᴰ x (delete_if p ys) → Memᴰ x (y ∷ ys) × (p x ≡ false))
        → (t : Bool) → p y ≡ t
        → Memᴰ x (if t then delete_if p ys else y ∷ delete_if p ys)
        → Memᴰ x (y ∷ ys) × (p x ≡ false)
    at rest true e n = rest n
    at rest false e (Memᴰ.head q) = (Memᴰ.head q, subst (λ z. p z ≡ false) (sym q) e)
    at rest false e (Memᴰ.tail n) = rest n

split-mem :
    (st : StateFile) (bs : List ShareBlock) {x : ShareBlock}
    → Memᴰ x (split st bs).0
    → Memᴰ x bs × (is_disabled st x.name ≡ false)
unfolding split
split-mem st [] m = elim m [ ]
split-mem st (b ∷ bs) {x} m = at (λ n. later (split-mem st bs n)) (is_disabled st b.name) refl m
  where
    Out : Type 0
    Out = Memᴰ x (b ∷ bs) × (is_disabled st x.name ≡ false)

    later : Memᴰ x bs × (is_disabled st x.name ≡ false) → Out
    later (n, e) = (Memᴰ.tail n, e)

    at :
        (Memᴰ x (split st bs).0 → Out)
        → (t : Bool) → is_disabled st b.name ≡ t
        → Memᴰ x (to_side t b (split st bs)).0
        → Out
    at rest true e n = rest n
    at rest false e (Memᴰ.head q) =
        (Memᴰ.head q, subst (λ z. is_disabled st z.name ≡ false) (sym q) e)
    at rest false e (Memᴰ.tail n) = rest n

-- Started in order, after any sequence of calls, each with whatever it meets, no two managed shares
-- have one name, case aside, none has the name of a share of the files, each has between one and a
-- thousand grants and no two to one subject, and none that is read-only has a grant of write.
pub run-IsSound_state :
    (site : Site) (calls : List (Meeting × Call)) (s : Store)
    → IsInOrder site s
    → IsSound site (run site calls s).state.shares
run-IsSound_state site calls s h = (run-IsInOrder site calls s h).0

-- Started in order, after any sequence of calls, every share that is served is one of the files or
-- of the state, its name is not disabled, and no share of that name waits for its volume.
pub run-serves_enabled :
    (site : Site) (calls : List (Meeting × Call)) (s : Store) (x : Served)
    → IsInOrder site s
    → Memᴰ x (run site calls s).serving
    → Memᴰ x.block (all_blocks site (run site calls s).state)
      × (is_disabled (run site calls s).state x.block.name ≡ false)
      × (is_waiting (run site calls s).state x.block.name ≡ false)
unfolding blocks_to_serve
run-serves_enabled site calls s x h m =
    let t : Store = run site calls s in
    let (o, n) =
      Each-mem IsOpenedFor (λ b s o. o.block) (blocks_to_serve site t.state) t.serving
        (run-IsInOrder site calls s h).1 m in
    let (k, waits) =
      delete_if-mem (λ b. is_waiting t.state b.name) (split t.state (all_blocks site t.state)).0
        n in
    let (i, off) = split-mem t.state (all_blocks site t.state) k in (i, off, waits)

null-map : (gs : List Grant) → null gs ≡ false → null (map (λ g. g.subject) gs) ≡ false
null-map [] h = h
null-map (g ∷ gs) h = refl

-- Started with shares that were opened on one system, after any sequence of calls, whoever may use a
-- share that is served for a managed share of the state is named by a grant of that share: as a
-- person, as a member that the directory gave for a group, or by a rule. The directory is that of the
-- last call that succeeded, or of the start. They see the share as read-only, unless it is not
-- read-only and a grant of write names them so.
pub run-serves_granted :
    (site : Site) (start : Machine) (calls : List (Meeting × Call)) (s : Store) (x : Served)
    (m : ManagedShare) (p : Principal)
    → IsServedWith start site s
    → Memᴰ x (run site calls s).serving
    → Memᴰ m (run site calls s).state.shares
    → x.block ≡ managed_block site m
    → may_use x.share p ≡ true
    → NamesPerson (last_system site start calls s) (map (λ g. g.subject) m.grants) p
      × ((read_only_for x.share p ≡ true)
          ⊎ ((m.read_only ≡ false)
              × NamesPerson (last_system site start calls s) (writing m.grants) p))
unfolding block
run-serves_granted site start calls s x m p h on kept same may =
    let t : Store = run site calls s in
    let b : ShareBlock = managed_block site m in
    let system : Machine = last_system site start calls s in
    let order : IsServedWith system site t = run-IsServedWith site start calls s h in
    let (o, with_it) : OpenedWith system b x =
      subst (λ c. OpenedWith system c x) same
        (Each-mem (OpenedWith system) (λ c y z. z.0.block) (blocks_to_serve site t.state) t.serving
          order.1 on).0 in
    let read : expand_lists system b ≡ some o.lists =
      subst (λ n. expand_lists n b ≡ some o.lists) with_it o.read in
    let sound : IsSoundShare m = All-mem IsSoundShare t.state.shares order.0.2 kept in
    (
      allow-NamesPerson system b o.lists read p
          (used_by-Listed b x o p (null-map m.grants sound.0.1) may),
      elim (Bool-cases (read_only_for x.share p)) [
        | inl e ↦ inl e
        | inr e ↦
            let (open_to, named) = written_by-Listed b x o p refl e in
            inr (open_to, writers-NamesPerson system b o.lists read p named)
      ],
    )
