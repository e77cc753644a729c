-- ===== src/Admin/Manager/Atomic.antt =====
-- change and apply of state.go: what memory, the state file and the served shares hold after each
-- way they can end.
use fileshare.Prelude.{
  suc, ◌≡◌, refl, ◌⊎◌, inl, inr, Bool, true, false, not, List, [], ◌∷◌, map, arith, if◌then◌else◌,
}
use fileshare.Admin.Serving.Loop.{Opens, StepIs, Each, open_shares-Each}
use fileshare.Admin.Serving.Granted.{IsOpenedFor, open_block-IsOpenedFor}
use fileshare.Admin.{ShareBlock, StateFile, not_written, not_serving, Result, done, failed, Site}
use fileshare.Admin.Changes.{Call, edited}
use fileshare.Admin.Serving.{Served, open_block, Opening, opened, not_opened, open_shares}
use fileshare.Admin.Manager.{
  blocks_to_serve, Meeting, Store, recount, let_go, swap, serve_opened, checked, apply_checked,
  apply, conclude, apply_edit, change,
}

abbrev pub block_of : Served → ShareBlock
block_of s = s.block

Each-blocks :
    (bs : List ShareBlock) (ss : List Served) → Each IsOpenedFor bs ss → map block_of ss ≡ bs
Each-blocks [] [] h = refl
Each-blocks [] (s ∷ ss) h = absurd h
Each-blocks (b ∷ bs) [] h = absurd h
Each-blocks (b ∷ bs) (s ∷ ss) h = ground (arith, h.0.block, Each-blocks bs ss h.1)

-- After a refusal: what is served is what was, and so are the states in memory and, unless the
-- server had stopped serving, in the file; then the file holds the state in memory again, or could
-- not be written.
abbrev pub IsRefused : Meeting → Store → Store → Type 0
IsRefused w s t =
    (t.state ≡ s.state)
    × (t.serving ≡ s.serving)
    × (t.generation ≡ s.generation)
    × ((t.file ≡ s.file)
        ⊎ ((w.is_serving ≡ false) × ((t.file ≡ s.state) ⊎ (w.writes_back ≡ false))))

-- After a change: the next state is in memory and in the file, and what is served is what it asks.
abbrev pub IsMade : Site → StateFile → Store → Store → Type 0
IsMade site next s t =
    (t.state ≡ next)
    × (t.file ≡ next)
    × (map block_of t.serving ≡ blocks_to_serve site next)
    × (t.generation ≡ suc s.generation)

abbrev pub IsWhole : Meeting → Site → Call → Store → Result Unit × Store → Type 0
IsWhole w site c s (failed e, t) = IsRefused w s t
IsWhole w site c s (done u, t) =
    (next : StateFile) × (edited w.outside site c s.state ≡ done next) × IsMade site next s t

-- The same before the state in memory is set, with what holds of each share that is opened.
abbrev pub Applies :
    (ShareBlock → Served → Type 0)
    → Meeting
    → Site
    → StateFile
    → Store
    → Result Unit × Store
    → Type 0
Applies P w site next s (failed e, t) = IsRefused w s t
Applies P w site next s (done u, t) =
    (t.state ≡ s.state)
    × (t.file ≡ next)
    × Each P (blocks_to_serve site next) t.serving
    × (t.generation ≡ suc s.generation)

pub serve_opened-Applies :
    (P : ShareBlock → Served → Type 0) (w : Meeting) (site : Site) (next : StateFile) (o : Opening)
    (s : Store)
    → Opens (Each P (blocks_to_serve site next)) o
    → Applies P w site next s (serve_opened w next o s)
unfolding serve_opened
serve_opened-Applies P w site next (not_opened closed) s h = (refl, refl, refl, inl refl)
serve_opened-Applies P w site next (opened shares) s h =
    tests w.writes_state w.is_serving w.writes_back refl refl
  where
    tests :
        (can serving back : Bool)
        → w.is_serving ≡ serving
        → w.writes_back ≡ back
        → Applies P w site next s (
            if not can
            then (failed not_written, let_go shares s.serving s)
            else if not serving
            then (
              failed not_serving,
              record (let_go shares s.serving s) { file = if back then s.state else next },
            )
            else (done tt, swap shares (record s { file = next })))
    tests false serving back e f = (refl, refl, refl, inl refl)
    tests true false true e f = (refl, refl, refl, inr (e, inl refl))
    tests true false false e f = (refl, refl, refl, inr (e, inr f))
    tests true true back e f = (refl, refl, h, refl)

pub apply-Applies :
    (P : ShareBlock → Served → Type 0) (w : Meeting)
    → ((around : List Served) (b : ShareBlock) → StepIs P b (open_block w.machine around b))
    → (site : Site) (next : StateFile) (s : Store) → Applies P w site next s (apply w site next s)
unfolding apply
apply-Applies P w opens site next s = after (checked w site s.state next)
  where
    after : (r : Result Unit) → Applies P w site next s (apply_checked w site next s r)
    after (failed e) = (refl, refl, refl, inl refl)
    after (done u) =
        serve_opened-Applies P w site next
          (open_shares w.machine (blocks_to_serve site next) s.serving) s
          (open_shares-Each P w.machine (blocks_to_serve site next) s.serving opens)

-- A change that fails leaves what is served, the generation, and the state in memory and in its
-- file as they were, but for the file where the server did not serve: then it is written back, or
-- writing it back failed. A change that succeeds puts the edited state in memory and in the file,
-- and serves the blocks of that state, in one new generation.
pub change-IsWhole :
    (w : Meeting) (site : Site) (c : Call) (s : Store) → IsWhole w site c s (change w site c s)
unfolding change recount
change-IsWhole w site c s = after (edited w.outside site c s.state) refl
  where
    concluded :
        (next : StateFile)
        → edited w.outside site c s.state ≡ done next
        → (r : Result Unit × Store) → Applies IsOpenedFor w site next s r
        → IsWhole w site c s (conclude site next r)
    concluded next e (failed f, t) h = h
    concluded next e (done u, t) h = (next, e, (refl, h.1, Each-blocks _ t.serving h.2, h.3))

    after :
        (r : Result StateFile)
        → edited w.outside site c s.state ≡ r
        → IsWhole w site c s (apply_edit w site s r)
    after (failed f) e = (refl, refl, refl, inl refl)
    after (done next) e =
        concluded next e (apply w site next s)
          (apply-Applies IsOpenedFor w (open_block-IsOpenedFor w.machine) site next s)
