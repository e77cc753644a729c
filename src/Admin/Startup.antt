-- ===== src/Admin/Startup.antt =====
-- state.go: the state file at a start (withState, newManager): which shares are served, which wait
-- for their volume and which are offline. Reading the file is left to its reader.
use fileshare.Prelude.{
  ◌≡◌, refl, sym, ap, ◌∙◌, inl, inr, Bool, true, false, not, ◌&&◌, Option, none, some, List, [],
  ◌∷◌, map, arith, if◌then◌else◌, Bool-cases, ◌==◌, ℕ_eq, List_eq, any, delete_if, null, All, Text,
  to_lower,
}
use fileshare.Admin.{
  Resolution, ManagedShare, ShareBlock, StateFile, split, unavailable, Site, from_files,
}
use fileshare.Admin.Edits.{Outside, cleaned, root_of}
use fileshare.Admin.Manager.{is_waiting, all_blocks, blocks_to_serve}

-- Why a server does not start with a state file.
pub data StartError : Type 0 where
  two_definitions outside_roots : Text → StartError
  bad_configuration : StartError

-- The configuration with the state's shares in it.
pub record Loaded : Type 0 where
  pub served : List ShareBlock
  pub waiting : List (ShareBlock × Text)
  pub offline : List ShareBlock
  pub managed_names : List Text

pub data Loading : Type 0 where
  loaded : Loaded → Loading
  refused_start : StartError → Loading

-- What resolveVolumes found, by the name of the share.
abbrev pub VolumesFound : Type 0
VolumesFound = Text → Option Resolution

-- A share with what asking for its volume found.
abbrev pub looked_up_at_start : VolumesFound → ManagedShare → ManagedShare
looked_up_at_start found m = elim m.volume [
  | none ↦ m
  | some v ↦ record m { resolved = found (to_lower m.name) }
]

-- `newManager`: the state that changes are made to.
unfoldable pub manager_state : VolumesFound → StateFile → StateFile
manager_state found st = record st { shares = map (looked_up_at_start found) st.shares }

-- The source of a share that is not a volume, resolved, or by its spelling where it is gone.
abbrev pub source_at_start : Outside → ManagedShare → Text
source_at_start o m =
    let src = if null m.image then m.directory else m.image in
    elim (o.eval_symlinks src) [ some real ↦ real | none ↦ cleaned src ]

abbrev pub outside_of_roots : Outside → Site → ManagedShare → Bool
outside_of_roots o site m = elim m.volume [
  | some v ↦ false
  | none ↦ elim (root_of o site.roots (source_at_start o m)) [ none ↦ true | some r ↦ false ]
]

-- The first share of the state that stops the start.
unfoldable pub first_error : Outside → Site → List ManagedShare → Option StartError
unfolding from_files
first_error o site [] = none
first_error o site (m ∷ ms) =
    let later = first_error o site ms in
    if from_files site m.name
    then some (two_definitions m.name)
    else if outside_of_roots o site m
    then some (outside_roots m.name)
    else later

-- Why a name is not served; of two shares of one name, the later one says.
unfoldable pub why_waiting : List ManagedShare → Text → Option Text
unfolding unavailable
why_waiting [] name = none
why_waiting (m ∷ ms) name =
    let here = not (null (unavailable m)) && to_lower m.name == to_lower name in
    elim (why_waiting ms name) [
      | some why ↦ some why
      | none ↦ if here then some (unavailable m) else none
    ]

-- The loop over the blocks that are not offline.
abbrev to_loaded :
    Option Text
    → ShareBlock
    → List ShareBlock × List (ShareBlock × Text)
    → List ShareBlock × List (ShareBlock × Text)
to_loaded none b (served, waiting) = (b ∷ served, waiting)
to_loaded (some why) b (served, waiting) = (served, (b, why) ∷ waiting)

unfoldable pub sort_out :
    List ManagedShare → List ShareBlock → List ShareBlock × List (ShareBlock × Text)
unfolding why_waiting
sort_out ms [] = ([], [])
sort_out ms (b ∷ bs) = to_loaded (why_waiting ms b.name) b (sort_out ms bs)

unfoldable pub load_state : Site → StateFile → Loaded
unfolding all_blocks split sort_out
load_state site st =
    let sides = split st (all_blocks site st) in
    let sorted = sort_out st.shares sides.0 in
    record {
      served = sorted.0;
      waiting = sorted.1;
      offline = sides.1;
      managed_names = map (λ m. m.name) st.shares;
    }

-- `withState`, of a state that was read; `checks` are those of the configuration.
unfoldable pub with_state :
    Outside → Site → VolumesFound → (List ShareBlock → Bool) → StateFile → Loading
unfolding first_error load_state manager_state all_blocks
with_state o site found checks st = elim (first_error o site st.shares) [
  | some e ↦ refused_start e
  | none ↦
      if checks (all_blocks site (manager_state found st))
      then loaded (load_state site (manager_state found st))
      else refused_start bad_configuration
]

why_waiting-is_waiting :
    (ms : List ManagedShare) (name : Text)
    → elim (why_waiting ms name) [ none ↦ false | some why ↦ true ]
      ≡ any (λ s. not (null (unavailable s)) && to_lower s.name == to_lower name) ms
unfolding why_waiting
why_waiting-is_waiting [] name = refl
why_waiting-is_waiting (m ∷ ms) name = ground (arith, why_waiting-is_waiting ms name)

sort_out-served :
    (st : StateFile) (bs : List ShareBlock)
    → (sort_out st.shares bs).0 ≡ delete_if (λ b. is_waiting st b.name) bs
unfolding sort_out is_waiting
sort_out-served st [] = refl
sort_out-served st (b ∷ bs) =
    at (sort_out-served st bs) (why_waiting st.shares b.name)
      (why_waiting-is_waiting st.shares b.name)
  where
    at :
        (sort_out st.shares bs).0 ≡ delete_if (λ x. is_waiting st x.name) bs
        → (o : Option Text) → elim o [ none ↦ false | some why ↦ true ] ≡ is_waiting st b.name
        → (to_loaded o b (sort_out st.shares bs)).0 ≡ (
            if is_waiting st b.name
            then delete_if (λ x. is_waiting st x.name) bs
            else b ∷ delete_if (λ x. is_waiting st x.name) bs)
    at rest none e = rw (← e) (ap (λ r. b ∷ r) rest)
    at rest (some why) e = rw (← e) rest

first_error-none :
    (o : Outside) (site : Site) (ms : List ManagedShare)
    → first_error o site ms ≡ none
    → All (λ m. (from_files site m.name ≡ false) × (outside_of_roots o site m ≡ false)) ms
unfolding first_error
first_error-none o site [] h = tt
first_error-none o site (m ∷ ms) h = elim (Bool-cases (from_files site m.name)) [
  | inl e ↦ absurd (ground arith)
  | inr e ↦ elim (Bool-cases (outside_of_roots o site m)) [
    | inl f ↦ absurd (ground arith)
    | inr f ↦ ((e, f), first_error-none o site ms (ground arith))
  ]
]

load_state-served :
    (site : Site) (st : StateFile) → (load_state site st).served ≡ blocks_to_serve site st
unfolding load_state blocks_to_serve
load_state-served site st = sort_out-served st (split st (all_blocks site st)).0

-- What a server that starts with a state file serves is what its manager, after a change to the
-- same state, would serve; no share of the state has the name of one of the files, and one without a
-- volume has its source under a source root.
pub with_state-serves :
    (o : Outside) (site : Site) (found : VolumesFound) (checks : List ShareBlock → Bool)
    (st : StateFile) (c : Loaded)
    → with_state o site found checks st ≡ loaded c
    → (c.served ≡ blocks_to_serve site (manager_state found st))
      × All (λ m. (from_files site m.name ≡ false) × (outside_of_roots o site m ≡ false)) st.shares
unfolding with_state
with_state-serves o site found checks st c h =
    at (first_error o site st.shares) refl (checks (all_blocks site (manager_state found st))) h
  where
    next : StateFile
    next = manager_state found st

    at :
        (r : Option StartError)
        → first_error o site st.shares ≡ r
        → (t : Bool)
        → elim r [
          | some e ↦ refused_start e
          | none ↦ if t then loaded (load_state site next) else refused_start bad_configuration
        ]
          ≡ loaded c
        → (c.served ≡ blocks_to_serve site next)
          × All
              (λ m. (from_files site m.name ≡ false) × (outside_of_roots o site m ≡ false))
              st.shares
    at (some e) f t g = absurd (ground arith)
    at none f false g = absurd (ground arith)
    at none f true g =
        let same : load_state site next ≡ c = ground arith in
        (
          ap (λ l. l.served) (sym same) ∙ load_state-served site next,
          first_error-none o site st.shares f,
        )
