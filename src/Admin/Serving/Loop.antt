-- ===== src/Admin/Serving/Loop.antt =====
-- The loop of openSharesExpanding: from what each round serves to the whole list.
use fileshare.Prelude.{sym, subst, List, [], ◌∷◌, ◌++◌, append-nil, append-one}
use fileshare.Admin.{ShareBlock}
use fileshare.Admin.Serving.{
  Machine, Served, Step, refused_block, reused, fresh, open_block, Opening, opened, not_opened,
  closers_of, open_from, open_shares,
}

-- What holds of the shares that were opened.
abbrev pub Opens : (List Served → Type 0) → Opening → Type 0
Opens Q (opened shares) = Q shares
Opens Q (not_opened closed) = Unit

-- What holds of the share that a step serves for a block.
abbrev pub StepIs : (ShareBlock → Served → Type 0) → ShareBlock → Step → Type 0
StepIs P b refused_block = Unit
StepIs P b (reused s) = P b s
StepIs P b (fresh s) = P b s

-- A block for a share, in the order of the lists.
abbrev pub Each : (ShareBlock → Served → Type 0) → List ShareBlock → List Served → Type 0
Each P [] [] = Unit
Each P [] (s ∷ ss) = ⊥
Each P (b ∷ bs) [] = ⊥
Each P (b ∷ bs) (s ∷ ss) = P b s × Each P bs ss

module _ (P : ShareBlock → Served → Type 0) where
  Each-append :
      (bs : List ShareBlock) (ss : List Served) (b : ShareBlock) (s : Served)
      → Each P bs ss
      → P b s
      → Each P (bs ++ (b ∷ [])) (ss ++ (s ∷ []))
  Each-append [] [] b s h p = (p, tt)
  Each-append [] (x ∷ ss) b s h p = absurd h
  Each-append (a ∷ bs) [] b s h p = absurd h
  Each-append (a ∷ bs) (x ∷ ss) b s h p = (h.0, Each-append bs ss b s h.1 p)

  open_from-Each :
      (m : Machine) (previous : List Served)
      → ((around : List Served) (b : ShareBlock) → StepIs P b (open_block m around b))
      → (past : List ShareBlock) (out new : List Served) (bs : List ShareBlock) → Each P past out
      → Opens (Each P (past ++ bs)) (open_from m previous out new bs)
  unfolding open_from
  open_from-Each m previous step past out new [] h =
      subst (λ bs. Each P bs out) (sym (append-nil past)) h
  open_from-Each m previous step past out new (b ∷ bs) h =
      after
        (λ s later p.
          subst (λ every. Opens (Each P every) (open_from m previous (out ++ (s ∷ [])) later bs))
            (append-one past b bs)
            (open_from-Each m previous step (past ++ (b ∷ [])) (out ++ (s ∷ [])) later bs
              (Each-append past out b s h p)))
        (open_block m (previous ++ out) b) (step (previous ++ out) b)
    where
      after :
          ((s : Served) (later : List Served)
            → P b s
            → Opens (Each P (past ++ (b ∷ bs))) (open_from m previous (out ++ (s ∷ [])) later bs))
          → (r : Step) → StepIs P b r
          → Opens (Each P (past ++ (b ∷ bs))) (elim r [
            | refused_block ↦ not_opened (closers_of new)
            | reused s ↦ open_from m previous (out ++ (s ∷ [])) new bs
            | fresh s ↦ open_from m previous (out ++ (s ∷ [])) (new ++ (s ∷ [])) bs
          ])
      after goes_on refused_block p = tt
      after goes_on (reused s) p = goes_on s new p
      after goes_on (fresh s) p = goes_on s (new ++ (s ∷ [])) p

  pub open_shares-Each :
      (m : Machine) (bs : List ShareBlock) (previous : List Served)
      → ((around : List Served) (b : ShareBlock) → StepIs P b (open_block m around b))
      → Opens (Each P bs) (open_shares m bs previous)
  unfolding open_shares
  open_shares-Each m bs previous step = open_from-Each m previous step [] [] [] bs tt
