-- ===== src/Admin/Reload/Fresh.antt =====
-- reload of reload.go: the lists of the served shares beside the directory as it is now.
use fileshare.Prelude.{
  suc, ◌≡◌, refl, sym, ap, ◌∙◌, subst, ◌↔◌, ◌⊎◌, inl, inr, Bool, true, false, not, ◌&&◌, Option,
  none, some, List, [], ◌∷◌, map, Memᴰ, arith, if◌then◌else◌, Bool-cases, Option-cases, ℕ_eq,
  List_eq, all, null, All, All-mem, contains, all-All, Text,
}
use fileshare.Access.Share.{Share}
use fileshare.Admin.{ShareBlock}
use fileshare.Admin.Serving.{
  Machine, tolerant_expand, Served, Lists, expand_lists, new_share, Opening, opened, not_opened,
  open_shares,
}
use fileshare.Admin.Serving.Loop.{Opens, Each, open_shares-Each}
use fileshare.Access.Principal.{ClaimRule, ok, split_rules}
use fileshare.Access.Principal.Matching.{contains_iff}
use fileshare.Admin.Serving.Expansion.{Named, tolerant_expand-Named, expand_both-lists}
use fileshare.Admin.Serving.Granted.{OpenedWith, open_block-OpenedWith}
use fileshare.Admin.Manager.{let_go, swap}
use fileshare.Admin.Reload.{
  Person, Server, Reading, not_among, some_changed, same_set, is_moved, lists_moved, Ending,
  nothing_to_do, people_added, generation_swapped, reload_failed, failed_reload, swap_in, stays,
  reload_with, reload,
}

-- Who is in one list is in the other.
abbrev pub HasSame : List Text → List Text → Type 0
HasSame a b = (t : Text) → Memᴰ t a ↔ Memᴰ t b

-- The lists of a share are, by their members, what its block's expand to now.
HasLists : Machine → Served → Type 0
HasLists m s =
    (l : Lists) × (expand_lists m s.block ≡ some l)
    × HasSame l.allow s.share.allow
    × ((s.share.read_only ≡ true) ⊎ HasSame l.writers s.share.writers)

-- The lists of a share have in them exactly whom its block's entries name in the directory as it is
-- now; of the writers of a share that is read-only nothing is said.
abbrev pub IsFresh : Machine → Served → Type 0
IsFresh m s =
    (an : List Text) × (ac : List ClaimRule) × (wn : List Text) × (wc : List ClaimRule)
    × (split_rules s.block.allow ≡ ok an ac)
    × (split_rules s.block.writers ≡ ok wn wc)
    × ((t : Text) → Memᴰ t s.share.allow ↔ Named m an t)
    × ((s.share.read_only ≡ true) ⊎ ((t : Text) → Memᴰ t s.share.writers ↔ Named m wn t))

same-Named :
    (m : Machine) (names expanded xs : List Text)
    → tolerant_expand m names ≡ some expanded
    → HasSame expanded xs
    → (t : Text) → Memᴰ t xs ↔ Named m names t
same-Named m names expanded xs e h t =
    let stands = tolerant_expand-Named m names expanded e t in
    ((λ k. stands.0 ((h t).1 k)), λ k. (h t).0 (stands.1 k))

lists-IsFresh : (m : Machine) (s : Served) → HasLists m s → IsFresh m s
unfolding HasLists expand_lists
lists-IsFresh m s (l, read, a, w) =
    let (sa, sw, ea, ew) =
      expand_both-lists m (split_rules s.block.allow) (split_rules s.block.writers) l read in
    (
      l.allow_names,
      l.allow_claims,
      l.writer_names,
      l.writer_claims,
      sa,
      sw,
      same-Named m l.allow_names l.allow s.share.allow ea a,
      elim w [
        | inl ro ↦ inl ro
        | inr k ↦ inr (same-Named m l.writer_names l.writers s.share.writers ew k)
      ],
    )

same_set-HasSame : (a b : List Text) → same_set a b ≡ true → HasSame a b
unfolding same_set
same_set-HasSame a b h t = (into b a (ground arith), into a b (ground arith))
  where
    into : (ys xs : List Text) → all (contains ys) xs ≡ true → Memᴰ t xs → Memᴰ t ys
    into ys xs e m =
        (contains_iff ys t).0
          (All-mem (λ x. contains ys x ≡ true) xs (all-All (contains ys) xs e) m)

HasSame-refl : (xs : List Text) → HasSame xs xs
HasSame-refl xs t = (λ m. m, λ m. m)

opened-IsFresh : (m : Machine) (b : ShareBlock) (s : Served) → OpenedWith m b s → IsFresh m s
unfolding new_share HasLists
opened-IsFresh m b s (o, e) = lists-IsFresh m s (
  o.lists,
  subst (λ n. expand_lists n s.block ≡ some o.lists) e
      (subst (λ c. expand_lists o.machine c ≡ some o.lists) (sym o.block) o.read),
  subst (HasSame o.lists.allow) (sym o.tight.allow) (HasSame-refl o.lists.allow),
  elim o.tight.writers [
    | inr w ↦ inl w.1
    | inl w ↦ inr (subst (HasSame o.lists.writers) (sym w) (HasSame-refl o.lists.writers))
  ],
)

still :
    (l : Lists) (s : Share)
    → is_moved l s ≡ false
    → HasSame l.allow s.allow × ((s.read_only ≡ true) ⊎ HasSame l.writers s.writers)
unfolding is_moved
still l s h = elim (Bool-cases s.read_only) [
  | inl e ↦ (same_set-HasSame l.allow s.allow (ground arith), inl e)
  | inr e ↦ (
    same_set-HasSame l.allow s.allow (ground arith),
    inr (same_set-HasSame l.writers s.writers (ground arith)),
  )
]

stayed-IsFresh :
    (m : Machine) (ss : List Served) → lists_moved m ss ≡ some false → All (IsFresh m) ss
unfolding lists_moved HasLists
stayed-IsFresh m [] h = tt
stayed-IsFresh m (s ∷ ss) h = elim (Option-cases (expand_lists m s.block)) [
  | inl e ↦ absurd (ground arith)
  | inr (l, e) ↦ elim (Option-cases (lists_moved m ss)) [
    | inl f ↦ absurd (ground arith)
    | inr (true, f) ↦ absurd (ground arith)
    | inr (false, f) ↦
        let kept : is_moved l s.share ≡ false = ground arith in
        let (a, w) = still l s.share kept in (lists-IsFresh m s (l, e, a, w), stayed-IsFresh m ss f)
  ]
]

Each-IsFresh :
    (m : Machine) (bs : List ShareBlock) (ss : List Served)
    → Each (OpenedWith m) bs ss
    → All (IsFresh m) ss
Each-IsFresh m [] [] h = tt
Each-IsFresh m [] (s ∷ ss) h = absurd h
Each-IsFresh m (b ∷ bs) [] h = absurd h
Each-IsFresh m (b ∷ bs) (s ∷ ss) h = (opened-IsFresh m b s h.0, Each-IsFresh m bs ss h.1)

-- What a reload leaves to be served.
abbrev IsUpToDate : Reading → Server → Server × Ending → Type 0
IsUpToDate r s (t, e) =
    All (IsFresh r.machine) t.store.serving
    ⊎ ((e ≡ reload_failed) × (t.store.serving ≡ s.store.serving))

swap_in-IsUpToDate :
    (r : Reading) (next : List Person) (s : Server) (bs : List ShareBlock) (o : Opening)
    → Opens (Each (OpenedWith r.machine) bs) o
    → IsUpToDate r s (swap_in r next s o)
swap_in-IsUpToDate r next s bs (not_opened closed) h = inr (refl, refl)
swap_in-IsUpToDate r next s bs (opened shares) h = at r.is_serving
  where
    at :
        (t : Bool)
        → IsUpToDate r s (
            if t
            then (
              record s { people = next; store = swap shares s.store; swapped = suc s.swapped },
              generation_swapped,
            )
            else failed_reload
                (record s { people = next; store = let_go shares s.store.serving s.store }))
    at true = inl (Each-IsFresh r.machine bs shares h)
    at false = inr (refl, refl)

reload_with-IsUpToDate :
    (r : Reading) (next : List Person) (s : Server) (o : Option Bool)
    → lists_moved r.machine s.store.serving ≡ o
    → IsUpToDate r s (reload_with r next s o)
reload_with-IsUpToDate r next s none e = inr (refl, refl)
reload_with-IsUpToDate r next s (some moved) e =
    at (null (not_among s.people next) && not (some_changed s.people next) && not moved) refl
  where
    stayed :
        (t : Bool)
        → moved ≡ false
        → IsUpToDate r s (
            if t
            then (record s { unchanged = suc s.unchanged }, nothing_to_do)
            else (record s { people = next; added = suc s.added }, people_added))
    stayed true m = inl (stayed-IsFresh r.machine s.store.serving (e ∙ ap some m))
    stayed false m = inl (stayed-IsFresh r.machine s.store.serving (e ∙ ap some m))

    at :
        (t : Bool)
        → (null (not_among s.people next) && not (some_changed s.people next) && not moved) ≡ t
        → IsUpToDate r s (
            if t
            then stays s.people next s
            else swap_in r next s
                (open_shares r.machine (map (λ x. x.block) s.store.serving) s.store.serving))
    at true q = stayed (null (not_among next s.people)) (ground arith)
    at false q =
        swap_in-IsUpToDate r next s (map (λ x. x.block) s.store.serving)
          (open_shares r.machine (map (λ x. x.block) s.store.serving) s.store.serving)
          (open_shares-Each (OpenedWith r.machine) r.machine (map (λ x. x.block) s.store.serving)
            s.store.serving (open_block-OpenedWith r.machine))

-- After a reload, with or without a new generation, the lists of every share that is served have in
-- them exactly the names that its block's entries have, a group's being those of its members in the
-- directory as it is now, but for the writers of a read-only share; or the reload failed, and what was
-- served is served.
pub reload-IsFresh :
    (r : Reading) (s : Server)
    → All (IsFresh r.machine) (reload r s).0.store.serving
      ⊎ (((reload r s).1 ≡ reload_failed) × ((reload r s).0.store.serving ≡ s.store.serving))
unfolding reload
reload-IsFresh r s = at r.identities
  where
    at :
        (o : Option (List Person))
        → IsUpToDate r s (elim o [
          | none ↦ failed_reload s
          | some next ↦ reload_with r next s (lists_moved r.machine s.store.serving)
        ])
    at none = inr (refl, refl)
    at (some next) = reload_with-IsUpToDate r next s (lists_moved r.machine s.store.serving) refl
