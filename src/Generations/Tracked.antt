-- ===== src/Generations/Tracked.antt =====
-- What every step keeps of one connection (generation.go), and of the count of open ones.
use fileshare.Prelude.{
  ℕ, zero, suc, ◌+◌, ◌≡◌, refl, subst, inl, inr, Bool, true, false, not, ◌&&◌, ◌||◌, some, List, [],
  ◌∷◌, ◌++◌, map, arith, if◌then◌else◌, Bool-cases, ◌==◌, ℕ_eq, List_eq, All, nth, set_at,
}
use fileshare.Generations.{
  Phase, taken, counted, refused, given, Closing, not_closed, closed, uncounted, removed, Conn,
  is_given, shut_conn, is_removed, is_left, is_counted,
}

-- The place of a connection on its way from the feed to its removal.
unfoldable pub rank : Conn → ℕ
rank c = elim c.closing [
  | not_closed ↦ elim c.phase [ taken ↦ 0 | counted ↦ 1 | refused ↦ 2 | given ↦ 2 ]
  | closed ↦ 3
  | uncounted ↦ 4
  | removed ↦ 5
]

abbrev pub is_not_closed : Closing → Bool
is_not_closed not_closed = true
is_not_closed _ = false

abbrev pub is_entered : Phase → Bool
is_entered given = true
is_entered refused = true
is_entered _ = false

-- Of a connection, where the current generation is this one, stopped and returned or not: one that a
-- server has and that is not removed is in the set, or shut took it from there, and no other is; one
-- in the set is of the current generation, not stopped, and is not removed; a close begins only once Accept is through
-- with it; one of an earlier generation is removed; and so it is left by Accept where the server
-- returned.
pub record IsTracked (current : ℕ) (stopped returned : Bool) (c : Conn) : Type 0 where
  pub held : (not (is_given c.phase) || (is_removed c.closing || (c.tracked || c.to_close))) ≡ true
  pub live : (not c.tracked || (c.generation == current && not stopped)) ≡ true
  pub owned : (not (c.tracked || c.to_close) || is_given c.phase) ≡ true
  pub loose : (not c.tracked || not (is_removed c.closing)) ≡ true
  pub entered : (is_not_closed c.closing || is_entered c.phase) ≡ true
  pub settled : (c.generation == current || is_removed c.closing) ≡ true
  pub left : (not returned || is_left c) ≡ true

abbrev pub count_of : Conn → ℕ
count_of c = if is_counted c then 1 else 0

abbrev pub counted_open : List Conn → ℕ
counted_open [] = 0
counted_open (c ∷ cs) = count_of c + counted_open cs

pub counted_open-set_at :
    (cs : List Conn) (i : ℕ) {c : Conn} (d : Conn)
    → nth cs i ≡ some c
    → counted_open (set_at i d cs) + count_of c ≡ counted_open cs + count_of d
counted_open-set_at [] i d e = absurd (cc)
counted_open-set_at (b ∷ cs) zero {c} d e =
    let q : b ≡ c = ground arith in
    subst
      (λ x. count_of d + counted_open cs + count_of x ≡ count_of b + counted_open cs + count_of d) q
      (omega arith)
counted_open-set_at (b ∷ cs) (suc i) d e = omega (arith, counted_open-set_at cs i d e)

pub counted_open-snoc :
    (cs : List Conn) (c : Conn) → counted_open (cs ++ (c ∷ [])) ≡ counted_open cs + count_of c
counted_open-snoc [] c = omega arith
counted_open-snoc (d ∷ cs) c = omega (arith, counted_open-snoc cs c)

pub counted_open-map :
    (g : Conn → Conn) (cs : List Conn)
    → ((c : Conn) → is_counted (g c) ≡ is_counted c)
    → counted_open (map g cs) ≡ counted_open cs
counted_open-map g [] h = refl
counted_open-map g (c ∷ cs) h = rw (h c) (omega (arith, counted_open-map g cs h))

pub shut_conn-count : (g : ℕ) (c : Conn) → is_counted (shut_conn g c) ≡ is_counted c
unfolding shut_conn is_counted
shut_conn-count g c = elim (Bool-cases (c.generation == g && c.tracked)) [
  | inl e ↦ rw e refl
  | inr e ↦ rw e refl
]

pub counted_open-removed :
    (cs : List Conn) → All (λ c. is_removed c.closing ≡ true) cs → counted_open cs ≡ 0
unfolding is_counted
counted_open-removed [] h = refl
counted_open-removed (c ∷ cs) h = ground (arith, h.0, counted_open-removed cs h.1)

pub removed-uncounted : (d : Conn) → is_removed d.closing ≡ true → is_counted d ≡ false
unfolding is_counted
removed-uncounted d h = ground arith
