-- ===== src/Generations/Drained.antt =====
-- How far a connection of a stopped generation is (generation.go), and that no step on a connection
-- takes one back.
use fileshare.Prelude.{
  ℕ, zero, suc, ◌-◌, ◌≤◌, ◌≡◌, refl, sym, ap, ◌∙◌, subst, inl, inr, Bool, true, false, ◌||◌, some,
  List, [], ◌∷◌, ◌++◌, map, arith, if◌then◌else◌, Bool-cases, ◌==◌, ℕ_eq, List_eq, nth, set_at,
}
use fileshare.Generations.{
  Phase, taken, counted, refused, given, Closing, not_closed, closed, uncounted, removed, Conn,
  Feed, is_stopped, count_phase, enter_phase, close_conn, uncount_phase, remove_phase, is_removed,
}
use fileshare.Generations.Tracked.{rank}

-- A connection, of a generation that is stopped, at this place on its way or further.
pub record IsAt (f : Feed) (i r : ℕ) : Type 0 where
  pub conn : Conn
  pub found : nth f.conns i ≡ some conn
  pub far : r ≤ rank conn
  pub ending : (is_removed conn.closing || is_stopped f conn.generation) ≡ true

pub nth-set_at :
    (cs : List Conn) (i j : ℕ) {c : Conn} (d e : Conn)
    → nth cs i ≡ some c
    → nth cs j ≡ some e
    → nth (set_at j d cs) i ≡ some (if j == i then d else c)
nth-set_at [] i j d e p q = absurd (cc)
nth-set_at (b ∷ cs) zero zero d e p q = refl
nth-set_at (b ∷ cs) zero (suc j) d e p q = ground arith
nth-set_at (b ∷ cs) (suc i) zero d e p q = ground arith
nth-set_at (b ∷ cs) (suc i) (suc j) d e p q = ground (arith, nth-set_at cs i j d e p q)

pub nth-append :
    (cs ds : List Conn) (i : ℕ) {c : Conn} → nth cs i ≡ some c → nth (cs ++ ds) i ≡ some c
nth-append [] ds i p = absurd (cc)
nth-append (b ∷ cs) ds zero p = p
nth-append (b ∷ cs) ds (suc i) p = nth-append cs ds i p

pub nth-map :
    (g : Conn → Conn) (cs : List Conn) (i : ℕ) {c : Conn}
    → nth cs i ≡ some c
    → nth (map g cs) i ≡ some (g c)
nth-map g [] i p = absurd (cc)
nth-map g (b ∷ cs) zero p = ground arith
nth-map g (b ∷ cs) (suc i) p = nth-map g cs i p

pub rank-removed : (c : Conn) → is_removed c.closing ≡ true → rank c ≡ 5
unfolding rank
rank-removed c h = ground arith

pub removed-rank : (c : Conn) → 5 ≤ rank c → is_removed c.closing ≡ true
unfolding rank
removed-rank c h = ground arith

module _ {f : Feed} {i r : ℕ} (a : IsAt f i r) where
  -- A connection that a step moved on, and the others, are where they were or further.
  pub put-IsAt :
      (j n : ℕ) (e d : Conn)
      → nth f.conns j ≡ some e
      → d.generation ≡ e.generation
      → rank e ≤ rank d
      → IsAt (record f { conns = set_at j d f.conns; open_count = n }) i r
  put-IsAt j n e d p g le = elim (Bool-cases (j == i)) [
    | inr q ↦ record {
      conn = a.conn;
      found = nth-set_at f.conns i j d e a.found p ∙ rw q refl;
      far = a.far;
      ending = a.ending;
    }
    | inl q ↦
        let s : j ≡ i = ground arith in
        let same : a.conn ≡ e = some_inj (sym a.found ∙ ap (nth f.conns) (sym s) ∙ p) in
        record {
          conn = d;
          found = nth-set_at f.conns i j d e a.found p ∙ rw q refl;
          far = omega (arith, a.far, ap rank same, le);
          ending = moved e d same g le;
        }
  ]
    where
      some_inj : {x y : Conn} → some x ≡ some y → x ≡ y
      some_inj h = cc

      moved :
          (e d : Conn)
          → a.conn ≡ e
          → d.generation ≡ e.generation
          → rank e ≤ rank d
          → (is_removed d.closing || is_stopped f d.generation) ≡ true
      moved e d same g le = elim (Bool-cases (is_removed e.closing)) [
        | inl gone ↦ let x = removed-rank d (omega (arith, rank-removed e gone, le)) in ground arith
        | inr left ↦
            let x : (is_removed e.closing || is_stopped f e.generation) ≡ true =
              subst (λ c. (is_removed c.closing || is_stopped f c.generation) ≡ true) same
                a.ending in
            rw g (ground arith)
      ]

  pub count_phase-IsAt :
      (j : ℕ) (e : Conn) (p : Phase)
      → nth f.conns j ≡ some e
      → e.phase ≡ p
      → IsAt (count_phase j e p f) i r
  unfolding rank
  count_phase-IsAt j e taken at q =
      put-IsAt j (suc f.open_count) e (record e { phase = counted }) at refl (ground arith)
  count_phase-IsAt j e counted at q = a
  count_phase-IsAt j e refused at q = a
  count_phase-IsAt j e given at q = a

  pub enter_phase-IsAt :
      (j : ℕ) (e : Conn) (p : Phase)
      → nth f.conns j ≡ some e
      → e.phase ≡ p
      → IsAt (enter_phase j e p f) i r
  unfolding rank
  enter_phase-IsAt j e taken at q = a
  enter_phase-IsAt j e counted at q = elim (Bool-cases (is_stopped f e.generation)) [
    | inl s ↦ rw s (put-IsAt j f.open_count e (record e { phase = refused }) at refl (ground arith))
    | inr s ↦ rw s (
        put-IsAt j f.open_count e (record e { phase = given; tracked = true }) at refl
          (ground arith))
  ]
  enter_phase-IsAt j e refused at q = a
  enter_phase-IsAt j e given at q = a

  pub close_conn-IsAt :
      (j : ℕ) (e : Conn) (b : Bool) (x : Closing)
      → nth f.conns j ≡ some e
      → e.closing ≡ x
      → IsAt (close_conn j e b x f) i r
  unfolding rank
  close_conn-IsAt j e true not_closed at q =
      put-IsAt j f.open_count e (record e { closing = closed }) at refl (ground arith)
  close_conn-IsAt j e true closed at q = a
  close_conn-IsAt j e true uncounted at q = a
  close_conn-IsAt j e true removed at q = a
  close_conn-IsAt j e false x at q = a

  pub uncount_phase-IsAt :
      (j : ℕ) (e : Conn) (x : Closing)
      → nth f.conns j ≡ some e
      → e.closing ≡ x
      → IsAt (uncount_phase j e x f) i r
  unfolding rank
  uncount_phase-IsAt j e not_closed at q = a
  uncount_phase-IsAt j e closed at q =
      put-IsAt j (f.open_count - 1) e (record e { closing = uncounted }) at refl (ground arith)
  uncount_phase-IsAt j e uncounted at q = a
  uncount_phase-IsAt j e removed at q = a

  pub remove_phase-IsAt :
      (j : ℕ) (e : Conn) (x : Closing)
      → nth f.conns j ≡ some e
      → e.closing ≡ x
      → IsAt (remove_phase j e x f) i r
  unfolding rank
  remove_phase-IsAt j e not_closed at q = a
  remove_phase-IsAt j e closed at q = a
  remove_phase-IsAt j e uncounted at q =
      put-IsAt j f.open_count e (record e { closing = removed; tracked = false }) at refl
        (ground arith)
  remove_phase-IsAt j e removed at q = a
