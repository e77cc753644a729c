-- ===== src/Admin/Changes/Reading.antt =====
-- What the grants of a request come to once they are read.
use fileshare.Prelude.{
  ◌+◌, ◌≡◌, refl, Bool, true, false, Option, none, some, List, [], ◌∷◌, ◌++◌, arith, ltb, leb,
  if◌then◌else◌, ◌==◌, ℕ_eq, list_eq_iff, List_eq, length, any, length-append, distinct,
  lookup-none, lookup-append, distinct-append, Text,
}
use fileshare.Admin.{Grant, invalid, Result, done, failed, ◌>>=◌, refuse_if}
use fileshare.Admin.Gives.{Gives, Gives-bind, Gives-guard, Gives-self, Gives-map}
use fileshare.Admin.Subjects.{
  Subject, Access, unspecified, access_read, access_write, Asked, max_grants, granted_to, write_of,
  subject_of, read_grants, grants_of,
}
use fileshare.Admin.Edits.{}
use fileshare.Admin.Changes.Grants.{subject_key, right_of}

abbrev pub is_write : Access → Bool
is_write unspecified = false
is_write access_read = false
is_write access_write = true

write_of-Gives : (a : Access) → Gives (λ w. w ≡ is_write a) (write_of a)
write_of-Gives unspecified = tt
write_of-Gives access_read = refl
write_of-Gives access_write = refl

abbrev pub is_text : Text → Result Text → Bool
is_text t (done v) = v == t
is_text t (failed e) = false

-- A request's subject is spelled like this.
abbrev pub spelled : (Text → Bool) → Option Subject → Text → Bool
spelled printable s t = is_text t (subject_of printable s)

-- The right that a request's grants ask for a subject: that of the first grant to it.
abbrev pub asked_right : (Text → Bool) → List Asked → Text → Option Bool
asked_right printable [] t = none
asked_right printable (g ∷ gs) t =
    let rest = asked_right printable gs t in
    if spelled printable g.subject t then some (is_write g.access) else rest

abbrev first_of : Option Bool → Option Bool → Option Bool
first_of none r = r
first_of (some w) r = some w

-- Grants read after those of `out` give what `out` gives, and to others what is asked.
IsRead : (Text → Bool) → List Grant → List Asked → List Grant → Type 0
IsRead printable out asked hs =
    (distinct subject_key hs ≡ true)
    × ((t : Text) → right_of t hs ≡ first_of (right_of t out) (asked_right printable asked t))
    × (length hs ≡ length out + length asked)

-- Grants as a request asks for them: no subject twice, and no more than a thousand.
abbrev pub AreAsked : (Text → Bool) → List Asked → List Grant → Type 0
AreAsked printable asked gs =
    (distinct subject_key gs ≡ true)
    × ((t : Text) → right_of t gs ≡ asked_right printable asked t)
    × (leb (length gs) max_grants ≡ true)

module _ (printable : Text → Bool) where
  one-IsRead :
      (out : List Grant) (g : Asked) (gs : List Asked) (v : Text) (w : Bool)
      → subject_of printable g.subject ≡ done v
      → w ≡ is_write g.access
      → any (granted_to v) out ≡ false
      → (hs : List Grant) → IsRead printable (out ++ (record { subject = v; write = w } ∷ [])) gs hs
      → IsRead printable out (g ∷ gs) hs
  unfolding IsRead
  one-IsRead out g gs v w sv sw new hs (d, r, n) =
      (d, right, ground (arith, length-append out (record { subject = v; write = w } ∷ [])))
    where
      right :
          (t : Text) → right_of t hs ≡ first_of (right_of t out) (asked_right printable (g ∷ gs) t)
      right t =
          rw (r t, sv)
            (ground (
              arith,
              sw,
              list_eq_iff v t,
              lookup-append subject_key t v out (record { subject = v; write = w }) new refl,
              lookup-none subject_key v out new,
            ))

  read_grants-IsRead :
      (out : List Grant) (asked : List Asked)
      → distinct subject_key out ≡ true
      → Gives (IsRead printable out asked) (read_grants printable out asked)
  unfolding IsRead read_grants
  read_grants-IsRead out [] d = (d, λ t. ground arith, ground arith)
  read_grants-IsRead out (g ∷ gs) d =
      Gives-bind (λ v. subject_of printable g.subject ≡ done v) (IsRead printable out (g ∷ gs))
        (λ v. write_of g.access >>= (λ w. refuse_if (any (granted_to v) out) invalid >>= next v w))
        (subject_of printable g.subject) (Gives-self _)
        (λ v sv.
          Gives-bind (λ w. w ≡ is_write g.access) (IsRead printable out (g ∷ gs))
            (λ w. refuse_if (any (granted_to v) out) invalid >>= next v w) (write_of g.access)
            (write_of-Gives g.access)
            (λ w sw.
              Gives-guard (IsRead printable out (g ∷ gs)) (any (granted_to v) out) invalid
                (next v w)
                (λ new.
                  Gives-map (IsRead printable (out ++ (one v w ∷ [])) gs)
                    (IsRead printable out (g ∷ gs))
                    (read_grants printable (out ++ (one v w ∷ [])) gs)
                    (read_grants-IsRead (out ++ (one v w ∷ [])) gs
                      (distinct-append subject_key out (one v w) new d))
                    (one-IsRead out g gs v w sv sw new))))
    where
      one : Text → Bool → Grant
      one v w = record { subject = v; write = w }

      next : Text → Bool → Unit {0} → Result (List Grant)
      next v w u = read_grants printable (out ++ (one v w ∷ [])) gs

  pub grants_of_lem :
      (asked : List Asked) → Gives (AreAsked printable asked) (grants_of printable asked)
  unfolding IsRead grants_of
  grants_of_lem asked =
      Gives-guard (AreAsked printable asked) (ltb max_grants (length asked)) invalid
        (λ u. read_grants printable [] asked)
        (λ small.
          Gives-map (IsRead printable [] asked) (AreAsked printable asked)
            (read_grants printable [] asked) (read_grants-IsRead [] asked refl)
            (λ gs (d, r, n). (d, r, ground arith)))
