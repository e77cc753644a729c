-- ===== src/Union/Paths.antt =====
-- What unionfs.go uses of `path.Clean`: a rooted path, resolved part by part.
use mathlib.Core.List.{reverse, reverse_aux, tail}
use fileshare.Prelude.{
  ℕ, ◌≡◌, refl, ◌≢◌, ◌||◌, none, some, List, [], ◌∷◌, ◌++◌, arith, if◌then◌else◌, ◌==◌, ℕ_eq,
  list_eq_iff, List_eq, null, All, Text, bytes, cut,
}

-- The parts between slashes.
abbrev split_step : ℕ → List Text → List Text
split_step c [] = if c == b'/' then [] ∷ [] ∷ [] else (c ∷ []) ∷ []
split_step c (w ∷ ws) = if c == b'/' then [] ∷ w ∷ ws else (c ∷ w) ∷ ws

unfoldable pub split_slash : Text → List Text
split_slash [] = [] ∷ []
split_slash (c ∷ s) = split_step c (split_slash s)

-- One part, onto a stack whose top is its head.
unfoldable pub push_part : List Text → Text → List Text
push_part stack w =
    if null w || w == bytes "." then stack else if w == bytes ".." then tail stack else w ∷ stack

unfoldable pub resolve : List Text → List Text → List Text
resolve stack [] = reverse stack
resolve stack (w ∷ ws) = resolve (push_part stack w) ws

abbrev pub slashes : List Text → Text
slashes [] = []
slashes (w ∷ ws) = b'/' ∷ (w ++ slashes ws)

-- A rooted path from its parts.
abbrev pub rooted : List Text → Text
rooted [] = b'/' ∷ []
rooted (w ∷ ws) = slashes (w ∷ ws)

unfoldable pub parts_of : Text → List Text
parts_of p = resolve [] (split_slash p)

unfoldable pub clean_rooted : Text → Text
clean_rooted p = rooted (parts_of p)

abbrev pub NoSlash : Text → Type 0
NoSlash w = All (λ c. c ≢ b'/') w

-- A part that names one entry of a directory, and neither the directory nor its parent.
abbrev pub IsPlain : Text → Type 0
IsPlain w = (w ≢ []) × (w ≢ bytes ".") × (w ≢ bytes "..") × NoSlash w

split_slash-NoSlash : (p : Text) → All NoSlash (split_slash p)
unfolding split_slash
split_slash-NoSlash [] = (tt, tt)
split_slash-NoSlash (c ∷ p) = step (split_slash p) (split_slash-NoSlash p)
  where
    step : (ws : List Text) → All NoSlash ws → All NoSlash (split_step c ws)
    step [] h = ground arith
    step (w ∷ ws) h = ground arith

push_part-IsPlain :
    (stack : List Text) (w : Text) → All IsPlain stack → NoSlash w → All IsPlain (push_part stack w)
unfolding push_part
push_part-IsPlain [] w h n = ground (arith, list_eq_iff w (bytes "."), list_eq_iff w (bytes ".."))
push_part-IsPlain (v ∷ stack) w h n =
    ground (arith, list_eq_iff w (bytes "."), list_eq_iff w (bytes ".."))

All-reverse_aux :
    (xs ys : List Text) → All IsPlain xs → All IsPlain ys → All IsPlain (reverse_aux xs ys)
All-reverse_aux [] ys h k = k
All-reverse_aux (x ∷ xs) ys h k = All-reverse_aux xs (x ∷ ys) h.1 (h.0, k)

resolve-IsPlain :
    (stack ws : List Text) → All IsPlain stack → All NoSlash ws → All IsPlain (resolve stack ws)
unfolding resolve
resolve-IsPlain stack [] h n = All-reverse_aux stack [] h tt
resolve-IsPlain stack (w ∷ ws) h n =
    resolve-IsPlain (push_part stack w) ws (push_part-IsPlain stack w h n.0) n.1

pub parts_of-IsPlain : (p : Text) → All IsPlain (parts_of p)
unfolding parts_of
parts_of-IsPlain p = resolve-IsPlain [] (split_slash p) tt (split_slash-NoSlash p)

-- Cutting at the first slash gives the first part back.
pub cut-slashes :
    (w : Text) (ws : List Text)
    → NoSlash w
    → cut b'/' (w ++ slashes ws) ≡ elim ws [ [] ↦ none | v ∷ vs ↦ some (w, v ++ slashes vs) ]
cut-slashes [] [] h = refl
cut-slashes [] (v ∷ vs) h = refl
cut-slashes (c ∷ w) [] h = ground (arith, cut-slashes w [] h.1)
cut-slashes (c ∷ w) (v ∷ vs) h = ground (arith, cut-slashes w (v ∷ vs) h.1)
