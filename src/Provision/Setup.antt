-- ===== src/Provision/Setup.antt =====
-- config.go: reading sizes and ranges of project ids.
use fileshare.Prelude.{
  ℕ, zero, suc, ◌+◌, ◌-◌, ◌*◌, ◌/◌, ◌%◌, ◌^◌, ◌≤◌, ◌<◌, ◌≡◌, subst, inl, inr, not, ◌&&◌, ◌||◌,
  Option, none, some, [], ◌∷◌, arith, ltb, leb, if◌then◌else◌, Bool-cases, Option-cases, ◌==◌, ℕ_eq,
  List_eq, Text, bytes, cut, trim_space,
}

-- `strconv.ParseUint` in base 10: digits only, and a value of so many bits.
abbrev digits : ℕ → Text → Option ℕ
digits n [] = some n
digits n (c ∷ s) =
    let rest = digits (n * 10 + (c - b'0')) s in if leb b'0' c && leb c b'9' then rest else none

abbrev in_bits : ℕ → Option ℕ → Option ℕ
in_bits bits none = none
in_bits bits (some n) = if ltb n (2 ^ bits) then some n else none

unfoldable pub parse_uint : ℕ → Text → Option ℕ
parse_uint bits [] = none
parse_uint bits (c ∷ s) = in_bits bits (digits 0 (c ∷ s))

abbrev range_of : Option ℕ → Option ℕ → Option (ℕ × ℕ)
range_of (some l) (some h) = if l == 0 || (leb 4294967295 h || ltb h l) then none else some (l, h)
range_of _ _ = none

unfoldable pub parse_range : Text → Option (ℕ × ℕ)
unfolding parse_uint
parse_range s = elim (cut b'-' s) [
  | none ↦ none
  | some (a, b) ↦ range_of (parse_uint 32 (trim_space a)) (parse_uint 32 (trim_space b))
]

-- A text but for its last byte, and that byte.
abbrev pub split_last : Text → Option (Text × ℕ)
split_last [] = none
split_last (c ∷ s) = elim (split_last s) [ none ↦ some ([], c) | some (t, d) ↦ some (c ∷ t, d) ]

abbrev trim_byte : ℕ → Text → Text
trim_byte b s = elim (split_last s) [ none ↦ s | some (t, c) ↦ if c == b then t else s ]

abbrev letter_from : ℕ → Text → ℕ → ℕ
letter_from i [] c = 0
letter_from i (d ∷ ds) c = let later = letter_from (suc i) ds c in if d == c then i else later

-- The power of 1024 that a letter stands for, or 0.
unfoldable pub power_of : ℕ → ℕ
power_of = letter_from 1 (bytes "KMGTPE")

abbrev size_parts : Text → Text × ℕ
size_parts t = elim (split_last t) [
  | none ↦ (t, 0)
  | some (number, c) ↦ if power_of c == 0 then (t, 0) else (number, power_of c)
]

-- A number shifted left by `10 * k` bits of a 64-bit integer, or refused.
unfoldable pub shifted : ℕ → Option ℕ → Option ℕ
shifted k none = none
shifted k (some n) =
    if not (k == 0) && ltb ((2 ^ 64 - 1) / 2 ^ (10 * k)) n
    then none
    else some ((n * 2 ^ (10 * k)) % 2 ^ 64)

-- The number of a size and the power of its letter.
abbrev pub size_of : Text → Text × ℕ
size_of s = size_parts (trim_byte b'i' (trim_byte b'B' (trim_space s)))

unfoldable pub parse_size : Text → Option ℕ
unfolding parse_uint power_of shifted
parse_size s = shifted (size_of s).1 (parse_uint 64 (trim_space (size_of s).0))

power_of-bound : (c : ℕ) → power_of c ≤ 6
unfolding power_of
power_of-bound c = ground arith

shifted_lem :
    (k n v : ℕ)
    → k ≤ 6
    → n < 2 ^ 64
    → shifted k (some n) ≡ some v
    → (v ≡ n * 2 ^ (10 * k)) × (v < 2 ^ 64)
unfolding shifted
shifted_lem zero n v small fits h = ground arith
shifted_lem (suc zero) n v small fits h = ground arith
shifted_lem (suc (suc zero)) n v small fits h = ground arith
shifted_lem (suc (suc (suc zero))) n v small fits h = ground arith
shifted_lem (suc (suc (suc (suc zero)))) n v small fits h = ground arith
shifted_lem (suc (suc (suc (suc (suc zero))))) n v small fits h = ground arith
shifted_lem (suc (suc (suc (suc (suc (suc zero)))))) n v small fits h = ground arith
shifted_lem (suc (suc (suc (suc (suc (suc (suc k))))))) n v small fits h = absurd (omega arith)

size_parts-bound : (t : Text) → (size_parts t).1 ≤ 6
size_parts-bound t = elim (Option-cases (split_last t)) [
  | inl e ↦ ground arith
  | inr ((number, c), e) ↦ elim (Bool-cases (power_of c == 0)) [
    | inl z ↦ ground arith
    | inr z ↦ ground (arith, power_of-bound c)
  ]
]

in_bits-bound : (bits n : ℕ) (o : Option ℕ) → in_bits bits o ≡ some n → n < 2 ^ bits
in_bits-bound bits n none h = absurd (cc)
in_bits-bound bits n (some m) h = ground arith

pub parse_uint-bound : (bits n : ℕ) (s : Text) → parse_uint bits s ≡ some n → n < 2 ^ bits
unfolding parse_uint
parse_uint-bound bits n [] h = absurd (cc)
parse_uint-bound bits n (c ∷ s) h = in_bits-bound bits n (digits 0 (c ∷ s)) h

-- A size that is read is its number, which fits 64 bits, times the power of 1024 of its letter, exactly:
-- what would not fit 64 bits is refused, and nothing is lost to the shift.
pub parse_size-exact :
    (s : Text) (v : ℕ)
    → parse_size s ≡ some v
    → (n : ℕ) × (parse_uint 64 (trim_space (size_of s).0) ≡ some n)
      × ((size_of s).1 ≤ 6)
      × (v ≡ n * 2 ^ (10 * (size_of s).1))
      × (v < 2 ^ 64)
unfolding parse_size
parse_size-exact s v h =
    let small = size_parts-bound (trim_byte b'i' (trim_byte b'B' (trim_space s))) in
    elim (Option-cases (parse_uint 64 (trim_space (size_of s).0))) [
      | inl e ↦ absurd (none_left (size_of s).1 v (rw (e, parse_size) at h))
      | inr (n, e) ↦
          let (exact, fits) =
            shifted_lem (size_of s).1 n v small (parse_uint-bound 64 n (trim_space (size_of s).0) e)
              (rw (e, parse_size) at h) in
          (n, e, small, exact, fits)
    ]
  where
    none_left : (k v : ℕ) → shifted k none ≡ some v → ⊥
    none_left k v e = cc

-- A range of ids that may be given out: neither 0 nor the kernel's invalid id is in it.
abbrev pub IsRange : ℕ × ℕ → Type 0
IsRange r = (0 < r.0) × (r.0 ≤ r.1) × (r.1 < 4294967295)

range_of-IsRange : (l h : Option ℕ) (r : ℕ × ℕ) → range_of l h ≡ some r → IsRange r
range_of-IsRange none h r e = absurd (cc)
range_of-IsRange (some l) none r e = absurd (cc)
range_of-IsRange (some l) (some h) r e =
    elim (Bool-cases (l == 0 || (leb 4294967295 h || ltb h l))) [
      | inl bad ↦ absurd (ground arith)
      | inr good ↦
          let same : (l, h) ≡ r = ground arith in
          subst IsRange same (ground arith, ground arith, ground arith)
    ]

pub parse_range-IsRange : (s : Text) (r : ℕ × ℕ) → parse_range s ≡ some r → IsRange r
unfolding parse_range
parse_range-IsRange s r h = elim (Option-cases (cut b'-' s)) [
  | inl e ↦ absurd (ground arith)
  | inr ((a, b), e) ↦
      range_of-IsRange (parse_uint 32 (trim_space a)) (parse_uint 32 (trim_space b)) r
        (rw (e, parse_range) at h)
]
