-- ===== src/Revocation/Encoding.antt =====
-- The state file of a revocation list: a header, the length of the list in eight bytes, most
-- significant first, the list, and its signature.
use mathlib.Core.List.{foldl}
use native.Mathlib.Nat.{pow-suc}
use fileshare.Prelude.{
  ℕ, zero, suc, ◌+◌, ◌*◌, ◌/◌, ◌%◌, ◌^◌, ◌<◌, ◌≡◌, refl, ap, ◌∙◌, Option, none, some, [], ◌∷◌, ◌++◌,
  arith, ltb, if◌then◌else◌, length, length-append, Text, bytes, cut_prefix,
}

abbrev pub magic : Text
magic = bytes "fileshare-list-state 1" ++ 10 ∷ []

-- `binary.BigEndian.AppendUint64`, over any number of digits.
unfoldable pub be_bytes : ℕ → ℕ → Text
be_bytes zero n = []
be_bytes (suc k) n = be_bytes k (n / 256) ++ (n % 256) ∷ []

abbrev digit : ℕ → ℕ → ℕ
digit acc d = acc * 256 + d

unfoldable pub be_value : Text → ℕ
be_value ds = foldl digit 0 ds

abbrev pub take : ℕ → Text → Text
take zero s = []
take (suc n) [] = []
take (suc n) (c ∷ s) = c ∷ take n s

abbrev pub drop : ℕ → Text → Text
drop zero s = s
drop (suc n) [] = []
drop (suc n) (c ∷ s) = drop n s

-- `encodeListState`
unfoldable pub encode : Text → Text → Text
encode raw sig = magic ++ (be_bytes 8 (length raw) ++ (raw ++ sig))

split_at : ℕ → Text → Option (Text × Text)
split_at n rest = if ltb (length rest) n then none else some (take n rest, drop n rest)

-- `decodeListState`; both errors are `none`.
unfoldable pub decode : Text → Option (Text × Text)
unfolding split_at be_value
decode b = elim (cut_prefix b magic) [
  | none ↦ none
  | some rest ↦
      if ltb (length rest) 8 then none else split_at (be_value (take 8 rest)) (drop 8 rest)
]

take-append : (k : ℕ) (s t : Text) → length s ≡ k → take k (s ++ t) ≡ s
take-append zero [] t h = refl
take-append zero (c ∷ s) t h = absurd (omega arith)
take-append (suc k) [] t h = absurd (omega arith)
take-append (suc k) (c ∷ s) t h = ap (◌∷◌ c) (take-append k s t (omega arith))

drop-append : (k : ℕ) (s t : Text) → length s ≡ k → drop k (s ++ t) ≡ t
drop-append zero [] t h = refl
drop-append zero (c ∷ s) t h = absurd (omega arith)
drop-append (suc k) [] t h = absurd (omega arith)
drop-append (suc k) (c ∷ s) t h = drop-append k s t (omega arith)

length-be_bytes : (k n : ℕ) → length (be_bytes k n) ≡ k
unfolding be_bytes
length-be_bytes zero n = refl
length-be_bytes (suc k) n =
    omega
      (arith, length-append (be_bytes k (n / 256)) ((n % 256) ∷ []), length-be_bytes k (n / 256))

foldl-snoc : (ds : Text) (acc d : ℕ) → foldl digit acc (ds ++ d ∷ []) ≡ digit (foldl digit acc ds) d
foldl-snoc [] acc d = refl
foldl-snoc (e ∷ ds) acc d = foldl-snoc ds (digit acc e) d

pub be_value-be_bytes : (k n : ℕ) → n < 256 ^ k → be_value (be_bytes k n) ≡ n
unfolding be_value be_bytes
be_value-be_bytes zero n h = omega arith
be_value-be_bytes (suc k) n h =
    let e : 256 ^ suc k ≡ 256 ^ k * 256 = pow-suc 256 k in
    let ih = be_value-be_bytes k (n / 256) (omega arith) in
    foldl-snoc (be_bytes k (n / 256)) 0 (n % 256) ∙ omega (arith, ih)

-- A list and its signature are read back as they were written, if the length of the list fits eight
-- bytes.
pub decode-encode :
    (raw sig : Text) → length raw < 256 ^ 8 → decode (encode raw sig) ≡ some (raw, sig)
unfolding decode encode
decode-encode raw sig h =
    let size = be_bytes 8 (length raw) in
    let first = length-be_bytes 8 (length raw) in
    let whole = length-append size (raw ++ sig) in
    let inner = length-append raw sig in
    rw
      (
        whole,
        first,
        take-append 8 size (raw ++ sig) first,
        drop-append 8 size (raw ++ sig) first,
        be_value-be_bytes 8 (length raw) h,
      )
      (ground (
        arith,
        inner,
        take-append (length raw) raw sig refl,
        drop-append (length raw) raw sig refl,
      ))
