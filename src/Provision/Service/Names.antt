-- ===== src/Provision/Service/Names.antt =====
-- errors.go: the grammar of a volume, snapshot or parent name, `^[a-z0-9][a-z0-9_-]{0,62}$`.
use fileshare.Prelude.{
  ℕ, Bool, false, ◌&&◌, ◌||◌, [], ◌∷◌, leb, ◌==◌, ℕ_eq, List_eq, length, all, Text,
}

abbrev is_alnum : ℕ → Bool
is_alnum c = (leb b'a' c && leb c b'z') || (leb b'0' c && leb c b'9')

abbrev is_name_byte : ℕ → Bool
is_name_byte c = is_alnum c || (c == b'_' || c == b'-')

unfoldable pub is_name : Text → Bool
is_name [] = false
is_name (c ∷ s) = is_alnum c && (all is_name_byte s && leb (length s) 62)
