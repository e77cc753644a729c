-- ===== src/Access/Principal.antt =====
-- principal.go: principals, the `oidc:` rules of a share's lists, and the domains that an oidc block
-- admits. Errors carry the entry that is refused.
pub mod Matching
pub mod Rules
use fileshare.Prelude.{
  ℕ, Bool, false, not, ◌&&◌, ◌||◌, Option, none, some, List, [], ◌∷◌, ◌++◌, map, leb, if◌then◌else◌,
  ◌==◌, ℕ_eq, List_eq, any, null, contains, Text, bytes, cut_prefix, cut, to_lower, trim_space,
}

pub record Principal : Type 0 where
  pub name : Text
  pub federated : Bool
  pub groups : List Text
  pub local_name : Bool

-- The kinds that `splitRules` lets through.
pub data Kind : Type 0 where
  groups user domain : Kind

pub record ClaimRule : Type 0 where
  pub kind : Kind
  pub value : Text

unfoldable pub by_name : Principal → Bool
by_name p = not p.federated || p.local_name

unfoldable pub local : Text → Principal
local name = record { name = name; federated = false; groups = []; local_name = false }

abbrev pub oidc_prefix : Text
oidc_prefix = bytes "oidc:"

abbrev pub kind_name : Kind → Text
kind_name groups = bytes "groups"
kind_name user = bytes "user"
kind_name domain = bytes "domain"

-- `claimRule.String`
pub rule_text : ClaimRule → Text
rule_text r = oidc_prefix ++ (kind_name r.kind ++ (b':' ∷ r.value))

abbrev kind_of : Text → Option Kind
kind_of k =
    if k == bytes "groups"
    then some groups
    else if k == bytes "user"
    then some user
    else if k == bytes "domain"
    then some domain
    else none

-- One `oidc:` entry, without its prefix.
pub parse_rule : Text → Option ClaimRule
parse_rule rest = elim (cut b':' rest) [
  | none ↦ none
  | some (k, v) ↦ elim (kind_of k) [
    | none ↦ none
    | some kind ↦ if null v then none else some (record { kind = kind; value = v })
  ]
]

pub data Split : Type 0 where
  ok : List Text → List ClaimRule → Split
  bad_rule : Text → Split

abbrev pub add_name : Text → Split → Split
add_name e (ok names rules) = ok (e ∷ names) rules
add_name e (bad_rule b) = bad_rule b

abbrev pub add_rule : ClaimRule → Split → Split
add_rule r (ok names rules) = ok names (r ∷ rules)
add_rule r (bad_rule b) = bad_rule b

-- The loop of `splitRules`: the first bad entry is the error.
unfoldable pub split_rules : List Text → Split
split_rules [] = ok [] []
split_rules (e ∷ es) =
    let later = split_rules es in
    elim (cut_prefix e oidc_prefix) [
      | none ↦ add_name e later
      | some rest ↦ elim (parse_rule rest) [ none ↦ bad_rule e | some r ↦ add_rule r later ]
    ]

-- What stands after the last occurrence of a byte, if it occurs (`strings.LastIndexByte`).
abbrev pub after_last : ℕ → Text → Option Text
after_last b [] = none
after_last b (c ∷ s) = elim (after_last b s) [
  | some t ↦ some t
  | none ↦ if c == b then some s else none
]

-- `principal.domain`: the empty text stands for no domain.
unfoldable pub domain_of : Text → Text
domain_of name = elim (after_last b'@' name) [ none ↦ [] | some t ↦ to_lower t ]

-- One round of the loop of `matches`.
unfoldable pub rule_holds : Principal → Kind → Text → Bool
rule_holds p user v = v == p.name
rule_holds p groups v = contains p.groups v
rule_holds p domain v = let d = domain_of p.name in not (null d) && d == to_lower v

unfoldable pub matches : Principal → List ClaimRule → Bool
matches p rules = if p.federated then any (λ r. rule_holds p r.kind r.value) rules else false

-- `strings.TrimSpace` on ASCII.
-- `oidcBlock.lowerDomains` and `domainAllowed`; a nil block lists no domains.
unfoldable pub lower_domains : List Text → List Text
lower_domains = map (λ d. to_lower (trim_space d))

unfoldable pub domain_allowed : List Text → Principal → Bool
unfolding lower_domains
domain_allowed domains p = null domains || contains (lower_domains domains) (domain_of p.name)
