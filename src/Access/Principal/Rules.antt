-- ===== src/Access/Principal/Rules.antt =====
-- Reading the `oidc:` rules of a list back.
use fileshare.Prelude.{
  ◌≡◌, refl, ◌≢◌, none, some, List, [], ◌∷◌, ◌++◌, map, arith, All, Text, cut_prefix,
}
use fileshare.Access.Principal.{
  Kind, groups, user, domain, ClaimRule, oidc_prefix, kind_name, rule_text, parse_rule, ok,
  split_rules,
}

parse_rule_lem :
    (k : Kind) (v : Text)
    → v ≢ []
    → parse_rule (kind_name k ++ (b':' ∷ v)) ≡ some (record { kind = k; value = v })
unfolding parse_rule
parse_rule_lem k [] h = absurd (h refl)
parse_rule_lem groups (c ∷ v) h = refl
parse_rule_lem user (c ∷ v) h = refl
parse_rule_lem domain (c ∷ v) h = refl

split_rules-map :
    (rules : List ClaimRule)
    → All (λ r. r.value ≢ []) rules
    → split_rules (map rule_text rules) ≡ ok [] rules
unfolding split_rules rule_text
split_rules-map [] h = refl
split_rules-map (r ∷ rules) h =
    ground (arith, parse_rule_lem r.kind r.value h.0, split_rules-map rules h.1)

-- A list of plain names followed by rules as `claimRule.String` spells them, none with an empty
-- value, is split into those names and those rules, in order.
pub split_rules-append :
    (names : List Text) (rules : List ClaimRule)
    → All (λ n. cut_prefix n oidc_prefix ≡ none) names
    → All (λ r. r.value ≢ []) rules
    → split_rules (names ++ map rule_text rules) ≡ ok names rules
unfolding split_rules
split_rules-append [] rules plain filled = split_rules-map rules filled
split_rules-append (n ∷ names) rules plain filled =
    rw (plain.0, split_rules-append names rules plain.1 filled)
