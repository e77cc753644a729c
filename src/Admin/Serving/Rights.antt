-- ===== src/Admin/Serving/Rights.antt =====
-- What a share that was opened for a block lets people do, by the block's lists.
use fileshare.Prelude.{
  ◌≡◌, refl, subst, inl, inr, true, false, ◌&&◌, ◌||◌, Option, none, some, List, [], ◌∷◌, arith,
  Bool-cases, null, Text, cut_prefix,
}
use fileshare.Access.Principal.{
  Principal, ClaimRule, oidc_prefix, parse_rule, Split, ok, bad_rule, add_name, add_rule,
  split_rules,
}
use fileshare.Access.Share.{allows_anyone, any_allowed_writes, may_use, read_only_for}
use fileshare.Access.Share.Policy.{Listed, may_use_iff, writes_iff}
use fileshare.Admin.{ShareBlock}
use fileshare.Admin.Serving.{Machine, Served, Lists, expand_lists, new_share}
use fileshare.Admin.Serving.Expansion.{expand_both-lists}
use fileshare.Admin.Serving.Granted.{IsOpenedFor}

-- An entry that is read is a name or a rule.
Filled : Split → Type 0
Filled (ok names rules) = (null names && null rules) ≡ false
Filled (bad_rule r) = Unit

add_name-Filled : (e : Text) (r : Split) → Filled (add_name e r)
unfolding Filled
add_name-Filled e (ok names rules) = refl
add_name-Filled e (bad_rule b) = tt

add_rule-Filled : (c : ClaimRule) (r : Split) → Filled (add_rule c r)
unfolding Filled
add_rule-Filled c (ok [] rules) = refl
add_rule-Filled c (ok (n ∷ names) rules) = refl
add_rule-Filled c (bad_rule b) = tt

split_rules-Filled : (es : List Text) → null es ≡ false → Filled (split_rules es)
unfolding split_rules Filled
split_rules-Filled [] h = absurd (ground arith)
split_rules-Filled (e ∷ es) h = after (cut_prefix e oidc_prefix)
  where
    of_rule :
        (o : Option ClaimRule)
        → Filled (elim o [ none ↦ bad_rule e | some r ↦ add_rule r (split_rules es) ])
    of_rule none = tt
    of_rule (some r) = add_rule-Filled r (split_rules es)

    after :
        (o : Option Text)
        → Filled (elim o [
          | none ↦ add_name e (split_rules es)
          | some rest ↦ elim (parse_rule rest) [
            | none ↦ bad_rule e
            | some r ↦ add_rule r (split_rules es)
          ]
        ])
    after none = add_name-Filled e (split_rules es)
    after (some rest) = of_rule (parse_rule rest)

-- Lists that were read of entries of which there are some.
read-Filled :
    (m : Machine) (b : ShareBlock) (l : Lists)
    → expand_lists m b ≡ some l
    → (null b.allow ≡ false → (null l.allow_names && null l.allow_claims) ≡ false)
      × (null b.writers ≡ false → (null l.writer_names && null l.writer_claims) ≡ false)
unfolding expand_lists Filled
read-Filled m b l e =
    let (s, w, x, y) = expand_both-lists m (split_rules b.allow) (split_rules b.writers) l e in
    (
      λ h. subst Filled s (split_rules-Filled b.allow h),
      λ h. subst Filled w (split_rules-Filled b.writers h),
    )

module _ (b : ShareBlock) (s : Served) (h : IsOpenedFor b s) where
  closed_to_strangers : null b.allow ≡ false → allows_anyone s.share ≡ false
  unfolding allows_anyone new_share
  closed_to_strangers n = ground (
    arith,
    h.tight.allow_named,
    h.tight.allow_claims,
    (read-Filled h.machine b h.lists h.read).0 n,
  )

  writers_are_named : null b.writers ≡ false → any_allowed_writes s.share ≡ false
  unfolding any_allowed_writes new_share
  writers_are_named n = ground (
    arith,
    h.tight.writers_named,
    h.tight.writer_claims,
    (read-Filled h.machine b h.lists h.read).1 n,
  )

  -- A block that names people is used by people it names.
  pub used_by-Listed :
      (p : Principal)
      → null b.allow ≡ false
      → may_use s.share p ≡ true
      → Listed p h.lists.allow h.lists.allow_claims
  unfolding allows_anyone new_share
  used_by-Listed p n u = elim ((may_use_iff s.share p).0 u) [
    | inl o ↦ absurd (ground (arith, closed_to_strangers n))
    | inr l ↦
        subst (Listed p h.lists.allow) h.tight.allow_claims
          (subst (λ a. Listed p a s.share.allow_claims) h.tight.allow l)
  ]

  -- Where writing is not for everybody who is allowed, a block is written by people it names as
  -- writers, and only where neither it nor its grants make it read-only.
  pub written_by-Listed :
      (p : Principal)
      → b.no_writers ≡ null b.writers
      → read_only_for s.share p ≡ false
      → (b.read_only ≡ false) × Listed p h.lists.writers h.lists.writer_claims
  unfolding any_allowed_writes new_share
  written_by-Listed p only w =
      let (ro, how) = (writes_iff s.share p).0 w in
      let stands : (b.read_only || b.no_writers) ≡ false = still ro in
      let some_write : null b.writers ≡ false = ground arith in
      (
        ground arith,
        elim how [
          | inl o ↦ absurd (ground (arith, writers_are_named some_write))
          | inr l ↦ elim h.tight.writers [
            | inl e ↦
                subst (Listed p h.lists.writers) h.tight.writer_claims
                  (subst (λ a. Listed p a s.share.writer_claims) e l)
            | inr e ↦ fewer h.lists.writers (
                subst (Listed p []) h.tight.writer_claims
                  (subst (λ a. Listed p a s.share.writer_claims) e.0 l))
          ]
        ],
      )
    where
      still : s.share.read_only ≡ false → (b.read_only || b.no_writers) ≡ false
      still ro = elim (Bool-cases (b.read_only || b.no_writers)) [
        | inr e ↦ e
        | inl e ↦ absurd (ground (arith, h.tight.read_only e))
      ]

      fewer :
          (names : List Text)
          → Listed p [] h.lists.writer_claims
          → Listed p names h.lists.writer_claims
      fewer names (inl (n, m)) = elim m [ ]
      fewer names (inr r) = inr r
