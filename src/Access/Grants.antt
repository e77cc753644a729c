-- ===== src/Access/Grants.antt =====
-- domaingrant.go: which certificates are meant for this host, where ssh_domains is set.
use fileshare.Access.Principal.Matching.{contains_iff}
use fileshare.Prelude.{
  ℕ, ◌+◌, ◌≡◌, refl, ◌↔◌, ◌⊎◌, inl, inr, Bool, true, false, Option, none, some, List, Memᴰ, arith,
  if◌then◌else◌, Bool-cases, ◌==◌, ℕ_eq, list_eq_iff, List_eq, any, any_iff, contains, Text,
}

-- What package sshcert reads of a certificate's domain grant.
pub data Grant : Type 0 where
  malformed absent : Grant
  patterns : List Text → Grant

pub data Why : Type 0 where
  bad_grant no_grant other_hosts unknown_signer : Why
  federation : ℕ → Why

-- `s.stats.grants`
pub record Counts : Type 0 where
  pub malformed : ℕ
  pub ungranted : ℕ
  pub absent : ℕ
  pub granted : ℕ
  pub not_granted : ℕ

-- The configuration, and what the SSH packages answer about a certificate: its signer, its grant, and
-- whether the patterns of a grant name a host. `provider` is there where certificates of an identity
-- provider are, with its authority, if it has one, and its own check.
pub record Site (C : Type 0) : Type 0 where
  pub signer : C → Text
  pub grant : C → Grant
  pub names_host : List Text → Text → Bool
  pub domains : List Text
  pub accept_ungranted : Bool
  pub authorities : List Text
  pub provider : Option (Option Text × (C → Option Why))

-- A decision: why a certificate is refused, or none, and the counters after it.
abbrev pub Decision : Type 0
Decision = Option Why × Counts

module _ {C : Type 0} (site : Site C) where
  abbrev names_this_host : List Text → Bool
  names_this_host ps = any (λ d. site.names_host ps d) site.domains

  abbrev decide : Grant → Counts → Decision
  decide malformed n = (some bad_grant, record n { malformed = n.malformed + 1 })
  decide absent n =
      if site.accept_ungranted
      then (none, record n { ungranted = n.ungranted + 1 })
      else (some no_grant, record n { absent = n.absent + 1 })
  decide (patterns ps) n =
      if names_this_host ps
      then (none, record n { granted = n.granted + 1 })
      else (some other_hosts, record n { not_granted = n.not_granted + 1 })

  unfoldable pub domain_grant : C → Counts → Decision
  domain_grant c n = decide (site.grant c) n

  abbrev is_authority : Option Text → Text → Bool
  is_authority none key = false
  is_authority (some ca) key = key == ca

  -- The provider's own check, unless the grant was refused.
  abbrev and_then : (C → Option Why) → C → Decision → Decision
  and_then check c (none, n) = (check c, n)
  and_then check c (some why, n) = (some why, n)

  abbrev by_provider : Option (Option Text × (C → Option Why)) → C → Counts → Decision
  by_provider none c n = (some unknown_signer, n)
  by_provider (some (ca, check)) c n =
      if is_authority ca (site.signer c) then and_then check c (domain_grant c n) else (check c, n)

  -- The function that `grantedCertificateFor` returns.
  unfoldable pub certificate_for : C → Counts → Decision
  unfolding domain_grant
  certificate_for c n =
      if contains site.authorities (site.signer c)
      then domain_grant c n
      else by_provider site.provider c n

  -- The grant names this host, or there is none and such certificates are accepted.
  abbrev pub IsGranted : C → Type 0
  IsGranted c =
      ((site.grant c ≡ absent) × (site.accept_ungranted ≡ true))
      ⊎ ((ps : List Text) × (site.grant c ≡ patterns ps)
          × ((d : Text) × Memᴰ d site.domains × (site.names_host ps d ≡ true)))

  decide-none :
      (c : C) (g : Grant) (n : Counts) → site.grant c ≡ g → (decide g n).0 ≡ none → IsGranted c
  decide-none c malformed n e h = absurd (cc)
  decide-none c absent n e h = inl (e, ground arith)
  decide-none c (patterns ps) n e h =
      inr (ps, e, (any_iff (λ d. site.names_host ps d) site.domains).0 (ground arith))

  decide-granted : (c : C) (n : Counts) → IsGranted c → (decide (site.grant c) n).0 ≡ none
  decide-granted c n (inl (e, ok)) = ground arith
  decide-granted c n (inr (ps, e, named)) =
      ground (arith, (any_iff (λ d. site.names_host ps d) site.domains).1 named)

  abbrev pub total : Counts → ℕ
  total n = n.malformed + n.ungranted + n.absent + n.granted + n.not_granted

  decide-total : (g : Grant) (n : Counts) → total (decide g n).1 ≡ total n + 1
  decide-total malformed n = omega arith
  decide-total absent n = ground arith
  decide-total (patterns ps) n = ground arith

  -- `domainGrant` accepts a certificate exactly when its grant names this host, or it has none and such
  -- certificates are accepted; and it counts every decision once.
  pub domain_grant_iff :
      (c : C) (n : Counts)
      → (((domain_grant c n).0 ≡ none) ↔ IsGranted c) × (total (domain_grant c n).1 ≡ total n + 1)
  unfolding domain_grant
  domain_grant_iff c n =
      ((decide-none c (site.grant c) n refl, decide-granted c n), decide-total (site.grant c) n)

  -- The signer is an authority that this server trusts itself, or the provider's.
  abbrev pub IsTrusted : C → Type 0
  IsTrusted c =
      Memᴰ (site.signer c) site.authorities
      ⊎ ((check : C → Option Why) × (site.provider ≡ some (some (site.signer c), check)))

  and_then-none :
      (check : C → Option Why) (c : C) (r : Decision) → (and_then check c r).0 ≡ none → r.0 ≡ none
  and_then-none check c (none, n) h = refl
  and_then-none check c (some why, n) h = h

  by_provider-none :
      (c : C) (n : Counts) (check : C → Option Why)
      → (by_provider (some (some (site.signer c), check)) c n).0 ≡ none
      → (domain_grant c n).0 ≡ none
  by_provider-none c n check h =
      let self = (list_eq_iff (site.signer c) (site.signer c)).1 refl in
      and_then-none check c (domain_grant c n) (rw self at h)

  -- Of the certificates that an authority signed, which this server trusts itself or as the provider's,
  -- only those are let in whose grant names this host, or that have none where such certificates are
  -- accepted.
  pub certificate_for-IsGranted :
      (c : C) (n : Counts) → IsTrusted c → (certificate_for c n).0 ≡ none → IsGranted c
  unfolding certificate_for
  certificate_for-IsGranted c n trusted h =
      elim (Bool-cases (contains site.authorities (site.signer c))) [
        | inl e ↦ (domain_grant_iff c n).0.0 (rw (e, certificate_for) at h)
        | inr e ↦ elim trusted [
          | inl m ↦ absurd (ground (arith, (contains_iff site.authorities (site.signer c)).1 m))
          | inr (check, f) ↦
              (domain_grant_iff c n).0.0
                (by_provider-none c n check (rw (e, f, certificate_for) at h))
        ]
      ]
