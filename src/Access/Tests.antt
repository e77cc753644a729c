-- ===== src/Access/Tests.antt =====
-- Runs of principal.go, share.go and protocol.go on one small server.
use fileshare.Prelude.{
  ◌≡◌, refl, ◌↔◌, ◌⊎◌, inl, true, false, none, some, [], ◌∷◌, Memᴰ, ℕ_eq, List_eq, All, contains,
  Text, bytes,
}
use fileshare.Access.Principal.{Principal, groups, ClaimRule, by_name, rule_holds, matches}
use fileshare.Access.Principal.Matching.{Holds, matches_iff}
use fileshare.Access.Grants.{
  Grant, patterns, other_hosts, Counts, Site, domain_grant, certificate_for, IsGranted,
  certificate_for-IsGranted,
}
use fileshare.Access.Share.{
  Share, allows_anyone, any_allowed_writes, restricted, listed, may_use, Protocol, can_authenticate,
  identity_protocol, verdict, exports,
}
use fileshare.Access.Share.Policy.{Listed, IsOpen, may_use_iff}
use fileshare.Access.Share.Exports.{IsCarried, exports_served, IsPlaced, exports_complete}

abbrev alice : Principal
alice = record {
  name = bytes "alice@corp.example";
  federated = true;
  groups = bytes "staff" ∷ [];
  local_name = false;
}

abbrev staff : ClaimRule
staff = record { kind = groups; value = bytes "staff" }

-- A share that staff may use and only root may write.
abbrev docs : Share
docs = record {
  name = bytes "docs";
  read_only = false;
  allow = [];
  writers = bytes "root" ∷ [];
  allow_claims = staff ∷ [];
  writer_claims = [];
  protocols = [];
  system = false;
  fsys = 1;
  opened_read_only = false;
  forced_read_only = false;
  asked_write = true;
  closers = 7 ∷ [];
  allow_named = true;
  writers_named = true;
}

abbrev pub_share : Share
pub_share = record docs {
  name = bytes "pub";
  allow_claims = [];
  writers = [];
  fsys = 2;
  closers = 8 ∷ [];
  allow_named = false;
  writers_named = false;
}

abbrev nfs : Protocol
nfs = record { name = bytes "nfs"; authenticates = false }

may_use-docs : may_use docs alice ≡ true
unfolding may_use allows_anyone listed by_name matches rule_holds
may_use-docs = refl

docs_over_nfs : exports nfs none (docs ∷ pub_share ∷ []) ≡ (pub_share ∷ [], docs ∷ [])
unfolding exports verdict can_authenticate restricted allows_anyone any_allowed_writes
    identity_protocol
docs_over_nfs = refl

may_use_iff_example :
    (may_use docs alice ≡ true) ↔ (IsOpen docs ⊎ Listed alice docs.allow docs.allow_claims)
may_use_iff_example = may_use_iff docs alice

exports_served_example : All (IsCarried nfs none) (exports nfs none (docs ∷ pub_share ∷ [])).0
exports_served_example = exports_served nfs none (docs ∷ pub_share ∷ [])

exports_complete_example : IsPlaced nfs none (exports nfs none (docs ∷ pub_share ∷ [])) docs
exports_complete_example = exports_complete nfs none (docs ∷ pub_share ∷ []) docs (Memᴰ.head refl)

matches_iff_example : (matches alice (staff ∷ []) ≡ true) ↔ (
    (alice.federated ≡ true) × ((r : ClaimRule) × Memᴰ r (staff ∷ []) × Holds alice r.kind r.value))
matches_iff_example = matches_iff alice (staff ∷ [])

-- A certificate is the pair of its signer and its grant.
abbrev site : Site (Text × Grant)
site = record {
  signer = λ c. c.0;
  grant = λ c. c.1;
  names_host = λ ps d. contains ps d;
  domains = bytes "nas.example" ∷ [];
  accept_ungranted = false;
  authorities = bytes "ca" ∷ [];
  provider = none;
}

abbrev zeros : Counts
zeros = record { malformed = 0; ungranted = 0; absent = 0; granted = 0; not_granted = 0 }

abbrev certificate : Text × Grant
certificate = (bytes "ca", patterns (bytes "nas.example" ∷ []))

let_in : (certificate_for site certificate zeros).0 ≡ none
unfolding certificate_for domain_grant
let_in = refl

other_host :
    (certificate_for site (bytes "ca", patterns (bytes "hpc" ∷ [])) zeros).0 ≡ some other_hosts
unfolding certificate_for domain_grant
other_host = refl

certificate_for-IsGranted_example : IsGranted site certificate
certificate_for-IsGranted_example =
    certificate_for-IsGranted site certificate zeros (inl (Memᴰ.head refl)) let_in
