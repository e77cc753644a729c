-- ===== src/Access/Share.antt =====
-- share.go, with the exports of protocol.go: the three lists of a share, what they let a principal do,
-- which protocols carry a share, and how a share takes over and gives up the driver it serves.
pub mod Policy
pub mod Exports
pub mod Drivers
use fileshare.Prelude.{
  ℕ, Bool, true, false, not, ◌&&◌, ◌||◌, Option, none, some, List, [], ◌∷◌, ◌++◌, if◌then◌else◌,
  ◌==◌, ℕ_eq, List_eq, any, null, contains, Text, bytes,
}
use fileshare.Access.Principal.{Principal, ClaimRule, by_name, matches}

-- Drivers are compared as interface values; a driver and a closer are named by a number. What a
-- share only shows to a person (partition, size) is left out.
pub record Share : Type 0 where
  pub name : Text
  pub read_only : Bool
  pub allow : List Text
  pub writers : List Text
  pub allow_claims : List ClaimRule
  pub writer_claims : List ClaimRule
  pub protocols : List Text
  pub system : Bool
  pub fsys : ℕ
  pub opened_read_only : Bool
  pub forced_read_only : Bool
  pub asked_write : Bool
  pub closers : List ℕ
  pub allow_named : Bool
  pub writers_named : Bool

unfoldable pub allows_anyone : Share → Bool
allows_anyone s = not s.allow_named && (null s.allow && null s.allow_claims)

unfoldable pub any_allowed_writes : Share → Bool
any_allowed_writes s = not s.writers_named && (null s.writers && null s.writer_claims)

unfoldable pub restricted : Share → Bool
unfolding allows_anyone any_allowed_writes
restricted s = not (allows_anyone s) || not (any_allowed_writes s)

-- A principal that one of the two lists names.
unfoldable pub listed : Principal → List Text → List ClaimRule → Bool
listed p names rules = (by_name p && contains names p.name) || matches p rules

unfoldable pub may_use : Share → Principal → Bool
unfolding allows_anyone
may_use s p = if allows_anyone s then true else listed p s.allow s.allow_claims

unfoldable pub read_only_for : Share → Principal → Bool
unfolding any_allowed_writes
read_only_for s p =
    if s.read_only
    then true
    else if any_allowed_writes s
    then false
    else not (listed p s.writers s.writer_claims)

unfoldable pub anyone_writes : Share → Bool
unfolding restricted
anyone_writes s = not s.read_only && not (restricted s)

-- `adopt`: serve the driver that `prev` opened.
unfoldable pub adopt : Share → Share → Share
adopt s prev =
    let t : Share = record s {
      fsys = prev.fsys;
      opened_read_only = prev.opened_read_only;
      forced_read_only = prev.forced_read_only;
      asked_write = prev.asked_write;
      closers = prev.closers;
    } in
    if prev.opened_read_only || prev.forced_read_only
    then record t { read_only = true; writers = [] }
    else t

-- `release`: the closers that run, for the shares whose driver no share of `keep` serves.
unfoldable pub release : List Share → List Share → List ℕ
release [] keep = []
release (sh ∷ shares) keep =
    let later = release shares keep in
    if any (λ k. k.fsys == sh.fsys) keep then later else sh.closers ++ later

-- protocol.go: a protocol as it is registered.
pub record Protocol : Type 0 where
  pub name : Text
  pub authenticates : Bool

-- What `canAuthenticate` reads of a configuration: a kerberos block, and the identity of the serve
-- block for NFS, if there is one.
pub record Deployment : Type 0 where
  pub kerberos : Bool
  pub nfs_identity : Option Text

abbrev certificate_for_nfs : Option Text → Bool
certificate_for_nfs none = false
certificate_for_nfs (some i) = i == bytes "certificate"

-- `none` is the nil configuration.
unfoldable pub can_authenticate : Protocol → Option Deployment → Bool
can_authenticate p none = p.authenticates
can_authenticate p (some c) =
    p.authenticates || (p.name == bytes "nfs" && (c.kerberos || certificate_for_nfs c.nfs_identity))

unfoldable pub identity_protocol : Text → Bool
identity_protocol name = contains (bytes "sftp" ∷ bytes "webdav" ∷ []) name

pub data Verdict : Type 0 where
  served refused skipped : Verdict

-- One round of the loop of `exports`.
unfoldable pub verdict : Protocol → Option Deployment → Share → Verdict
unfolding restricted
verdict p c s =
    if not (null s.protocols) && not (contains s.protocols p.name)
    then skipped
    else if not (can_authenticate p c) && restricted s
    then refused
    else if s.system && not (identity_protocol p.name)
    then refused
    else served

abbrev add_to : Verdict → Share → List Share × List Share → List Share × List Share
add_to served s (yes_list, no_list) = (s ∷ yes_list, no_list)
add_to refused s (yes_list, no_list) = (yes_list, s ∷ no_list)
add_to skipped s lists = lists

-- `exports`: what is served, and what is refused, both in the order of the list.
unfoldable pub exports : Protocol → Option Deployment → List Share → List Share × List Share
unfolding verdict
exports p c [] = ([], [])
exports p c (s ∷ shares) = add_to (verdict p c s) s (exports p c shares)

-- What a directory can do for somebody.
pub data Credential : Type 0 where
  nt_hash verifier password public_keys : Credential

-- `canServeUser`; `ca_file` is the authority of the configuration, if there is one.
unfoldable pub can_serve_user : Text → (Credential → Bool) → Option Text → Bool
can_serve_user name can ca_file =
    if name == bytes "smb"
    then can nt_hash
    else if name == bytes "webdav"
    then can verifier || can password
    else if name == bytes "sftp"
    then can public_keys || elim ca_file [ none ↦ false | some file ↦ not (null file) ]
    else if name == bytes "s3"
    then can password
    else false
