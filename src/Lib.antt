-- ===== src/Lib.antt =====
-- A model of fileshare, a server that exports disk images and directories over SMB, WebDAV, NFS,
-- SFTP and S3, and of its privileged helper that makes volumes.
--
-- Access models principal.go, share.go, protocol.go and identityProtocol of identity.go: who
-- somebody is, what a share lets them do, which shares a protocol may carry, and which drivers a
-- reload closes. Access/Principal has `principal`, `claimRule`, splitRules, matches, domain;
-- Access/Share has `share`, mayUse, readOnlyFor, anyoneWrites, adopt, release, canAuthenticate,
-- exports. Access/Grants models domaingrant.go: which certificates are let in where ssh_domains is
-- set.
--
-- Union models unionfs.go: the tree of shares that one person sees. Union/Paths is what the code
-- uses of path.Clean; Union has unionForWith, route, writable, the operations of unionFS as `run`
-- on an `Op` (which answers itself or forwards a call to a driver), OpenFile and the files it
-- gives out. It uses Access for the rights. A tree's revoked function is `none` where it is nil,
-- and else whether it answers an error now; callers set it after unionForWith, which the model's
-- union_for_with takes as an argument. A driver is its number; two shares of one number share a
-- driver. Union/Snapshots has the snapshots that serve drivers without random access, as steps in
-- any order: a read's check of its handle and its load are apart, so a load may come after the
-- last close, and a load is the read of the file, the change of the count and its end, each a step.
--
-- Revocation models revocation.go: fetchOnce and fetch are functions of the list and of the world
-- a fetch meets (the file, the answer to the request, the signature check, the clock), `restore`
-- reads the state file of Revocation/Encoding, and Revocation/History runs fetches one after
-- another, as `run` does. The parser, the order of versions and the signature checks are a
-- `Reader`, an argument. The locks are left out: one goroutine fetches, and `get` reads under the
-- lock.
--
-- Provision models internal/provision: state.go, errors.go, the interface of backend.go and what
-- service.go does with them, and of config.go the check of a parent (Provision/Setup,
-- Provision/Apart). A path's parts are those of Union/Paths. A call is a function of a `Store`:
-- the records in memory, those last written to the state file, and the storage, of which a
-- `Backend` says what it answers. A call that fails keeps what it had changed. Provision/Service
-- has create, Provision/Changes the other calls, Provision/Calls runs them in sequence. Each call
-- holds the service's lock, so calls do not interleave.
--
-- Admin models the administration API: state.go and admin_grpc.go, with what volume.go,
-- volume_grpc.go and config.go give them. Admin has the state file and the blocks that managed
-- shares stand for; Admin/Subjects reads subjectOf and grantsOf; Admin/Edits has the sources
-- (withinRoots) and CreateShare, Admin/Changes the other calls, each a function of the state that
-- a change copies. Admin/Serving opens shares (openSharesExpanding, openImage and openDirectory of
-- server.go and hostdir.go, tolerantExpand of reload.go), as shares of Access; Admin/Manager is
-- blocks, changedBlocks, apply and change, with the swap of server.go. What a change meets
-- (`Meeting`: most checks of the configuration, the system, the directory, the provisioner,
-- whether the file is written and the server serves) is an argument, another at each call.
-- Admin/Startup is withState and newManager: what a server makes of its state file. Admin/Reload
-- is reload of reload.go, which reads the directory again; its maps of people have one entry a
-- name. Admin/Overlap is checkNoShareHoldsShare of config.go. Changes hold the manager's lock, so
-- they do not interleave; a state is copied by being a value. A store is in order where its state
-- is sound and each share it serves was opened for its block. Whom the entries of a list name in a
-- directory is said in Admin/Serving/Expansion, apart from the code.
--
-- Workers models workerpool.go: the pool as steps under its lock, in any order, and the loop of
-- acquire (Workers/Acquire) for one caller. `uses` has the worker of each acquire that holds a
-- reference; the code keeps it in its callers. The end of a start is one step with what follows it
-- under the lock. Sound pools are those of IsKept of Workers/InUse.
--
-- Signals models caep.go and ssf.go, by which the provider takes people back. Signals has the store
-- of revocations and the check of a credential; Signals/Subjects is parseRevocation, with
-- subjectID.keys and eventTime; Signals/Settings checks the ssf block; Signals/Receiver is Verify,
-- refreshKeys, the round trip of a poll and the sink, and Signals/Sessions what comes before the
-- first poll. Times count from Go's zero time, so a missing entry is since 0. One moment stands for
-- the time and the answers that the handling of one SET meets; each store operation holds the
-- store's lock, and rounds, deliveries and sessions are the steps of Signals/Rounds. A restart reads
-- the file with the same retain. A date that leaves 64 bits of seconds is not modelled.
--
-- Generations models generation.go with the swap of server.go: the connections of one feed, as the
-- steps of Accept, of whoever closes one, of shut and stop, in any order. Of a protocol server it
-- takes that it returns only when no call of its Accept is under way. Ranks and the steps a
-- connection waits for are in Generations/Tracked and Generations/Ends.
--
-- Volumes models volume.go and volume_grpc.go: checkVolume with what the kernel answers as an
-- argument, quotaExemptFrom and checkVolumes; Volumes/Resolve is resolveVolumes, Volumes/Calls usersOf and the API's
-- calls on volumes, each with the provisioner as it finds it; what dialling comes to is asked for each
-- share until there is a client.
--
-- Text is a list of bytes, and case mapping is that of ASCII. Numbers are unbounded. ParseSize,
-- whose shift could leave 64 bits, keeps the wrap-around; the length of a list in a state file has
-- a bound as a hypothesis. Each loop is a recursion on the list it runs over, and the search for a
-- project id is one on the ids left in the range. Only the loop of acquire runs on fuel, its
-- rounds, of which two are enough.
--
-- Not modelled: the bytes that are copied out of files, decoding the configuration and most of its
-- checks, the views of the administration, worker processes, the HTTP exchanges of security events,
-- partitions and devices, and the servers of the protocols, which are glue around other libraries.
pub mod Prelude
pub mod Access
pub mod Union
pub mod Revocation
pub mod Provision
pub mod Admin
pub mod Workers
pub mod Signals
pub mod Generations
pub mod Volumes
