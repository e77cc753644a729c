-- ===== src/Access.antt =====
-- principal.go and share.go: who somebody is, and what a share lets them do.
pub mod Principal
pub mod Share
pub mod Grants
pub mod Tests
