-- ===== src/Server.antt =====
-- cmd/setrixdb-server/main.go: the server of named sets.
pub mod Maps
pub mod Request
pub mod Disk
pub mod Routes
pub mod Handler
pub mod Catalog
pub mod Keeping
pub mod Steps
pub mod Fixed
pub mod Runs
pub mod Answers
pub mod Combining
pub mod Text
pub mod Meaning
pub mod Asking
pub mod Refusals
pub mod Saying
pub mod Plain
pub mod Storable
pub mod Files
pub mod Loading
pub mod Restart
pub mod Changing
