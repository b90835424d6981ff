-- ===== src/Command.antt =====
-- cmd/setrixdb/main.go: the command line.
pub mod Lines
pub mod Sets
pub mod Reading
pub mod Units
pub mod Answers
pub mod Intersecting
pub mod Terms
pub mod Vocabulary
pub mod Bench
