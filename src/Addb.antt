-- ===== src/Addb.antt =====
-- internal/addb: the core of the engine.
pub mod Hash
pub mod Kernel
pub mod SetOps
pub mod Sparse
pub mod Bitset
pub mod Extract
pub mod Sharded
pub mod Ring
pub mod Synonyms
pub mod Agreement
