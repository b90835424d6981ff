-- ===== src/Examples.antt =====
-- The theorems at concrete inputs.
mod Engine
mod Sets
mod Bitsets
mod Files
mod Shards
mod Handles
mod Rings
mod Terms
mod Servers
mod Commands
