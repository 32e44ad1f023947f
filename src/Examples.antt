-- ===== src/Examples.antt =====
-- The theorems at concrete inputs, on small workers, pools, maps and operations.
mod Data
mod Workers
mod Pools
mod Maps
mod Operations
mod Retries
mod Stores
mod Chunks
mod Names
mod Channels
mod Matching
