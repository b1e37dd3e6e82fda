-- ===== src/Tests.antt =====
-- Runs of the models on small inputs, and the theorems applied to them.
mod Memory
mod Growth
mod Buffer
pub mod Decoder
mod Reassembly
pub mod Chunk
mod ChunkMemory
mod ThreadCache
mod ChunkList
mod Arena
mod Receive
mod Subpage
mod Queue
mod Pipeline
