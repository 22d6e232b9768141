-- ===== src/ProofCore.antt =====
-- packages/proof-core/src: the hashing scheme of Merkle proofs over affected and residence cells.
pub mod Bytes
pub mod Merkle
pub mod Leaf
pub mod Shard
pub mod Manifest
pub mod Decimal
pub mod AffectedCells
