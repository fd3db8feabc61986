-- ===== src/Crypto.antt =====
-- pkg/crypto: the signatures that votes carry, and the hash tree of a block.
pub mod Bls
pub mod Merkle
