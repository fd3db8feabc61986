-- ===== src/Mempool.antt =====
-- pkg/core/mempool: the transactions that wait for a block.
pub mod Pool
pub mod Pending
pub mod Accepted
pub mod Exclusive
pub mod Guarded
pub mod Cleaned
