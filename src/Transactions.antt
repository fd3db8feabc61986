-- ===== src/Transactions.antt =====
-- pkg/core/transactions: the transactions of the chain and their encoding.
pub mod Slices
pub mod Input
pub mod Output
pub mod Standard
pub mod Locked
pub mod Coinbase
pub mod Transaction
pub mod Duplicates
