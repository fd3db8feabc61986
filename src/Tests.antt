-- ===== src/Tests.antt =====
-- Concrete runs of the definitions, and the theorems at concrete inputs.
mod Encoding
mod Wire
mod SortedSet
mod Consensus
pub mod Committee
mod Sortition
pub mod Crypto
pub mod Reduction
mod Agreement
mod Reducer
mod Ring
pub mod Transactions
pub mod Verifiers
mod Mempool
mod Chain
