-- ===== src/Verifiers.antt =====
-- pkg/core/verifiers: the rules that transactions and blocks are checked by.
pub mod Faults
pub mod Transaction
pub mod Block
pub mod Certificate
