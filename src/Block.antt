-- ===== src/Block.antt =====
-- pkg/core/block: the certificate and the header of a block.
pub mod Certificate
pub mod Header
pub mod Body
pub mod Root
