-- ===== src/Reduction.antt =====
-- pkg/core/consensus/reduction: the votes on a block hash, by which a committee reduces the candidates
-- to one block or none.
pub mod Event
pub mod Handler
pub mod Reducer
