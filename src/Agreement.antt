-- ===== src/Agreement.antt =====
-- pkg/core/consensus/agreement: the aggregated votes of both steps of a reduction, on which the nodes
-- agree.
pub mod Event
pub mod Handler
pub mod Committee
