-- ===== src/Consensus.antt =====
-- pkg/core/consensus: the messages, the state and the stores of the consensus.
pub mod Header
pub mod Keys
pub mod EventQueue
pub mod State
pub mod AccumulatorStore
pub mod Accumulator
pub mod EventFilter
pub mod Timer
