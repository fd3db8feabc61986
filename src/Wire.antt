-- ===== src/Wire.antt =====
-- pkg/p2p: the version record, topics, frames and data messages of the wire protocol, and the messages
-- that a peer has seen.
pub mod Version
pub mod Topics
pub mod Frame
pub mod Gossip
pub mod Messages
pub mod DupeMap
