-- ===== src/Committee.antt =====
-- pkg/core/consensus/user and pkg/core/consensus/committee: who may vote, and with what weight.
pub mod Provisioners
pub mod Store
pub mod BidList
pub mod Sortition
pub mod Extractor
