-- ===== src/Hashmap.antt =====
-- pkg/types/hashmap: the map from flow keys to counters.
pub mod Slots
pub mod Chains
pub mod Fills
pub mod Sums
pub mod Halves
pub mod Moving
pub mod Writes
pub mod Valid
pub mod Evacuating
pub mod Kept
pub mod Advancing
pub mod Working
pub mod Sharing
pub mod Writing
pub mod Doubling
pub mod Setting
pub mod Attempts
pub mod Total
pub mod Map
pub mod Updates
pub mod Merge
pub mod Fresh
pub mod Settles
pub mod Iterator
pub mod Scanning
pub mod Opening
pub mod Round
pub mod Nexts
pub mod Pairs
pub mod Seeds
pub mod Merged
pub mod Meta
pub mod Emitting
pub mod Chained
pub mod Aggregate
pub mod Filled
pub mod Table
pub mod Growth
pub mod Access
