-- ===== src/Types.antt =====
-- pkg/types: the keys and counters of flows, and the small enumerations of the package.
pub mod Widths
pub mod IpVersion
pub mod Direction
pub mod Key
pub mod Counters
pub mod ExtendedKey
