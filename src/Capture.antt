-- ===== src/Capture.antt =====
-- pkg/capture: packets, their endpoint hashes, and the flow log.
pub mod EpHash
pub mod Classify
pub mod Flow
pub mod FlowLog
pub mod Packet
pub mod Buffer
pub mod Process
