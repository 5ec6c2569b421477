-- ===== src/Tests.antt =====
-- The theorems at concrete inputs, and runs of the definitions.
mod Keys
mod Capture
mod Conditions
mod Results
mod Storage
mod Buffer
mod Files
mod Hashmap
