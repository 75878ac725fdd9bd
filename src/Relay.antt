-- ===== src/Relay.antt =====
-- internal/relay/server.go: the relay server.
pub mod Types
pub mod Ids
pub mod LargestSize
pub mod Disk
pub mod Files
pub mod Cases
pub mod Handlers
pub mod Trace
pub mod Safety
pub mod Access
pub mod Isolation
pub mod Upload
pub mod OneTime
pub mod Sweep
pub mod Create
pub mod Download
