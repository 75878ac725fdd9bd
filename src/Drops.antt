-- ===== src/Drops.antt =====
-- internal/drops/manager.go: the lifecycle of a drop, over any storage provider.
pub mod Types
pub mod Locks
pub mod Manager
pub mod Prepare
pub mod Create
pub mod Retrieve
pub mod Query
pub mod Available
pub mod Deliver
pub mod Verified
pub mod Revoked
pub mod Ghost
