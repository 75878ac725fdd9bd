-- ===== src/Storage.antt =====
-- internal/storage: the providers of encrypted payloads.
pub mod Ids
pub mod Types
pub mod Memory
pub mod Store
pub mod Local
pub mod Wire
pub mod Client
