-- ===== src/Transport.antt =====
-- internal/transport/transport.go: the helpers that the relay, its client and the storage share.
pub mod ContentRange
pub mod Backoff
pub mod Copy
pub mod Retry
