-- ===== src/Manifest.antt =====
-- internal/manifest/manifest.go: the descriptor of a drop.
pub mod Types
pub mod Validate
pub mod Filenames
pub mod Signing
