-- ===== src/Relay/Safety.antt =====
-- What every run of the relay keeps.
pub mod Sound
pub mod Keeps
pub mod Restart
pub mod Runs
