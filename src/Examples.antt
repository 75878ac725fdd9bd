-- ===== src/Examples.antt =====
-- Concrete inputs for the theorems, one module for each part of the program.
mod Toys
mod OnTransport
mod OnRelay
mod OnStorage
mod OnCrypto
mod OnPayments
mod OnDrops
mod OnLocks
mod OnManifest
mod OnDatabase
mod OnLocal
mod OnClient
mod OnEvents
