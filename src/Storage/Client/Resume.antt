-- ===== src/Storage/Client/Resume.antt =====
-- internal/storage/relay.go: the upload of Put against a relay that keeps its side of the contract.
