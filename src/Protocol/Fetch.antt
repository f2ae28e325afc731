-- ===== src/Protocol/Fetch.antt =====
-- internal/protocol/fetch.go
pub mod Request
pub mod Response
