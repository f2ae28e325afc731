-- ===== src/Protocol.antt =====
-- internal/protocol: the requests and responses, and their encodings by version.
pub mod Header
pub mod Fetch
pub mod Produce
pub mod Membership
pub mod Offsets
pub mod OffsetAnswers
pub mod Metadata
pub mod Admin
pub mod AdminAnswers
