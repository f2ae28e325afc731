-- ===== src/Replication/RoundTrip.antt =====
-- The follower's fetch over the wire: what internal/replication encodes, the broker decodes, and
-- what the broker encodes, internal/replication reads.
pub mod Request
pub mod Response
