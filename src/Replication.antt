-- ===== src/Replication.antt =====
-- internal/replication: the follower's side of replication.
pub mod Wire
pub mod RoundTrip
