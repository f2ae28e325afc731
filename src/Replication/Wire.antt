-- ===== src/Replication/Wire.antt =====
-- internal/replication/replication.go (encodeFetch, readFetchResponse) and the framing of
-- internal/server/server.go (writeResponse): the follower's fetch over the wire.
pub mod Request
pub mod Response
