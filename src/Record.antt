-- ===== src/Record.antt =====
-- internal/record: the header of a Kafka record batch (message format v2), and the walk over a
-- record set.
pub mod Batch
pub mod Iterate
pub mod WellFormed
pub mod Patch
