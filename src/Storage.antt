-- ===== src/Storage.antt =====
-- internal/storage: the segmented, append-only commit log of one partition.
pub mod Index
pub mod Segment
pub mod Log
pub mod Object
pub mod Recovery
pub mod Backend
