-- ===== src/Storage/Object.antt =====
-- internal/storage/object: the backend that keeps sealed data in an object store.
pub mod Read
pub mod Wal
pub mod Index
pub mod Store
pub mod Recovery
pub mod Log
