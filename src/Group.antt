-- ===== src/Group.antt =====
-- internal/group: consumer groups and their committed offsets.
pub mod Coordinator
pub mod Groups
pub mod Offsets
