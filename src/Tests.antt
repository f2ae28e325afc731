-- ===== src/Tests.antt =====
-- Runs of the theorems on concrete inputs.
pub mod Records
pub mod Segments
pub mod Wires
pub mod Metadata
pub mod Groups
pub mod Objects
pub mod Brokers
pub mod Servers
