-- ===== src/Controller.antt =====
-- internal/controller: the replicated metadata and the failover of partition leaders.
pub mod Fsm
pub mod Failover
