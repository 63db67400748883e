-- ===== src/Orchestration.antt =====
-- internal/orchestration: durable executions that act on the house.
pub mod ResourceGuard
