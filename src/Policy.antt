-- ===== src/Policy.antt =====
-- app/application/replay_policies.py: how a policy sorts the messages of a dead-letter queue (Plan), and
-- what its runs leave behind (Runs).
pub mod Plan
pub mod Runs
pub mod Passes
