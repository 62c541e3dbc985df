-- ===== src/Meta.antt =====
-- meta_supervisor.py: how safely a task can run, what it may cost, and which failures recur.
pub mod Score
pub mod Overlap
pub mod Preflight
pub mod Admission
pub mod Anomalies
pub mod Escalation
pub mod Monitor
pub mod Silence
pub mod Averages
pub mod Tests
