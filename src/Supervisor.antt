-- ===== src/Supervisor.antt =====
-- supervisor.py: the loop that claims tasks and hands them to heads.
pub mod Step
pub mod First
pub mod Safety
pub mod Runs
pub mod Progress
pub mod Parallel
pub mod Flights
pub mod Aloft
pub mod Orders
pub mod Tests
