-- ===== src/Policy.antt =====
-- routing.py, cost.py: where a task goes and what a call costs.
pub mod Routing
pub mod Cost
pub mod Rules
pub mod Prices
pub mod Tests
