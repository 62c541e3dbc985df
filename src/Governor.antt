-- ===== src/Governor.antt =====
-- governor.py: which lanes the dispatcher should use.
pub mod Decide
pub mod Config
pub mod Tick
pub mod Sequence
pub mod First
pub mod Dispatch
pub mod Budget
pub mod Tests
