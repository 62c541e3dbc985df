-- ===== src/Usage.antt =====
-- usage.py: how much of each billing lane is left. Times are whole microseconds, a fraction is a pair
-- of numbers, and two fractions are compared by their cross products.
pub mod Fraction
pub mod Lane
pub mod Tracker
pub mod Snapshot
pub mod Limits
pub mod Window
pub mod Best
pub mod Persist
pub mod Restart
pub mod Tests
