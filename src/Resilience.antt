-- ===== src/Resilience.antt =====
-- resilience.py: how a call to a provider is tried again.
pub mod Backoff
pub mod Rotator
pub mod Retry
pub mod Classify
pub mod Hints
pub mod Bounds
pub mod Recovery
pub mod Preserves
pub mod Tests
