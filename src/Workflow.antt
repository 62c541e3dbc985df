-- ===== src/Workflow.antt =====
-- workflow.py: passes of agents over one change, and when the change may be merged.
pub mod Passes
pub mod Runner
pub mod Merging
pub mod Crashes
pub mod FanOut
pub mod Stub
pub mod Tests
