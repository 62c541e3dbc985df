-- ===== src/Kanban.antt =====
-- kanban.py
pub mod Task
pub mod Fields
pub mod Board
pub mod Ready
pub mod Lookup
pub mod Audit
pub mod Claims
pub mod Statuses
pub mod Unblocked
pub mod Readable
pub mod Edges
pub mod History
pub mod Tests
