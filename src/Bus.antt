-- ===== src/Bus.antt =====
-- bus.py: task delegations over the message bus, with their mirror on the kanban.
pub mod Participants
pub mod Delegation
pub mod TaskBus
pub mod Reports
pub mod Poison
pub mod Tests
