-- ===== src/Roles.antt =====
-- roles.py: the kinds of workers, and which may delegate to which.
pub mod Ladder
pub mod Chains
pub mod Tests
