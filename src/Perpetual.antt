-- ===== src/Perpetual.antt =====
-- perpetual.py: the loops that never return on an empty board.
pub mod Drive
pub mod Settled
pub mod Team
pub mod Owners
pub mod Interleaving
pub mod Loop
pub mod Ticks
pub mod Returns
pub mod Cached
pub mod Pidfile
pub mod Owner
pub mod Backoff
pub mod Status
pub mod Tests
